-- ===== src/Tests/Store.antt =====
-- The theorems on the event store and the replay at a run.
use loopgraph_supervisor.Prelude.{ℕ, ◌≡◌, ◌+◌, refl, none, some, List, [], ◌∷◌, ◌++◌}
use loopgraph_supervisor.Floats.Fixed.{thousandths}
use loopgraph_supervisor.Domain.Events.{
  NewEvent, StoredEvent, run_created, run_started, agent_event, run_paused,
}
use loopgraph_supervisor.Domain.Snapshot.{replay, validate}
use loopgraph_supervisor.Domain.Snapshot.Summary.{summary, replay-summary}
use loopgraph_supervisor.Domain.Json.{end}
use loopgraph_supervisor.EventStore.{concurrency_error, version, stamp, append, load}
use loopgraph_supervisor.EventStore.Streams.{
  IsNumbered, view, view-append, append-IsNumbered, append_race, load-append, load_pages,
}
use loopgraph_supervisor.Tests.Data.{demo_definition, started, started-IsNumbered}

abbrev pause_now : NewEvent ℕ
pause_now = run_paused "later"

view-append_example :
    view (append started 7 1 (pause_now ∷ [])).1 7 ≡ run_created demo_definition ∷ pause_now ∷ []
unfolding version stamp
view-append_example = view-append started 7 1 (pause_now ∷ []) 7 started-IsNumbered

append-IsNumbered_example : IsNumbered (append started 7 0 (pause_now ∷ [])).1
append-IsNumbered_example = append-IsNumbered started 7 0 (pause_now ∷ []) started-IsNumbered

append_race_example :
    append
      (append started 7 (version started 7) (run_started 1 ∷ [])).1
      7
      (version started 7)
      (pause_now ∷ [])
    ≡ (
      concurrency_error 7 (version started 7) (version started 7 + 1),
      started ++ stamp 7 (version started 7) (run_started 1 ∷ []),
    )
append_race_example = append_race started 7 (run_started 1) [] pause_now [] started-IsNumbered

load-append_example :
    load (append started 7 (version started 7) (pause_now ∷ [])).1 7 0 none
    ≡ load started 7 0 none ++ stamp 7 (version started 7) (pause_now ∷ [])
load-append_example = load-append started 7 (pause_now ∷ []) started-IsNumbered

load_pages_example : load started 7 0 (some 1) ++ load started 7 1 none ≡ load started 7 0 none
load_pages_example = load_pages started 7 0 1 started-IsNumbered

abbrev first_row : StoredEvent ℕ
first_row = record { run_id = 7; sequence = 1; event = run_created demo_definition }

abbrev work_rows : List (StoredEvent ℕ)
work_rows =
    record { run_id = 7; sequence = 2; event = run_started 1 }
    ∷ record {
      run_id = 7;
      sequence = 3;
      event = agent_event (record { type = "agent.step"; content = end });
    }
    ∷ record { run_id = 7; sequence = 4; event = pause_now }
    ∷ []

replay-summary_example :
    replay (first_row ∷ work_rows) ≡ validate (summary first_row demo_definition work_rows)
replay-summary_example = replay-summary first_row demo_definition work_rows refl
