-- ===== src/Tests/Engine.antt =====
-- The engine's theorems at a run.
use loopgraph_supervisor.Prelude.{if◌then◌else◌, ℕ, ◌+ℤ◌, ◌≡◌, refl, [], ◌∷◌, arith}
use loopgraph_supervisor.Floats.Fixed.{thousandths}
use loopgraph_supervisor.Domain.Runs.{created, evaluating, retry_scheduled, waiting_human, paused}
use loopgraph_supervisor.Domain.Events.{
  evaluation_started, run_waiting_human, run_paused, run_pause_requested, approve, hitl_resolved,
  run_resumed, run_recovered, run_retry_scheduled,
}
use loopgraph_supervisor.Domain.Snapshot.{
  step, steps, initial, in_bounds, validate, last_sequence, replay,
}
use loopgraph_supervisor.EventStore.{Table, violates, version, stamp, load}
use loopgraph_supervisor.EventStore.Streams.{IsNumbered, IsNumbered-grown}
use loopgraph_supervisor.Engine.Exec.{err, value_error, ok}
use loopgraph_supervisor.Engine.Runs.{create_run, get_run}
use loopgraph_supervisor.Engine.Evaluate.{
  find_graders, safe_grade, graded, grade_all, decision_of, verdict, dump_decision, evaluate,
}
use loopgraph_supervisor.Grading.Policy.{
  aggregate, decide_results, weighted_score, weights_refused, weight, constraint_passed, reported,
}
use loopgraph_supervisor.Security.Redaction.{
  redact, redact_items, redact_fields, is_sensitive, redact_text,
}
use loopgraph_supervisor.Security.Payload.{redact_event, redact_definition, stays_valid}
use loopgraph_supervisor.EventStore
use loopgraph_supervisor.Engine.Runs
use loopgraph_supervisor.Engine.Runs.Create.{new_snapshot, with_run, create_run-get_run}
use loopgraph_supervisor.Engine.Runs.Reads.{version-get_run}
use loopgraph_supervisor.Engine.Control.{
  is_waiting, is_blocked, is_in_progress, is_paused, resolution, pause, resume, recover_incomplete,
  resolve_human,
}
use loopgraph_supervisor.Engine.Control.Guards.{
  recorded, resolved, pause_lem, resume_lem, recover_incomplete_lem, resolve_human_lem,
}
use loopgraph_supervisor.Engine.Attempt.{
  attempt_with, run_harness, load_memories, converse, conclude, exceeded_budget, token_budget,
  cost_budget, after_budget, execute_attempt, run_until_blocked,
}
use loopgraph_supervisor.Engine.Attempt.Settled.{Ends}
use loopgraph_supervisor.Engine.Attempt.Outcome.{execute_attempt-Ends}
use loopgraph_supervisor.Engine.Attempt.Bounded.{Stops, run_until_blocked-Stops}
use loopgraph_supervisor.Tests.Data.{
  demo_redaction, demo_definition, nothing-IsNumbered, demo_supervisor, started, grown_by,
  started-IsNumbered, demo_snapshot,
}

started-get_run : (get_run 7 started).0 ≡ ok (demo_snapshot created 1)
unfolding get_run replay load version stamp validate in_bounds steps initial last_sequence
started-get_run = refl

create_run-get_run_example :
    (create_run demo_supervisor demo_definition 7 []
      ≡ (ok 7, with_run demo_supervisor [] 7 demo_definition))
    × ((get_run 7 (with_run demo_supervisor [] 7 demo_definition)).0 ≡ (
        if stays_valid demo_redaction demo_definition
        then ok (new_snapshot demo_supervisor 7 (redact_definition demo_redaction demo_definition))
        else err value_error))
create_run-get_run_example =
    create_run-get_run demo_supervisor demo_definition 7 [] nothing-IsNumbered refl

run_until_blocked-Stops_example : Stops 7 (run_until_blocked demo_supervisor 4 7 started)
run_until_blocked-Stops_example =
    run_until_blocked-Stops demo_supervisor 7 tt started (demo_snapshot created 1) 4
      started-IsNumbered started-get_run (omega arith)

started-execute_attempt :
    (execute_attempt demo_supervisor (demo_snapshot created 1) started).0 ≡ ok tt
unfolding execute_attempt attempt_with Runs.append EventStore.append version stamp violates
    redact_event redact_definition stays_valid run_harness load_memories converse conclude
    exceeded_budget token_budget cost_budget after_budget evaluate find_graders safe_grade graded
    grade_all decision_of verdict dump_decision aggregate decide_results weighted_score
    weights_refused weight constraint_passed reported redact redact_items redact_fields is_sensitive
    redact_text ◌+ℤ◌
started-execute_attempt = refl

execute_attempt-Ends_example :
    Ends 7 started created 0
      (execute_attempt demo_supervisor (demo_snapshot created 1) started).1
      1
      2
execute_attempt-Ends_example =
    execute_attempt-Ends demo_supervisor (demo_snapshot created 1) started tt started-IsNumbered
      started-execute_attempt

abbrev waiting : Table ℕ
waiting = grown_by started (run_waiting_human "review" ∷ [])

waiting-IsNumbered : IsNumbered waiting
waiting-IsNumbered = IsNumbered-grown started 7 (run_waiting_human "review" ∷ []) started-IsNumbered

waiting-get_run : (get_run 7 waiting).0 ≡ ok (demo_snapshot waiting_human 2)
unfolding get_run replay load version stamp validate in_bounds steps initial last_sequence step
waiting-get_run = refl

abbrev on_hold : Table ℕ
on_hold = grown_by started (run_paused "later" ∷ [])

on_hold-IsNumbered : IsNumbered on_hold
on_hold-IsNumbered = IsNumbered-grown started 7 (run_paused "later" ∷ []) started-IsNumbered

on_hold-get_run : (get_run 7 on_hold).0 ≡ ok (demo_snapshot paused 2)
unfolding get_run replay load version stamp validate in_bounds steps initial last_sequence step
on_hold-get_run = refl

abbrev in_flight : Table ℕ
in_flight = grown_by started (evaluation_started 0 ∷ [])

in_flight-IsNumbered : IsNumbered in_flight
in_flight-IsNumbered = IsNumbered-grown started 7 (evaluation_started 0 ∷ []) started-IsNumbered

in_flight-get_run : (get_run 7 in_flight).0 ≡ ok (demo_snapshot evaluating 2)
unfolding get_run replay load version stamp validate in_bounds steps initial last_sequence step
in_flight-get_run = refl

version-get_run_example : 2 ≡ version on_hold 7
version-get_run_example =
    version-get_run on_hold 7 (demo_snapshot paused 2) on_hold-IsNumbered on_hold-get_run

resolve_human_lem_example : resolve_human demo_supervisor 7 approve "ada" "fine" waiting ≡ (
  ok (resolved demo_supervisor approve "fine" (demo_snapshot waiting_human 2)),
  recorded demo_supervisor waiting 7
      (hitl_resolved approve "ada" "fine" ∷ resolution approve "fine" 0),
)
unfolding is_waiting
resolve_human_lem_example =
    resolve_human_lem demo_supervisor waiting 7 approve "ada" "fine" (demo_snapshot waiting_human 2)
      waiting-IsNumbered waiting-get_run

pause_lem_example : pause demo_supervisor 7 "ada" "later" started ≡ (
  ok (demo_snapshot paused 3),
  recorded demo_supervisor started 7
      (run_pause_requested "ada" "later" created ∷ run_paused "later" ∷ []),
)
unfolding is_blocked is_in_progress
pause_lem_example =
    pause_lem demo_supervisor started 7 "ada" "later" (demo_snapshot created 1) started-IsNumbered
      started-get_run

resume_lem_example : resume demo_supervisor 7 "ada" "now" on_hold ≡ (
  ok (demo_snapshot retry_scheduled 3),
  recorded demo_supervisor on_hold 7 (run_resumed "ada" "now" 1 ∷ []),
)
unfolding is_paused
resume_lem_example =
    resume_lem demo_supervisor on_hold 7 "ada" "now" (demo_snapshot paused 2) on_hold-IsNumbered
      on_hold-get_run

recover_incomplete_lem_example : recover_incomplete demo_supervisor 7 "ada" in_flight ≡ (
  ok (demo_snapshot retry_scheduled 4),
  recorded demo_supervisor in_flight 7
      (run_recovered "ada" evaluating 0 ∷ run_retry_scheduled 1 ∷ []),
)
unfolding is_in_progress
recover_incomplete_lem_example =
    recover_incomplete_lem demo_supervisor in_flight 7 "ada" (demo_snapshot evaluating 2)
      in_flight-IsNumbered in_flight-get_run
