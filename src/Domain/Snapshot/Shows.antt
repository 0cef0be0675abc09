-- ===== src/Domain/Snapshot/Shows.antt =====
-- What a snapshot shows of the events that it was replayed from.
use loopgraph_supervisor.Prelude.{◌≡◌, sym, ◌∙◌, ap, some, List, ◌∷◌, ◌++◌, map}
use loopgraph_supervisor.Floats.{Floats}
use loopgraph_supervisor.Domain.Runs.{created}
use loopgraph_supervisor.Domain.Events.{EventData, StoredEvent, run_created}
use loopgraph_supervisor.Domain.Snapshot.{
  RunSnapshot, steps, initial, last_sequence, replay_from, replay,
}
use loopgraph_supervisor.Domain.Snapshot.Laws.{
  status_after, attempt_after, status_of, attempt_of, status_of-append, attempt_of-append,
  status-steps, attempt-steps, definition-steps, validate-eq_some,
}

-- The first event creates the run with the snapshot's definition; status and attempt are where the
-- events lead to.
pub record Shows {F : Type 0} (events : List (EventData F)) (x : RunSnapshot F) : Type 0 where
  pub status : x.status ≡ status_of created events
  pub attempt : x.attempt ≡ attempt_of 0 events
  pub rest : List (EventData F)
  pub first : events ≡ run_created x.definition ∷ rest

module _ {F : Type 0} ⦃fl : Floats F⦄ where
  replay_from-Shows :
      (e : StoredEvent F) (first : EventData F) (es : List (StoredEvent F)) (x : RunSnapshot F)
      → replay_from e first es ≡ some x
      → Shows (first ∷ map (λ e. e.event) es) x
  unfolding replay_from initial status_after attempt_after
  replay_from-Shows e (run_created d) es x h =
      let start = initial e d (last_sequence e es) in
      let same = sym (validate-eq_some (steps start es) h) in
      record {
        status = ap (λ (x : RunSnapshot F). x.status) same ∙ status-steps start es;
        attempt = ap (λ (x : RunSnapshot F). x.attempt) same ∙ attempt-steps start es;
        rest = map (λ e. e.event) es;
        first =
            ap (λ d. run_created d ∷ map (λ e. e.event) es)
              (sym (ap (λ (x : RunSnapshot F). x.definition) same ∙ definition-steps start es));
      }
  replay_from-Shows e _ es x h = cc

  pub replay-Shows :
      (e : StoredEvent F) (es : List (StoredEvent F)) (x : RunSnapshot F)
      → replay (e ∷ es) ≡ some x
      → Shows (map (λ e. e.event) (e ∷ es)) x
  unfolding replay
  replay-Shows e es x h = replay_from-Shows e e.event es x h

  -- A longer stream shows the same definition, and a status and an attempt that go on from the ones
  -- before.
  pub Shows-append :
      (es new : List (EventData F)) (x x' : RunSnapshot F)
      → Shows es x
      → Shows (es ++ new) x'
      → (x'.status ≡ status_of x.status new)
        × (x'.attempt ≡ attempt_of x.attempt new)
        × (x'.definition ≡ x.definition)
  Shows-append es new x x' h h' = (
    h'.status ∙ status_of-append created es new ∙ ap (λ s. status_of s new) (sym h.status),
    h'.attempt ∙ attempt_of-append 0 es new ∙ ap (λ n. attempt_of n new) (sym h.attempt),
    cc (h'.first, h.first),
  )
