-- ===== src/Engine/Runs/Create.antt =====
-- `create_run`, and what `get_run` reads of the new run:
-- src/loopgraph_supervisor/application/engine.py
use loopgraph_supervisor.Prelude.{
  ℕ, subst, ◌≡◌, refl, ◌∙◌, ap, true, some, [], ◌∷◌, ◌++◌, ◌||◌, any, length, lookup, is_missing,
  if◌then◌else◌, Bool-cases, inl, inr,
}
use loopgraph_supervisor.Floats.{Floats}
use loopgraph_supervisor.Domain.Runs.{RunDefinition}
use loopgraph_supervisor.Domain.Events.{run_created}
use loopgraph_supervisor.Domain.Snapshot.{
  RunSnapshot, steps, initial, in_bounds, validate, last_sequence, replay,
}
use loopgraph_supervisor.Security.Payload.{redact_definition, stays_valid, redact_event}
use loopgraph_supervisor.EventStore.{Table, version, stamp}
use loopgraph_supervisor.EventStore.Rows.{rows, version-eq-length}
use loopgraph_supervisor.EventStore.Streams.{IsNumbered, IsNumbered-grown, rows-append_self}
use loopgraph_supervisor.Engine.Exec.{Exec, pure, ◌>>◌, ok, err, key_error, value_error}
use loopgraph_supervisor.Engine.Config.{Supervisor}
use loopgraph_supervisor.Engine.Runs.{append, create_run, replayed, get_run}
use loopgraph_supervisor.Engine.Runs.Reads.{append-eq, redacted, load-rows, replayed-some}

module _ {F : Type 0} ⦃fl : Floats F⦄ (s : Supervisor F) where
  -- The snapshot of a run of which nothing has happened yet.
  abbrev pub new_snapshot : ℕ → RunDefinition F → RunSnapshot F
  new_snapshot run d = initial (record { run_id = run; sequence = 1; event = run_created d }) d 1

  new_snapshot-in_bounds : (run : ℕ) (d : RunDefinition F) → in_bounds (new_snapshot run d) ≡ true
  unfolding in_bounds initial
  new_snapshot-in_bounds run d = rw (fl.lt_irrefl fl.zero) refl

  validate-new :
      (run : ℕ) (d : RunDefinition F) → validate (new_snapshot run d) ≡ some (new_snapshot run d)
  unfolding validate
  validate-new run d = rw (new_snapshot-in_bounds run d) refl

  replay-new :
      (run : ℕ) (d : RunDefinition F)
      → replay (record { run_id = run; sequence = 1; event = run_created d } ∷ [])
        ≡ some (new_snapshot run d)
  unfolding replay steps last_sequence
  replay-new run d = validate-new run d

  replayed-new :
      (run : ℕ) (d : RunDefinition F)
      → replayed (stamp run 0 (redacted s (run_created d ∷ []))) ≡ (
          if stays_valid s.redaction_policy d
          then ok (new_snapshot run (redact_definition s.redaction_policy d))
          else err value_error)
  unfolding replayed stamp redact_event replay
  replayed-new run d = elim (Bool-cases (stays_valid s.redaction_policy d)) [
    | inr bad ↦ rw bad refl
    | inl good ↦ rw good (
        replayed-some
          (record {
            run_id = run;
            sequence = 1;
            event = run_created (redact_definition s.redaction_policy d);
          })
          [] _ (replay-new run (redact_definition s.redaction_policy d)))
  ]

  then_pure :
      (m : Exec F (Table F) (Unit {0})) (run : ℕ) (t t' : Table F)
      → m t ≡ (ok tt, t')
      → (m >> pure run) t ≡ (ok run, t')
  then_pure m run t t' h = rw h refl

  -- The table with a new run.
  abbrev pub with_run : Table F → ℕ → RunDefinition F → Table F
  with_run t run d = t ++ stamp run 0 (redacted s (run_created d ∷ []))

  get_run-with_run :
      (d : RunDefinition F) (run : ℕ) (t : Table F)
      → IsNumbered t
      → rows t run ≡ []
      → version t run ≡ 0
      → (get_run run (with_run t run d)).0 ≡ (
          if stays_valid s.redaction_policy d
          then ok (new_snapshot run (redact_definition s.redaction_policy d))
          else err value_error)
  unfolding get_run
  get_run-with_run d run t w fresh none_yet =
      let events = redacted s (run_created d ∷ []) in
      let w' : IsNumbered (with_run t run d) =
        subst (λ n. IsNumbered (t ++ stamp run n events)) none_yet
          (IsNumbered-grown t run events w) in
      let mine : rows (with_run t run d) run ≡ stamp run 0 events =
        rows-append_self t run 0 events ∙ ap (λ l. l ++ stamp run 0 events) fresh in
      ap replayed (load-rows (with_run t run d) run w' ∙ mine) ∙ replayed-new run d

  -- Creating a run under a key without events, in a table whose runs are numbered: an unknown
  -- harness or grader is refused and nothing is written; otherwise the event with the redacted
  -- definition is written at the first place. A run with this event can be read exactly if the
  -- redacted definition still validates, and then as a new run with it.
  pub create_run-get_run :
      (d : RunDefinition F) (run : ℕ) (t : Table F)
      → IsNumbered t
      → rows t run ≡ []
      → (create_run s d run t ≡ (
          if is_missing (lookup d.harness_id s.harnesses)
            || any (λ id. is_missing (lookup id s.graders)) d.grader_ids
          then (err key_error, t)
          else (ok run, with_run t run d)))
        × ((get_run run (with_run t run d)).0 ≡ (
            if stays_valid s.redaction_policy d
            then ok (new_snapshot run (redact_definition s.redaction_policy d))
            else err value_error))
  unfolding create_run
  create_run-get_run d run t w fresh =
      let none_yet : version t run ≡ 0 = version-eq-length t run (w.at_run run) ∙ ap length fresh in
      let written : append s run (run_created d ∷ []) t ≡ (ok tt, with_run t run d) =
        append-eq s run (run_created d ∷ []) t
        ∙ ap (λ n. (ok tt, t ++ stamp run n (redacted s (run_created d ∷ [])))) none_yet in
      (
        elim (Bool-cases (is_missing (lookup d.harness_id s.harnesses))) [
          | inl unknown ↦ rw unknown refl
          | inr known ↦
              elim (Bool-cases (any (λ id. is_missing (lookup id s.graders)) d.grader_ids)) [
                | inl unknown ↦ rw (known, unknown) refl
                | inr found ↦
                    rw (known, found)
                      (then_pure (append s run (run_created d ∷ [])) run t _ written)
              ]
        ],
        get_run-with_run d run t w fresh none_yet,
      )
