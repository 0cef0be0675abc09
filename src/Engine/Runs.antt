-- ===== src/Engine/Runs.antt =====
-- `_append`, `get_run`, `create_run` and `append_control_event` of
-- src/loopgraph_supervisor/application/engine.py
pub mod Reads
pub mod Create
use loopgraph_supervisor.Prelude.{
  ℕ, Bool, true, false, not, String, Option, none, some, List, [], ◌∷◌, map, any, lookup,
  is_missing, if◌then◌else◌,
}
use loopgraph_supervisor.Floats.{Floats}
use loopgraph_supervisor.Domain.Runs.{RunDefinition}
use loopgraph_supervisor.Domain.Events.{EventData, NewEvent, StoredEvent, run_created}
use loopgraph_supervisor.Domain.Snapshot.{RunSnapshot, replay}
use loopgraph_supervisor.Security.Payload.{redact_event}
use loopgraph_supervisor.EventStore
use loopgraph_supervisor.EventStore.{Table, AppendResult, stored, version, load}
use loopgraph_supervisor.Engine.Exec.{
  Exception, key_error, value_error, concurrency_error, Result, ok, err, Exec, pure, raise, lift,
  ◌>>=◌, ◌>>◌,
}
use loopgraph_supervisor.Engine.Config.{Supervisor, Harness}

module _ {F : Type 0} where
  to_result : AppendResult F → Result F (Unit {0})
  to_result (stored es) = ok tt
  to_result (EventStore.concurrency_error run expected actual) =
      err (concurrency_error run expected actual)

  -- `_append`: the version is read, and the redacted events are appended at it.
  unfoldable pub append : Supervisor F → ℕ → List (NewEvent F) → Exec F (Table F) (Unit {0})
  unfolding to_result
  append s run events t =
      let (result, t') =
        EventStore.append t run (version t run) (map (redact_event s.redaction_policy) events) in
      (to_result result, t')

  unfoldable pub create_run : Supervisor F → RunDefinition F → ℕ → Exec F (Table F) ℕ
  unfolding append
  create_run s definition run =
      if is_missing (lookup definition.harness_id s.harnesses)
      then raise key_error
      else if any (λ id. is_missing (lookup id s.graders)) definition.grader_ids
      then raise key_error
      else (append s run (run_created definition ∷ []) >> pure run)

module _ {F : Type 0} ⦃fl : Floats F⦄ where
  unfoldable pub replayed : List (StoredEvent F) → Result F (RunSnapshot F)
  replayed [] = err key_error
  replayed (e ∷ es) = elim (replay (e ∷ es)) [ none ↦ err value_error | some s ↦ ok s ]

  unfoldable pub get_run : ℕ → Exec F (Table F) (RunSnapshot F)
  unfolding replayed
  get_run run t = (replayed (load t run 0 none), t)

  unfoldable pub append_control_event : Supervisor F → ℕ → EventData F → Exec F (Table F) (Unit {0})
  append_control_event s run event = do get_run run; append s run (event ∷ [])
