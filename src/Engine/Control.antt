-- ===== src/Engine/Control.antt =====
-- The operator's operations on a run, in src/loopgraph_supervisor/application/engine.py:
-- `resolve_human`, `pause`, `resume`, `recover_incomplete` and `record_internal_failure`.
pub mod Guards
use loopgraph_supervisor.Prelude.{
  ℕ, suc, ◌+◌, Bool, true, false, not, String, List, [], ◌∷◌, ◌++◌, if◌then◌else◌,
}
use loopgraph_supervisor.Floats.{Floats}
use loopgraph_supervisor.Domain.Runs.{
  RunStatus, created, running, evaluating, retry_scheduled, waiting_human, paused, succeeded,
  failed, cancelled,
}
use loopgraph_supervisor.Domain.Events.{
  HumanDecision, approve, reject, retry, NewEvent, hitl_resolved, run_succeeded, run_failed,
  run_retry_scheduled, run_pause_requested, run_paused, run_resumed, run_recovered,
  run_internal_failed, run_waiting_human,
}
use loopgraph_supervisor.Domain.Snapshot.{RunSnapshot}
use loopgraph_supervisor.EventStore.{Table}
use loopgraph_supervisor.Engine.Exec.{
  Exception, value_error, safe_error, Result, ok, err, Exec, pure, raise, ◌>>=◌, ◌>>◌,
}
use loopgraph_supervisor.Engine.Config.{Supervisor}
use loopgraph_supervisor.Engine.Runs.{append, get_run}

-- `status in {SUCCEEDED, FAILED, CANCELLED}`
unfoldable pub is_terminal : RunStatus → Bool
is_terminal succeeded = true
is_terminal failed = true
is_terminal cancelled = true
is_terminal _ = false

-- The statuses of the two guards of `pause`, and of `start` for the first.
unfoldable pub is_blocked : RunStatus → Bool
is_blocked succeeded = true
is_blocked failed = true
is_blocked cancelled = true
is_blocked paused = true
is_blocked waiting_human = true
is_blocked _ = false

unfoldable pub is_in_progress : RunStatus → Bool
is_in_progress running = true
is_in_progress evaluating = true
is_in_progress _ = false

unfoldable pub is_waiting : RunStatus → Bool
is_waiting waiting_human = true
is_waiting _ = false

unfoldable pub is_paused : RunStatus → Bool
is_paused paused = true
is_paused _ = false

module _ {F : Type 0} where
  -- What follows `hitl.resolved`.
  unfoldable pub resolution : HumanDecision → String → ℕ → List (NewEvent F)
  resolution approve reason attempt = run_succeeded true ∷ []
  resolution reject reason attempt = run_failed reason ∷ []
  resolution retry reason attempt = run_retry_scheduled (attempt + 1) ∷ []

module _ {F : Type 0} ⦃fl : Floats F⦄ where
  unfoldable pub resolve_human :
      Supervisor F → ℕ → HumanDecision → String → String → Exec F (Table F) (RunSnapshot F)
  resolve_human s run decision actor reason = do
    snapshot ← get_run run
    if not (is_waiting snapshot.status) then raise value_error else do
      append s run
          (hitl_resolved decision actor reason ∷ resolution decision reason snapshot.attempt)
      get_run run

  unfoldable pub pause : Supervisor F → ℕ → String → String → Exec F (Table F) (RunSnapshot F)
  pause s run actor reason = do
    snapshot ← get_run run
    if is_blocked snapshot.status then raise value_error else do
      if is_in_progress snapshot.status then raise value_error else do
        append s run (run_pause_requested actor reason snapshot.status ∷ run_paused reason ∷ [])
        get_run run

  unfoldable pub resume : Supervisor F → ℕ → String → String → Exec F (Table F) (RunSnapshot F)
  resume s run actor reason = do
    snapshot ← get_run run
    if not (is_paused snapshot.status)
        then raise value_error
        else do append s run (run_resumed actor reason (snapshot.attempt + 1) ∷ []); get_run run

  unfoldable pub recover_incomplete : Supervisor F → ℕ → String → Exec F (Table F) (RunSnapshot F)
  recover_incomplete s run actor = do
    snapshot ← get_run run
    if not (is_in_progress snapshot.status) then pure snapshot else do
      append s run (
          run_recovered actor snapshot.status snapshot.attempt
          ∷ run_retry_scheduled (snapshot.attempt + 1)
          ∷ [])
      get_run run

  unfoldable pub record_internal_failure :
      Supervisor F → ℕ → Exception F → Exec F (Table F) (Unit {0})
  record_internal_failure s run error = do
    snapshot ← get_run run
    if is_terminal snapshot.status
        then pure tt
        else append s run
            (run_internal_failed (safe_error error) ∷ run_waiting_human "internal_failure" ∷ [])
