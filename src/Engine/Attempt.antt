-- ===== src/Engine/Attempt.antt =====
-- `_execute_attempt`, `_load_memories`, the handlers of its exceptions, and `run_until_blocked`, of
-- src/loopgraph_supervisor/application/engine.py
pub mod Settled
pub mod Evaluation
pub mod Outcome
pub mod Bounded
use loopgraph_supervisor.Prelude.{
  ℕ, zero, suc, ◌+◌, ℤ, ◌+ℤ◌, exceeds, Bool, true, false, not, String, Option, none, some, List, [],
  ◌∷◌, map, keep, lookup, if◌then◌else◌,
}
use loopgraph_supervisor.Floats.{Floats, flt}
use loopgraph_supervisor.Domain.Models.{Hint, is_active}
use loopgraph_supervisor.Domain.Directives.{
  ExecutionResult, SupervisorDirective, SupervisorDirectiveAction, continue, inject_hint, pause,
  request_human, spawn_subagent, propose_mutation, abort,
}
use loopgraph_supervisor.Domain.Runs.{RunDefinition, RunStatus, created, retry_scheduled}
use loopgraph_supervisor.Domain.Events.{
  Budget, tokens, cost, EventData, NewEvent, run_started, agent_execution_completed,
  agent_execution_failed, budget_exhausted, run_waiting_human, run_paused, run_failed,
}
use loopgraph_supervisor.Domain.Snapshot.{RunSnapshot}
use loopgraph_supervisor.EventStore.{Table}
use loopgraph_supervisor.Memory.{
  Memories, MemoryRecord, MemoryResult, MemoryContextPolicy, for_context,
}
use loopgraph_supervisor.Memory
use loopgraph_supervisor.Engine.Exec.{
  Exception, key_error, value_error, runtime_error, budget_exceeded, control_signal, safe_error,
  Result, ok, err, Exec, pure, raise, lift, ◌>>=◌, ◌>>◌,
}
use loopgraph_supervisor.Engine.Config.{Supervisor, Harness, Conversation, returns, raises, emits}
use loopgraph_supervisor.Engine.Runs.{append, get_run}
use loopgraph_supervisor.Engine.Emit.{Attempt, AttemptState, emit}
use loopgraph_supervisor.Engine.Evaluate.{evaluate}

-- `status in {CREATED, RETRY_SCHEDULED}`
unfoldable pub is_runnable : RunStatus → Bool
is_runnable created = true
is_runnable retry_scheduled = true
is_runnable _ = false

module _ {F : Type 0} where
  unfoldable pub from_store :
      MemoryResult (List (MemoryRecord F)) → Result F (List (MemoryRecord F))
  from_store (Memory.ok rows) = ok rows
  from_store Memory.value_error = err value_error
  from_store Memory.key_error = err key_error
  from_store Memory.transition_error = err value_error

  unfoldable pub read_memories :
      RunDefinition F
      → MemoryContextPolicy
      → Option (Memories F)
      → Option ℕ
      → Result F (List (MemoryRecord F))
  read_memories d policy none version = err runtime_error
  read_memories d policy (some t) none = err value_error
  read_memories d policy (some t) (some version) = from_store (
      for_context t d.agent_bundle.name version policy.include_experimental policy.kind
        policy.required_tags policy.limit)

  -- `_load_memories`; a `memory_config` that is no policy is a validation error.
  unfoldable pub load_memories : Supervisor F → RunDefinition F → Result F (List (MemoryRecord F))
  load_memories s d = elim (s.library.memory_policy d.agent_bundle.memory_config) [
    | none ↦ err value_error
    | some policy ↦
        if policy.enabled then read_memories d policy s.memory_store d.agent_version_id else ok []
  ]

  -- `_handle_execution_error`
  unfoldable pub execution_error_events : ℕ → Exception F → List (NewEvent F)
  execution_error_events attempt e =
      agent_execution_failed attempt (safe_error e) ∷ run_waiting_human "execution_failed" ∷ []

  -- `_handle_budget_exhausted`
  unfoldable pub budget_events : ℕ → Budget F → List (NewEvent F)
  budget_events attempt b = budget_exhausted attempt b ∷ run_waiting_human "budget_exhausted" ∷ []

  -- `_handle_supervisor_control`
  unfoldable pub control_events : SupervisorDirectiveAction → String → List (NewEvent F)
  control_events pause reason = run_paused reason ∷ []
  control_events request_human reason = run_waiting_human reason ∷ []
  control_events _ reason = run_failed reason ∷ []

  -- The three `except` clauses, in their order.
  unfoldable pub exception_events : ℕ → Exception F → List (NewEvent F)
  exception_events attempt (control_signal d) = control_events d.action d.rationale
  exception_events attempt (budget_exceeded b) = budget_events attempt b
  exception_events attempt e = execution_error_events attempt e

module _ {F : Type 0} ⦃fl : Floats F⦄ where
  -- `max_tokens is not None and token_total > max_tokens`, and so for the cost
  unfoldable pub token_budget : Option ℕ → ℤ → Option (Budget F)
  token_budget none total = none
  token_budget (some limit) total = if exceeds total limit then some (tokens total limit) else none

  unfoldable pub cost_budget : Option F → F → Option (Budget F)
  cost_budget none total = none
  cost_budget (some limit) total = if flt limit total then some (cost total limit) else none

  -- The first budget that is exceeded, tokens before cost.
  unfoldable pub exceeded_budget : RunSnapshot F → ExecutionResult F → Option (Budget F)
  exceeded_budget snapshot result =
      let policy = snapshot.definition.supervisor_policy in
      elim (token_budget policy.max_tokens (snapshot.total_tokens +ℤ result.tokens)) [
        | some b ↦ some b
        | none ↦ cost_budget policy.max_cost (fl.add snapshot.total_cost result.cost)
      ]

  unfoldable pub converse :
      Supervisor F → Attempt F → Conversation F → Exec F (AttemptState F) (ExecutionResult F)
  converse s a (returns result) = pure result
  converse s a (raises e) = raise e
  converse s a (emits event k) = emit s a event >>= λ hints. converse s a (k hints)

  -- The body of the `try`.
  unfoldable pub run_harness :
      Supervisor F
      → Attempt F
      → Harness F
      → RunSnapshot F
      → Exec F (AttemptState F) (ExecutionResult F)
  run_harness s a h snapshot = do
    memories ← lift (load_memories s a.definition)
    converse s a (
        h.execute (record {
          run_id = a.run_id;
          attempt = a.attempt;
          goal = a.definition.goal;
          agent_bundle = a.definition.agent_bundle;
          hints = keep (λ hint. is_active hint a.attempt) snapshot.hints;
          memories = memories;
          timeout_seconds = a.definition.supervisor_policy.attempt_timeout_seconds;
          max_steps = a.definition.supervisor_policy.max_steps_per_attempt;
        }))

  unfoldable pub after_budget :
      Supervisor F
      → Attempt F
      → AttemptState F
      → ExecutionResult F
      → Option (Budget F)
      → Exec F (Table F) (Unit {0})
  after_budget s a st result (some b) = append s a.run_id (budget_events a.attempt b)
  after_budget s a st result none =
      evaluate s a.run_id a.definition a.attempt result.output st.observed_events

  unfoldable pub conclude :
      Supervisor F
      → Attempt F
      → RunSnapshot F
      → AttemptState F
      → Result F (ExecutionResult F)
      → Exec F (Table F) (Unit {0})
  conclude s a snapshot st (err e) = append s a.run_id (exception_events a.attempt e)
  conclude s a snapshot st (ok result) = do
    append s a.run_id (agent_execution_completed a.attempt result ∷ [])
    after_budget s a st result (exceeded_budget snapshot result)

  unfoldable pub attempt_with :
      Supervisor F → RunSnapshot F → Harness F → Exec F (Table F) (Unit {0})
  attempt_with s snapshot h t =
      let a : Attempt F = record {
        run_id = snapshot.run_id;
        attempt = snapshot.attempt + 1;
        definition = snapshot.definition;
        inline_delivery = h.inject_context;
      } in
      (append s a.run_id (run_started a.attempt ∷ []) >> λ t₁.
      let (result, st) = run_harness s a h snapshot (record {
        table = t₁;
        observed_events = [];
        published_hint_keys = map (λ x. x.deduplication_key) snapshot.hints;
        attempt_steps = 0;
      }) in
      conclude s a snapshot st result st.table)
        t

  unfoldable pub execute_attempt : Supervisor F → RunSnapshot F → Exec F (Table F) (Unit {0})
  execute_attempt s snapshot = elim (lookup snapshot.definition.harness_id s.harnesses) [
    | none ↦ raise key_error
    | some h ↦ attempt_with s snapshot h
  ]

  -- The `while True` loop, on fuel; `none` means that the fuel ran out.
  unfoldable pub run_until_blocked :
      Supervisor F → ℕ → ℕ → Table F → Option (Result F (RunSnapshot F)) × Table F
  run_until_blocked s zero run t = (none, t)
  run_until_blocked s (suc fuel) run t = elim (get_run run t).0 [
    | err e ↦ (some (err e), t)
    | ok snapshot ↦ elim (is_runnable snapshot.status) [
      | false ↦ (some (ok snapshot), t)
      | true ↦ elim (execute_attempt s snapshot t).0 [
        | err e ↦ (some (err e), (execute_attempt s snapshot t).1)
        | ok _ ↦ run_until_blocked s fuel run (execute_attempt s snapshot t).1
      ]
    ]
  ]
