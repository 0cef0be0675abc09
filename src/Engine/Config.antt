-- ===== src/Engine/Config.antt =====
-- What a `SupervisorEngine` is built from: the registries of harnesses and graders, the optional
-- advisor, action handler and memory store, and the policies. Harnesses, graders, advisors and
-- handlers are protocols of the source; their implementations are functions here.
use loopgraph_supervisor.Prelude.{ℕ, Bool, String, Option, List}
use loopgraph_supervisor.Domain.Json.{Fields}
use loopgraph_supervisor.Domain.Models.{AgentBundle, EvaluationResult, Hint}
use loopgraph_supervisor.Domain.Directives.{
  HarnessEvent, ExecutionResult, SupervisorDirective, ObservationContext,
}
use loopgraph_supervisor.EventStore.{Table}
use loopgraph_supervisor.Memory.{Memories, MemoryRecord, MemoryContextPolicy}
use loopgraph_supervisor.Observer.{ObservationPolicy}
use loopgraph_supervisor.Security.Redaction.{RedactionPolicy}
use loopgraph_supervisor.Engine.Exec.{Exception, Result, Exec}

-- The `execution_id` is made of the run and the attempt, and is left out.
pub record ExecutionRequest (F : Type 0) : Type 0 where
  pub run_id : ℕ
  pub attempt : ℕ
  pub goal : String
  pub agent_bundle : AgentBundle F
  pub hints : List Hint
  pub memories : List (MemoryRecord F)
  pub timeout_seconds : F
  pub max_steps : ℕ

-- One call of a harness: it emits events, may use the hints that the sink returns, and ends with a
-- result or an exception, a timeout of `asyncio.wait_for` included. An exception of the sink ends it.
pub data Conversation (F : Type 0) : Type 0 where
  returns : ExecutionResult F → Conversation F
  raises : Exception F → Conversation F
  emits : HarnessEvent F → (List Hint → Conversation F) → Conversation F

pub record Harness (F : Type 0) : Type 0 where
  pub inject_context : Bool
  pub execute : ExecutionRequest F → Conversation F

pub record EvaluationContext (F : Type 0) : Type 0 where
  pub run_id : ℕ
  pub attempt : ℕ
  pub goal : String
  pub output : Fields F
  pub trajectory : List (HarnessEvent F)

pub record Grader (F : Type 0) : Type 0 where
  pub id : String
  pub evaluate : EvaluationContext F → Result F (EvaluationResult F)

-- Python's formatting of numbers, and the validation of a bundle's `memory_config`.
pub record Library (F : Type 0) : Type 0 where
  pub format_number : ℕ → String
  pub format_score : F → String
  pub memory_policy : Fields F → Option MemoryContextPolicy

abbrev pub Handler : Type 0 → Type 0
Handler F = ObservationContext F → SupervisorDirective F → Exec F (Table F) (Unit {0})

pub record Supervisor (F : Type 0) : Type 0 where
  pub harnesses : List (String × Harness F)
  pub graders : List (String × Grader F)
  pub advisor : Option (ObservationContext F → Result F (SupervisorDirective F))
  pub observation_policy : ObservationPolicy
  pub action_handler : Option (Handler F)
  pub redaction_policy : RedactionPolicy
  pub memory_store : Option (Memories F)
  pub library : Library F
