-- ===== src/Domain/Directives.antt =====
-- What a harness emits and returns (src/loopgraph_supervisor/harness/base.py), and what a
-- Supervisor Agent answers (src/loopgraph_supervisor/application/observer.py).
use loopgraph_supervisor.Prelude.{ℕ, ℤ, String, Option, List}
use loopgraph_supervisor.Domain.Json.{Fields}
use loopgraph_supervisor.Domain.Models.{AgentBundle, HintPriority}

-- The time stamp of an event is read nowhere in the engine and is left out.
pub record HarnessEvent (F : Type 0) : Type 0 where
  pub type : String
  pub content : Fields F

-- Of the dict `usage` the engine and the replay read `int(usage.get("tokens", 0))` and
-- `float(usage.get("cost", 0.0))`: these two numbers stand for it.
pub record ExecutionResult (F : Type 0) : Type 0 where
  pub session_id : String
  pub output : Fields F
  pub tokens : ℤ
  pub cost : F
  pub artifacts : List (String × String)
  pub checkpoint : Option String

pub data SupervisorDirectiveAction : Type 0 where
  continue inject_hint pause request_human : SupervisorDirectiveAction
  spawn_subagent propose_mutation abort : SupervisorDirectiveAction

pub record HintDraft : Type 0 where
  pub target : String
  pub priority : HintPriority
  pub instruction : String
  pub reason : String
  pub evidence : List String
  pub expires_after_steps : ℕ
  pub deduplication_key : String

pub record SupervisorDirective (F : Type 0) : Type 0 where
  pub action : SupervisorDirectiveAction
  pub rationale : String
  pub hints : List HintDraft
  pub payload : Fields F

pub record ObservationContext (F : Type 0) : Type 0 where
  pub run_id : ℕ
  pub attempt : ℕ
  pub goal : String
  pub agent_bundle : AgentBundle F
  pub agent_version_id : Option ℕ
  pub recent_events : List (HarnessEvent F)
