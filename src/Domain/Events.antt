-- ===== src/Domain/Events.antt =====
-- src/loopgraph_supervisor/domain/events.py. An event's `type` and `data` are one constructor: the
-- type string with its dots as underscores, and the part of the data that the program builds from
-- values. Random ids and time stamps are left out.
use loopgraph_supervisor.Prelude.{ℕ, ℤ, Bool, String, Option, List}
use loopgraph_supervisor.Domain.Models.{Hint}
use loopgraph_supervisor.Domain.Directives.{
  HarnessEvent, ExecutionResult, SupervisorDirective, SupervisorDirectiveAction,
}
use loopgraph_supervisor.Domain.Runs.{RunDefinition, RunStatus}

-- `{"type": type(error).__name__, "message": …}`: of the two the type is kept.
pub record ErrorRecord : Type 0 where
  pub type : String

-- The budget that ran out, with what was observed and the limit.
pub data Budget (F : Type 0) : Type 0 where
  steps : ℕ → ℕ → Budget F
  tokens : ℤ → ℕ → Budget F
  cost : F → F → Budget F

pub data HumanDecision : Type 0 where
  approve reject retry : HumanDecision

pub record TeamMember : Type 0 where
  pub run_id : ℕ
  pub role : String
  pub goal : String
  pub status : String

-- A decision as it is stored: of each result the hard constraints, which are read back. `none` is
-- a value that redaction has replaced by a text.
pub record StoredDecision (F : Type 0) : Type 0 where
  pub score : F
  pub passed : Bool
  pub failed_constraints : List String
  pub hard_constraints : List (List (String × Option Bool))

pub data EventData (F : Type 0) : Type 0 where
  run_created : RunDefinition F → EventData F
  -- a `run.created` whose stored definition no longer passes the model's validation
  run_created_invalid : EventData F
  run_started : (attempt : ℕ) → EventData F
  agent_event : HarnessEvent F → EventData F
  agent_execution_completed : (attempt : ℕ) → ExecutionResult F → EventData F
  agent_execution_failed : (attempt : ℕ) → ErrorRecord → EventData F
  evaluation_started : (attempt : ℕ) → EventData F
  evaluation_completed : StoredDecision F → EventData F
  grader_failed : (grader_id : String) → ErrorRecord → EventData F
  hint_published : Hint → EventData F
  supervisor_reviewed : SupervisorDirective F → EventData F
  supervisor_action_requested : SupervisorDirective F → EventData F
  supervisor_action_completed : SupervisorDirectiveAction → EventData F
  supervisor_action_failed : SupervisorDirectiveAction → ErrorRecord → EventData F
  budget_exhausted : (attempt : ℕ) → Budget F → EventData F
  run_retry_scheduled : (next_attempt : ℕ) → EventData F
  run_waiting_human : (reason : String) → EventData F
  run_pause_requested : (actor reason : String) → (from_status : RunStatus) → EventData F
  run_paused : (reason : String) → EventData F
  run_resumed : (actor reason : String) → (next_attempt : ℕ) → EventData F
  run_recovered : (actor : String) → (from_status : RunStatus) → (prior_attempt : ℕ) → EventData F
  run_succeeded : (human_override : Bool) → EventData F
  run_failed : (reason : String) → EventData F
  run_cancelled : EventData F
  run_internal_failed : ErrorRecord → EventData F
  hitl_resolved : HumanDecision → (actor reason : String) → EventData F
  team_created : (team_id : ℕ) → (actor : String) → EventData F
  team_member_spawn_requested : (child_run_id : ℕ) → (role goal actor : String) → EventData F
  team_member_spawn_failed : (child_run_id : ℕ) → ErrorRecord → EventData F
  team_member_spawned : TeamMember → (actor : String) → EventData F
  team_member_completed : (run_id : ℕ) → EventData F
  team_member_failed : (run_id : ℕ) → EventData F

-- An event that has no sequence yet, and a fact committed to one run's stream.
abbrev pub NewEvent : Type 0 → Type 0
NewEvent F = EventData F

pub record StoredEvent (F : Type 0) : Type 0 where
  pub run_id : ℕ
  pub sequence : ℕ
  pub event : EventData F
