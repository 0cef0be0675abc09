-- ===== src/Domain/Runs.antt =====
-- src/loopgraph_supervisor/domain/runs.py: the definition of a run and its status. The fields of
-- `GradingPolicy` are those of src/loopgraph_supervisor/grading/policy.py.
use loopgraph_supervisor.Prelude.{
  ℕ, Bool, true, not, ◌&&◌, leb, String, text_length, Option, List, [], ◌∷◌, contains, is_empty,
}
use loopgraph_supervisor.Domain.Json.{Fields}
use loopgraph_supervisor.Domain.Models.{AgentBundle, bundle_fits, has_length}

pub data RunStatus : Type 0 where
  created running evaluating retry_scheduled waiting_human : RunStatus
  paused succeeded failed cancelled : RunStatus

pub record SupervisorPolicy (F : Type 0) : Type 0 where
  pub max_retries : ℕ
  pub require_human_on_exhaustion : Bool
  pub max_steps_per_attempt : ℕ
  pub max_tokens : Option ℕ
  pub max_cost : Option F
  pub attempt_timeout_seconds : F
  pub max_subagents : ℕ
  pub max_subagent_depth : ℕ

pub record GradingPolicy (F : Type 0) : Type 0 where
  pub threshold : F
  pub grader_weights : List (String × F)
  pub required_constraints : List String

pub record RunDefinition (F : Type 0) : Type 0 where
  pub goal : String
  pub harness_id : String
  pub agent_bundle : AgentBundle F
  pub agent_version_id : Option ℕ
  pub grader_ids : List String
  pub grading_policy : GradingPolicy F
  pub supervisor_policy : SupervisorPolicy F
  pub parent_run_id : Option ℕ
  pub team_id : Option ℕ
  pub role : String
  pub depth : ℕ
  pub metadata : Fields F

-- The bounds of a definition's text fields.
unfoldable pub texts_fit : {F : Type 0} → RunDefinition F → Bool
unfolding bundle_fits
texts_fit d =
    leb 1 (text_length d.goal)
    && has_length 128 d.harness_id
    && bundle_fits d.agent_bundle
    && has_length 128 d.role

-- `len(set(ids)) == len(ids)`
unfoldable pub unique : List String → Bool
unique [] = true
unique (x ∷ xs) = not (contains x xs) && unique xs

-- The validator of `RunDefinition`: whether it accepts.
unfoldable pub require_graders : List String → Bool
unfolding unique
require_graders ids = not (is_empty ids) && unique ids
