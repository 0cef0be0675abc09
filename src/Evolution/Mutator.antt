-- ===== src/Evolution/Mutator.antt =====
-- src/loopgraph_supervisor/evolution/mutator.py
pub mod Dicts
pub mod Merge
pub mod Scope
use loopgraph_supervisor.Prelude.{
  Bool, true, false, not, ◌&&◌, ◌||◌, String, str_eq, Option, none, some, List, [], ◌∷◌, ◌++◌, map,
  keep, any, contains, is_empty, is_missing, if◌then◌else◌,
}
use loopgraph_supervisor.Domain.Json.{Fields, end, field}
use loopgraph_supervisor.Domain.Models.{
  AgentBundle, EvolutionScope, hint_only, prompt_only, prompt_and_skills, full_agent_bundle,
}
use loopgraph_supervisor.Evolution.Mutator.Dicts.{pop, update, deep_merge}

pub record MutationPlan (F : Type 0) : Type 0 where
  pub rationale : String
  pub system_prompt : Option String
  pub skills_upsert : List (String × String)
  pub skills_remove : List String
  pub mcp_servers_upsert : List (String × Fields F)
  pub mcp_servers_remove : List String
  pub tool_policy_patch : Fields F
  pub model_config_patch : Fields F
  pub context_patch : Fields F
  pub memory_patch : Fields F
  pub workflow_patch : Fields F

-- What `apply` returns or raises: `MutationNotAllowedError`, with the components that the scope does
-- not allow, and `NoMutationError`.
pub data Mutation (F : Type 0) : Type 0 where
  mutated : AgentBundle F → Mutation F
  not_allowed : (components : List String) → Mutation F
  no_mutation : Mutation F

-- `_allowed_components[scope]`
unfoldable pub allowed_components : EvolutionScope → List String
allowed_components hint_only = []
allowed_components prompt_only = "system_prompt" ∷ []
allowed_components prompt_and_skills = "system_prompt" ∷ "skills" ∷ []
allowed_components full_agent_bundle =
    "system_prompt" ∷ "skills" ∷ "mcp_servers" ∷ "tool_policy" ∷ "model_config" ∷ "context_config"
    ∷ "memory_config" ∷ "workflow_config" ∷ []

-- `plan.system_prompt or parent.system_prompt`
abbrev pub prompt_or : Option String → String → String
prompt_or none old = old
prompt_or (some new) old = if str_eq new "" then old else new

module _ {F : Type 0} where
  -- The truth value of a dict.
  abbrev pub has_fields : Fields F → Bool
  has_fields end = false
  has_fields (field key value rest) = true

  -- Each component, with whether the plan changes it, in the order of `changed_components`.
  unfoldable pub changes : MutationPlan F → List (String × Bool)
  changes plan =
      ("system_prompt", not (is_missing plan.system_prompt))
      ∷ ("skills", not (is_empty plan.skills_upsert) || not (is_empty plan.skills_remove))
      ∷ (
        "mcp_servers",
        not (is_empty plan.mcp_servers_upsert) || not (is_empty plan.mcp_servers_remove),
      )
      ∷ ("tool_policy", has_fields plan.tool_policy_patch)
      ∷ ("model_config", has_fields plan.model_config_patch)
      ∷ ("context_config", has_fields plan.context_patch)
      ∷ ("memory_config", has_fields plan.memory_patch)
      ∷ ("workflow_config", has_fields plan.workflow_patch)
      ∷ []

  unfoldable pub changed_components : MutationPlan F → List String
  unfolding changes
  changed_components plan = map (λ c. c.0) (keep (λ c. c.1) (changes plan))

  -- The validator of a plan: whether it accepts.
  unfoldable pub require_change : MutationPlan F → Bool
  require_change plan =
      not (is_missing plan.system_prompt)
      || not (is_empty plan.skills_upsert)
      || not (is_empty plan.skills_remove)
      || not (is_empty plan.mcp_servers_upsert)
      || not (is_empty plan.mcp_servers_remove)
      || has_fields plan.tool_policy_patch
      || has_fields plan.model_config_patch
      || has_fields plan.context_patch
      || has_fields plan.memory_patch
      || has_fields plan.workflow_patch

  -- `parent.model_copy(update={…})`
  unfoldable pub candidate_bundle : AgentBundle F → MutationPlan F → AgentBundle F
  unfolding pop update deep_merge
  candidate_bundle parent plan = record parent {
    system_prompt = prompt_or plan.system_prompt parent.system_prompt;
    skills = update (pop plan.skills_remove parent.skills) plan.skills_upsert;
    mcp_servers = update (pop plan.mcp_servers_remove parent.mcp_servers) plan.mcp_servers_upsert;
    tool_policy = deep_merge parent.tool_policy plan.tool_policy_patch;
    model_config_data = deep_merge parent.model_config_data plan.model_config_patch;
    context_config = deep_merge parent.context_config plan.context_patch;
    memory_config = deep_merge parent.memory_config plan.memory_patch;
    workflow_config = deep_merge parent.workflow_config plan.workflow_patch;
  }

  -- `set(plan.changed_components()).difference(…)`
  unfoldable pub disallowed : AgentBundle F → MutationPlan F → List String
  disallowed parent plan =
      keep (λ c. not (contains c (allowed_components parent.evolution_scope)))
        (changed_components plan)

  -- `BundleMutator.apply`; the hash of a bundle is a parameter.
  unfoldable pub apply : (AgentBundle F → String) → AgentBundle F → MutationPlan F → Mutation F
  unfolding disallowed candidate_bundle
  apply fingerprint parent plan =
      if not (is_empty (disallowed parent plan))
      then not_allowed (disallowed parent plan)
      else if str_eq (fingerprint (candidate_bundle parent plan)) (fingerprint parent)
      then no_mutation
      else mutated (candidate_bundle parent plan)
