-- ===== src/Domain/Models.antt =====
-- src/loopgraph_supervisor/domain/models.py
use loopgraph_supervisor.Prelude.{ℕ, ◌+◌, Bool, ◌&&◌, String, text_length, Option, List, ltb, leb}
use loopgraph_supervisor.Domain.Json.{Fields}

pub data EvolutionScope : Type 0 where
  hint_only prompt_only prompt_and_skills full_agent_bundle : EvolutionScope

pub data HintPriority : Type 0 where
  info warning critical : HintPriority

-- `model_config_data` is the field that is dumped as `model_config`.
pub record AgentBundle (F : Type 0) : Type 0 where
  pub name : String
  pub system_prompt : String
  pub skills : List (String × String)
  pub mcp_servers : List (String × Fields F)
  pub tool_policy : Fields F
  pub model_config_data : Fields F
  pub context_config : Fields F
  pub memory_config : Fields F
  pub workflow_config : Fields F
  pub evolution_scope : EvolutionScope

pub record EvaluationResult (F : Type 0) : Type 0 where
  pub grader_id : String
  pub score : F
  pub passed : Bool
  pub dimensions : List (String × F)
  pub hard_constraints : List (String × Bool)
  pub confidence : F
  pub evidence : List String
  pub feedback : List String
  pub retryable : Bool
  pub suggested_action : Option String

-- The random `id` of a hint is read nowhere and is left out.
pub record Hint : Type 0 where
  pub run_id : ℕ
  pub target : String
  pub priority : HintPriority
  pub instruction : String
  pub reason : String
  pub evidence : List String
  pub created_at_step : ℕ
  pub expires_after_steps : ℕ
  pub deduplication_key : String

-- `min_length` and `max_length` of a text field.
abbrev pub has_length : ℕ → String → Bool
has_length max_length value = leb 1 (text_length value) && leb (text_length value) max_length

-- The field bounds of `AgentBundle`, and those of `Hint`.
unfoldable pub bundle_fits : {F : Type 0} → AgentBundle F → Bool
bundle_fits bundle = has_length 128 bundle.name && leb 1 (text_length bundle.system_prompt)

unfoldable pub hint_fits : Hint → Bool
hint_fits hint =
    has_length 128 hint.target
    && leb 1 (text_length hint.instruction)
    && leb 1 (text_length hint.reason)
    && leb 1 hint.expires_after_steps
    && has_length 256 hint.deduplication_key

unfoldable pub is_active : Hint → ℕ → Bool
is_active hint current_step =
    leb hint.created_at_step current_step
    && ltb current_step (hint.created_at_step + hint.expires_after_steps)
