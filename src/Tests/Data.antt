-- ===== src/Tests/Data.antt =====
-- A run with one harness and one grader, over fixed-point numbers in thousandths.
use loopgraph_supervisor.Prelude.{ℕ, pos, true, false, none, some, List, [], ◌∷◌, ◌++◌}
use loopgraph_supervisor.Floats.Fixed.{thousandths}
use loopgraph_supervisor.Domain.Json.{end, field, text}
use loopgraph_supervisor.Domain.Models.{AgentBundle, EvaluationResult, prompt_only}
use loopgraph_supervisor.Domain.Runs.{RunDefinition, RunStatus}
use loopgraph_supervisor.Domain.Events.{NewEvent, run_created}
use loopgraph_supervisor.Domain.Snapshot.{RunSnapshot}
use loopgraph_supervisor.Security.Redaction.{RedactionPolicy}
use loopgraph_supervisor.EventStore.{Table, version, stamp}
use loopgraph_supervisor.EventStore.Streams.{IsNumbered, IsNumbered-grown}
use loopgraph_supervisor.Engine.Exec.{ok}
use loopgraph_supervisor.Engine.Config.{Supervisor, returns}

abbrev pub demo_bundle : AgentBundle ℕ
demo_bundle = record {
  name = "solver";
  system_prompt = "Solve the task.";
  skills = [];
  mcp_servers = [];
  tool_policy = end;
  model_config_data = end;
  context_config = end;
  memory_config = end;
  workflow_config = end;
  evolution_scope = prompt_only;
}

abbrev pub demo_definition : RunDefinition ℕ
demo_definition = record {
  goal = "an answer";
  harness_id = "direct";
  agent_bundle = demo_bundle;
  agent_version_id = none;
  grader_ids = "exact" ∷ [];
  grading_policy = record {
    threshold = 800;
    grader_weights = [];
    required_constraints = "cited" ∷ [];
  };
  supervisor_policy = record {
    max_retries = 2;
    require_human_on_exhaustion = true;
    max_steps_per_attempt = 10;
    max_tokens = some 100;
    max_cost = none;
    attempt_timeout_seconds = 60000;
    max_subagents = 1;
    max_subagent_depth = 1;
  };
  parent_run_id = none;
  team_id = none;
  role = "worker";
  depth = 0;
  metadata = end;
}

abbrev pub demo_result : EvaluationResult ℕ
demo_result = record {
  grader_id = "exact";
  score = 900;
  passed = true;
  dimensions = [];
  hard_constraints = ("cited", true) ∷ [];
  confidence = 1000;
  evidence = [];
  feedback = [];
  retryable = true;
  suggested_action = none;
}

abbrev pub demo_redaction : RedactionPolicy
demo_redaction = record {
  rules = record {
    casefold = λ s. s;
    sub_bearer = λ replacement s. s;
    sub_key = λ replacement s. s;
  };
  sensitive_keys = "password" ∷ [];
  replacement = "[REDACTED]";
}

-- The harness answers at once; the grader accepts.
abbrev pub demo_supervisor : Supervisor ℕ
demo_supervisor = record {
  harnesses =
      (
        "direct",
        record {
          inject_context = false;
          execute = λ request. returns (record {
            session_id = "s";
            output = field "answer" (text request.goal) end;
            tokens = pos 12;
            cost = 1;
            artifacts = [];
            checkpoint = none;
          });
        },
      )
      ∷ [];
  graders = ("exact", record { id = "exact"; evaluate = λ context. ok demo_result }) ∷ [];
  advisor = none;
  observation_policy = record {
    after_tool_errors = none;
    every_model_calls = none;
    on_agent_complete = false;
    event_window = 20;
  };
  action_handler = none;
  redaction_policy = demo_redaction;
  memory_store = none;
  library = record {
    format_number = λ n. "n";
    format_score = λ x. "x";
    memory_policy = λ fields. some (record {
      enabled = false;
      include_experimental = false;
      kind = none;
      required_tags = [];
      limit = 5;
    });
  };
}

pub nothing-IsNumbered : IsNumbered {F = ℕ} []
nothing-IsNumbered = record { at_run = λ run. tt }

abbrev pub grown_by : Table ℕ → List (NewEvent ℕ) → Table ℕ
grown_by t events = t ++ stamp 7 (version t 7) events

abbrev pub started : Table ℕ
started = grown_by [] (run_created demo_definition ∷ [])

pub started-IsNumbered : IsNumbered started
started-IsNumbered = IsNumbered-grown [] 7 (run_created demo_definition ∷ []) nothing-IsNumbered

abbrev pub demo_snapshot : RunStatus → ℕ → RunSnapshot ℕ
demo_snapshot status sequence = record {
  run_id = 7;
  definition = demo_definition;
  status = status;
  version = sequence;
  attempt = 0;
  last_output = none;
  last_score = none;
  hints = [];
  human_override = false;
  error = none;
  total_steps = 0;
  total_tokens = pos 0;
  total_cost = 0;
}
