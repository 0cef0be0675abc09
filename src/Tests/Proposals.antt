-- ===== src/Tests/Proposals.antt =====
-- The theorems on the actions of a Supervisor Agent.
use loopgraph_supervisor.Evolution.Mutator.{allowed_components}
use loopgraph_supervisor.Evolution.Mutator.{changed_components}
use loopgraph_supervisor.Prelude.{ℕ, ◌≡◌, refl, true, none, some, []}
use loopgraph_supervisor.Floats.Fixed.{thousandths}
use loopgraph_supervisor.Domain.Json.{end, field, null}
use loopgraph_supervisor.Domain.Directives.{
  SupervisorDirective, ObservationContext, propose_mutation,
}
use loopgraph_supervisor.Engine.Exec.{ok}
use loopgraph_supervisor.Engine.Emit.Quiet.{HandlerIsQuiet}
use loopgraph_supervisor.Versions.{create_initial}
use loopgraph_supervisor.Evolution.Mutator.{MutationPlan}
use loopgraph_supervisor.Runtime.{Runtime}
use loopgraph_supervisor.Actions.{ActionCalls, ActionOutcome, handle}
use loopgraph_supervisor.Actions.Quiet.{SameActive, router, handle-SameActive, router-IsQuiet}
use loopgraph_supervisor.Actions.Proposals.{IsProposed, handle-IsProposed}
use loopgraph_supervisor.Tests.Data
use loopgraph_supervisor.Tests.Data.{demo_bundle, demo_supervisor}

abbrev cite : MutationPlan ℕ
cite = record {
  rationale = "cite";
  system_prompt = some "Solve the task and cite.";
  skills_upsert = [];
  skills_remove = [];
  mcp_servers_upsert = [];
  mcp_servers_remove = [];
  tool_policy_patch = end;
  model_config_patch = end;
  context_patch = end;
  memory_patch = end;
  workflow_patch = end;
}

-- Every payload is this plan, or this child.
abbrev calls : ActionCalls ℕ
calls = record {
  child_spec = λ payload. some (record {
    role = "helper";
    goal = "a source";
    harness_id = none;
    agent_bundle = none;
    grader_ids = none;
    metadata = [];
  });
  mutation_plan = λ payload. some cite;
  parse_id = λ payload. none;
  team = record { team_id = 3; child_id = 8; within_limits = λ d. true };
  versions = record { new_id = 12; fingerprint = λ bundle. bundle.system_prompt };
}

abbrev service : Runtime ℕ
service = record {
  table = Data.started;
  versions =
      (create_initial (record { new_id = 11; fingerprint = λ bundle. bundle.system_prompt })
        demo_bundle "ada" true (record { versions = []; pointers = []; history = [] })).1;
  memories = [];
  tasks = record { max_concurrency = 1; value = 1; tasks = []; errors = [] };
}

abbrev observed : ObservationContext ℕ
observed = record {
  run_id = 7;
  attempt = 1;
  goal = "an answer";
  agent_bundle = demo_bundle;
  agent_version_id = some 11;
  recent_events = [];
}

abbrev proposal : SupervisorDirective ℕ
proposal = record {
  action = propose_mutation;
  rationale = "no citation";
  hints = [];
  payload = field "plan" null end;
}

handle-SameActive_example :
    SameActive service.versions (handle demo_supervisor calls observed proposal service).1.versions
handle-SameActive_example = handle-SameActive demo_supervisor calls observed proposal service

router-IsQuiet_example : HandlerIsQuiet 7 (some (router demo_supervisor calls service))
router-IsQuiet_example = router-IsQuiet demo_supervisor calls service 7 refl

abbrev outcome : ActionOutcome
outcome = record { action = propose_mutation; child_run_id = none; candidate_version_id = some 12 }

abbrev proposed : Runtime ℕ
proposed = (handle demo_supervisor calls observed proposal service).1

proposal-handle : handle demo_supervisor calls observed proposal service ≡ (ok outcome, proposed)
unfolding handle create_initial changed_components allowed_components
proposal-handle = refl

handle-IsProposed_example :
    (parent_id : ℕ) × (observed.agent_version_id ≡ some parent_id)
    × IsProposed calls observed parent_id service proposed outcome
handle-IsProposed_example =
    handle-IsProposed calls observed demo_supervisor proposal service proposed outcome refl
      proposal-handle
