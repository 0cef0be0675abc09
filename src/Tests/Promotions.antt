-- ===== src/Tests/Promotions.antt =====
-- The theorem on the promotion route, at one pair of benchmark runs.
use loopgraph_supervisor.EventStore
use loopgraph_supervisor.Prelude.{ℕ, ◌-◌, true, false, some, List, [], ◌∷◌, ◌++◌}
use loopgraph_supervisor.Floats.Fixed.{thousandths}
use loopgraph_supervisor.Domain.Json.{end}
use loopgraph_supervisor.Domain.Models.{AgentBundle}
use loopgraph_supervisor.Domain.Events.{
  NewEvent, run_created, run_started, evaluation_completed, run_succeeded,
}
use loopgraph_supervisor.EventStore.{Table, stamp}
use loopgraph_supervisor.Versions.{create_initial, create_candidate}
use loopgraph_supervisor.Versions.Tables.{AgentVersion, active}
use loopgraph_supervisor.Versions.Records.{VersionCalls}
use loopgraph_supervisor.Evolution.Promotion.{PromotionPolicy}
use loopgraph_supervisor.Runtime.{Runtime}
use loopgraph_supervisor.Api.Promotion.{PromotionCalls, PromotionRequest, promote_version}
use loopgraph_supervisor.Tests.Data.{demo_bundle, demo_definition}

abbrev cited : AgentBundle ℕ
cited = record demo_bundle { system_prompt = "Solve the task and cite." }

abbrev version_calls : ℕ → VersionCalls ℕ
version_calls id = record { new_id = id; fingerprint = λ bundle. bundle.system_prompt }

-- A run of a version that has succeeded with a score.
abbrev benchmark : ℕ → ℕ → List (NewEvent ℕ)
benchmark version_id score =
    run_created (record demo_definition { agent_version_id = some version_id })
    ∷ run_started 1
    ∷ evaluation_completed (record {
      score = score;
      passed = true;
      failed_constraints = [];
      hard_constraints = (("cited", some true) ∷ []) ∷ [];
    })
    ∷ run_succeeded false
    ∷ []

abbrev service : Runtime ℕ
service = record {
  table = stamp 21 0 (benchmark 11 850) ++ stamp 22 0 (benchmark 12 900);
  versions =
      (create_candidate (version_calls 12) 11 cited "ada" "cite"
        (create_initial (version_calls 11) demo_bundle "ada" true
          (record { versions = []; pointers = []; history = [] })).1).1;
  memories = [];
  tasks = record { max_concurrency = 1; value = 1; tasks = []; errors = [] };
}

abbrev first : List ℕ → ℕ
first [] = 0
first (x ∷ xs) = x

-- One run on each side, so the mean is the first value.
abbrev calls : PromotionCalls ℕ
calls = record {
  fmean = first;
  rounded_difference = λ a b. a - b;
  same_policy = λ p q. true;
  summary = λ evidence decision. end;
  replacement = "[REDACTED]";
}

abbrev policy : PromotionPolicy ℕ
policy = record {
  minimum_candidate_score = 800;
  minimum_score_delta = 0;
  maximum_regressions = 0;
  maximum_cost_multiplier = some 2000;
}

abbrev request : PromotionRequest
request = record {
  expected_active_id = some 11;
  actor = "ada";
  reason = "better";
  baseline_run_ids = 21 ∷ [];
  candidate_run_ids = 22 ∷ [];
}

abbrev after : Runtime ℕ
after = (promote_version calls policy "solver" 12 request service).1

abbrev released : AgentVersion ℕ
released = record {
  id = 12;
  agent_name = "solver";
  version = 2;
  parent_id = some 11;
  bundle = cited;
  fingerprint = cited.system_prompt;
  status = active;
  created_by = "ada";
  change_summary = "cite";
  evaluation_summary = end;
}
