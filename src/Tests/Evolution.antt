-- ===== src/Tests/Evolution.antt =====
-- The theorems on the mutation and the promotion of a bundle.
use loopgraph_supervisor.Prelude.{ℕ, ◌-◌, ◌≡◌, ◌↔◌, refl, true, some, [], ◌∷◌}
use loopgraph_supervisor.Floats.Fixed.{thousandths}
use loopgraph_supervisor.Domain.Json.{Fields, end, field, text, dict, float}
use loopgraph_supervisor.Domain.Models.{AgentBundle}
use loopgraph_supervisor.Evolution.Mutator.{
  MutationPlan, mutated, apply, candidate_bundle, disallowed, changed_components, changes,
  allowed_components,
}
use loopgraph_supervisor.Evolution.Mutator.Dicts.{pop, update, deep_merge}
use loopgraph_supervisor.Evolution.Mutator.Scope.{IsWithin, apply-IsWithin}
use loopgraph_supervisor.Observer.{get}
use loopgraph_supervisor.Evolution.Mutator.Merge.{HasUniqueKeys, patched, get-deep_merge}
use loopgraph_supervisor.Evolution.Promotion.{PromotionEvidence, PromotionPolicy, evaluate}
use loopgraph_supervisor.Evolution.Promotion.Passing.{MeetsPolicy, evaluate-MeetsPolicy}
use loopgraph_supervisor.Tests.Data.{demo_bundle}

abbrev plan : MutationPlan ℕ
plan = record {
  rationale = "cite";
  system_prompt = some "Solve the task and cite.";
  skills_upsert = [];
  skills_remove = [];
  mcp_servers_upsert = [];
  mcp_servers_remove = [];
  tool_policy_patch = end;
  model_config_patch = end;
  context_patch = end;
  memory_patch = end;
  workflow_patch = end;
}

abbrev cited : AgentBundle ℕ
cited = record demo_bundle { system_prompt = "Solve the task and cite." }

plan-apply : apply (λ b. b.system_prompt) demo_bundle plan ≡ mutated cited
unfolding apply disallowed changed_components changes allowed_components candidate_bundle update pop
    deep_merge
plan-apply = refl

apply-IsWithin_example : IsWithin demo_bundle.evolution_scope demo_bundle cited
apply-IsWithin_example = apply-IsWithin (λ b. b.system_prompt) demo_bundle cited plan plan-apply

abbrev policy : PromotionPolicy ℕ
policy = record {
  minimum_candidate_score = 800;
  minimum_score_delta = 0;
  maximum_regressions = 0;
  maximum_cost_multiplier = some 2000;
}

abbrev evidence : PromotionEvidence ℕ
evidence = record {
  baseline_score = 850;
  candidate_score = 900;
  regressions = 0;
  hard_constraints = ("cited", true) ∷ [];
  benchmark_run_ids = 7 ∷ 8 ∷ [];
  baseline_cost = some 10;
  candidate_cost = some 11;
}

evaluate-MeetsPolicy_example :
    ((evaluate (λ a b. a - b) policy evidence).passed ≡ true)
    ↔ MeetsPolicy policy evidence (900 - 850)
evaluate-MeetsPolicy_example = evaluate-MeetsPolicy (λ a b. a - b) policy evidence

abbrev limits : Fields ℕ
limits = field "limits" (dict (field "steps" (float 10) end)) (field "mode" (text "fast") end)

abbrev patch : Fields ℕ
patch = field "limits" (dict (field "calls" (float 5) end)) end

patch-HasUniqueKeys : HasUniqueKeys patch
unfolding HasUniqueKeys get
patch-HasUniqueKeys = (refl, tt)

get-deep_merge_example :
    get "limits" (deep_merge limits patch) ≡ patched (get "limits" limits) (get "limits" patch)
get-deep_merge_example = get-deep_merge limits patch "limits" patch-HasUniqueKeys
