-- ===== src/Evolution/Promotion.antt =====
-- src/loopgraph_supervisor/evolution/promotion.py. A reason is a constructor with the values that its
-- text is made of.
pub mod Passing
use loopgraph_supervisor.Prelude.{
  ℕ, ltb, Bool, true, false, not, String, Option, none, some, List, [], ◌∷◌, ◌++◌, map, keep,
  is_empty, if◌then◌else◌,
}
use loopgraph_supervisor.Floats.{Floats, flt}

pub record PromotionEvidence (F : Type 0) : Type 0 where
  pub baseline_score : F
  pub candidate_score : F
  pub regressions : ℕ
  pub hard_constraints : List (String × Bool)
  pub benchmark_run_ids : List ℕ
  pub baseline_cost : Option F
  pub candidate_cost : Option F

pub data Reason (F : Type 0) : Type 0 where
  below_minimum : (candidate_score minimum : F) → Reason F
  delta_below_minimum : (delta minimum : F) → Reason F
  too_many_regressions : (regressions maximum : ℕ) → Reason F
  hard_constraint_failed : (name : String) → Reason F
  cost_exceeded : (multiplier : F) → Reason F

pub record PromotionDecision (F : Type 0) : Type 0 where
  pub passed : Bool
  pub score_delta : F
  pub reasons : List (Reason F)

pub record PromotionPolicy (F : Type 0) : Type 0 where
  pub minimum_candidate_score : F
  pub minimum_score_delta : F
  pub maximum_regressions : ℕ
  pub maximum_cost_multiplier : Option F

module _ {F : Type 0} ⦃fl : Floats F⦄ where
  -- The condition on the costs, and its reason.
  unfoldable pub cost_reason : Option F → Option F → Option F → List (Reason F)
  cost_reason none baseline candidate = []
  cost_reason (some m) none candidate = []
  cost_reason (some m) (some baseline) none = []
  cost_reason (some m) (some baseline) (some candidate) =
      if flt fl.zero baseline
      then if flt (fl.mul baseline m) candidate then cost_exceeded m ∷ [] else []
      else []

  -- The list `reasons` of a score difference `delta`.
  unfoldable pub reasons_for :
      PromotionPolicy F → PromotionEvidence F → (delta : F) → List (Reason F)
  unfolding cost_reason
  reasons_for policy evidence delta =
      (if flt evidence.candidate_score policy.minimum_candidate_score
        then below_minimum evidence.candidate_score policy.minimum_candidate_score ∷ []
        else [])
      ++ (if flt delta policy.minimum_score_delta
          then delta_below_minimum delta policy.minimum_score_delta ∷ []
          else [])
      ++ (if ltb policy.maximum_regressions evidence.regressions
          then too_many_regressions evidence.regressions policy.maximum_regressions ∷ []
          else [])
      ++ map (λ c. hard_constraint_failed c.0) (keep (λ c. not c.1) evidence.hard_constraints)
      ++ cost_reason policy.maximum_cost_multiplier evidence.baseline_cost evidence.candidate_cost

  -- `PromotionPolicy.evaluate`; `round(a - b, 12)` is a parameter.
  unfoldable pub evaluate :
      (F → F → F) → PromotionPolicy F → PromotionEvidence F → PromotionDecision F
  unfolding reasons_for
  evaluate rounded_difference policy evidence =
      let delta = rounded_difference evidence.candidate_score evidence.baseline_score in
      let reasons = reasons_for policy evidence delta in
      record { passed = is_empty reasons; score_delta = delta; reasons = reasons }
