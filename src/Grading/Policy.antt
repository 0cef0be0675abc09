-- ===== src/Grading/Policy.antt =====
-- `GradingPolicy.aggregate` of src/loopgraph_supervisor/grading/policy.py
pub mod Laws
use loopgraph_supervisor.Prelude.{
  Bool, true, false, not, ◌&&◌, ◌||◌, String, Option, none, some, List, [], ◌∷◌, map, any, all,
  keep, is_empty, lookup, if◌then◌else◌,
}
use loopgraph_supervisor.Floats.{Floats, flt, fle, is_unit}
use loopgraph_supervisor.Domain.Models.{EvaluationResult}
use loopgraph_supervisor.Domain.Runs.{GradingPolicy}

pub record GradingDecision (F : Type 0) : Type 0 where
  pub score : F
  pub passed : Bool
  pub failed_constraints : List String
  pub results : List (EvaluationResult F)

-- The two `ValueError`s, and the validation of the decision's score.
pub data Aggregated (F : Type 0) : Type 0 where
  decided : GradingDecision F → Aggregated F
  no_results bad_weights invalid_score : Aggregated F

module _ {F : Type 0} where
  -- `[result.hard_constraints[constraint] for result in results if constraint in …]`
  unfoldable pub reported : String → List (EvaluationResult F) → List Bool
  reported c [] = []
  reported c (r ∷ rs) =
      let rest = reported c rs in
      elim (lookup c r.hard_constraints) [ none ↦ rest | some passed ↦ passed ∷ rest ]

  unfoldable pub constraint_passed : String → List (EvaluationResult F) → Bool
  unfolding reported
  constraint_passed c results =
      not (is_empty (reported c results)) && all (λ b. b) (reported c results)

module _ {F : Type 0} ⦃fl : Floats F⦄ where
  -- `self.grader_weights.get(result.grader_id, 1.0)`
  unfoldable pub weight : GradingPolicy F → EvaluationResult F → F
  weight p r = elim (lookup r.grader_id p.grader_weights) [ none ↦ fl.one | some w ↦ w ]

  unfoldable pub weighted_score : GradingPolicy F → List (EvaluationResult F) → F
  weighted_score p results =
      fl.div (fl.sum (map (λ r. fl.mul r.score (weight p r)) results))
        (fl.sum (map (weight p) results))

  unfoldable pub weights_refused : GradingPolicy F → List (EvaluationResult F) → Bool
  weights_refused p results =
      any (λ w. flt w fl.zero) (map (weight p) results)
      || fle (fl.sum (map (weight p) results)) fl.zero

  unfoldable pub decide_results : GradingPolicy F → List (EvaluationResult F) → GradingDecision F
  decide_results p results =
      let score = weighted_score p results in
      let failed = keep (λ c. not (constraint_passed c results)) p.required_constraints in
      record {
        score = score;
        passed = fle p.threshold score && is_empty failed;
        failed_constraints = failed;
        results = results;
      }

  unfoldable pub aggregate : GradingPolicy F → List (EvaluationResult F) → Aggregated F
  aggregate p [] = no_results
  aggregate p (r ∷ rs) =
      if weights_refused p (r ∷ rs)
      then bad_weights
      else if is_unit (weighted_score p (r ∷ rs))
      then decided (decide_results p (r ∷ rs))
      else invalid_score
