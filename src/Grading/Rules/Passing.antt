-- ===== src/Grading/Rules/Passing.antt =====
-- The results of `RuleGrader.evaluate` of src/loopgraph_supervisor/grading/rules.py: when they pass.
use loopgraph_supervisor.Prelude.{true, not, ◌≡◌, ◌↔◌, All}
use loopgraph_supervisor.Floats.{Floats, fle, is_unit}
use loopgraph_supervisor.Domain.Json.{Fields}
use loopgraph_supervisor.Domain.Models.{EvaluationResult}
use loopgraph_supervisor.Engine.Exec.{ok}
use loopgraph_supervisor.Grading.Rules.{RuleGrader, OperatorCalls, rule_passes}

-- What a result says of the rules: it passes exactly if the score reaches the threshold and each hard
-- constraint is met; it asks for a retry exactly if it does not pass.
pub record IsGraded {F : Type 0} ⦃fl : Floats F⦄ (calls : OperatorCalls F) (grader : RuleGrader F)
    (output : Fields F) (r : EvaluationResult F) : Type 0 where
  pub score_unit : is_unit r.score ≡ true
  pub passes : (r.passed ≡ true) ↔ (
      (fle grader.threshold r.score ≡ true)
      × All
          (λ rule. rule.hard_constraint ≡ true → rule_passes calls output rule ≡ ok true)
          grader.rules)
  pub retry : r.retryable ≡ not r.passed
