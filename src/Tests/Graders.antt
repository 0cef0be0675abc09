-- ===== src/Tests/Graders.antt =====
-- The theorem on rule graders.
use loopgraph_supervisor.Prelude.{ℕ, ◌≡◌, refl, true, false, none, some, [], List, ◌∷◌}
use loopgraph_supervisor.Floats.Fixed.{thousandths}
use loopgraph_supervisor.Domain.Json.{Fields, end, field, text, null}
use loopgraph_supervisor.Domain.Models.{EvaluationResult}
use loopgraph_supervisor.Engine.Exec.{ok, err, value_error}
use loopgraph_supervisor.Grading.Rules.{
  OutputRule, RuleGrader, OperatorCalls, exists, equals, evaluate,
}

-- A path is one segment, and no two values are equal.
abbrev calls : OperatorCalls ℕ
calls = record {
  split = λ path. path ∷ [];
  isdigit = λ segment. false;
  to_int = λ segment. err value_error;
  eq = λ a b. false;
  has = λ a b. ok false;
  search = λ a b. ok true;
  gt = λ a b. ok false;
  gte = λ a b. ok false;
  lt = λ a b. ok false;
  lte = λ a b. ok false;
  failure_text = λ rule. rule.id;
}

abbrev rules : List (OutputRule ℕ)
rules =
    record {
      id = "answered";
      path = "answer";
      operator = exists;
      expected = null;
      weight = 3000;
      hard_constraint = true;
      feedback = none;
    }
    ∷ record {
      id = "known";
      path = "answer";
      operator = equals;
      expected = text "42";
      weight = 1000;
      hard_constraint = false;
      feedback = some "Another answer is known.";
    }
    ∷ []

abbrev grader : RuleGrader ℕ
grader = record { grader_id = "exact"; rules = rules; threshold = 700 }

abbrev output : Fields ℕ
output = field "answer" (text "43") end

abbrev graded : EvaluationResult ℕ
graded = record {
  grader_id = "exact";
  score = 750;
  passed = true;
  dimensions = ("answered", 1000) ∷ ("known", 0) ∷ [];
  hard_constraints = ("answered", true) ∷ [];
  confidence = 1000;
  evidence = [];
  feedback = "Another answer is known." ∷ [];
  retryable = false;
  suggested_action = none;
}

evaluate-rules : evaluate calls grader output ≡ ok graded
unfolding evaluate
evaluate-rules = refl
