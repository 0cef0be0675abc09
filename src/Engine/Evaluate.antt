-- ===== src/Engine/Evaluate.antt =====
-- `_evaluate` and `_safe_grade` of src/loopgraph_supervisor/application/engine.py. The graders run one
-- after the other here; the source starts them together.
use Prim.Native.String.{◌++◌ as str_append}
use loopgraph_supervisor.Prelude.{
  ℕ, ◌+◌, false, ◌&&◌, String, str_eq, none, some, List, [], ◌∷◌, map, leb, any, lookup,
  if◌then◌else◌,
}
use mathlib.Core.List.{flat_map}
use loopgraph_supervisor.Floats.{Floats}
use loopgraph_supervisor.Domain.Json.{Fields}
use loopgraph_supervisor.Domain.Models.{EvaluationResult, Hint, warning}
use loopgraph_supervisor.Domain.Directives.{HarnessEvent}
use loopgraph_supervisor.Domain.Runs.{RunDefinition}
use loopgraph_supervisor.Domain.Events.{
  StoredDecision, NewEvent, evaluation_started, evaluation_completed, grader_failed, hint_published,
  run_retry_scheduled, run_waiting_human, run_succeeded, run_failed,
}
use loopgraph_supervisor.EventStore.{Table}
use loopgraph_supervisor.Grading.Policy.{GradingDecision, Aggregated, decided, aggregate}
use loopgraph_supervisor.Engine.Exec.{
  Exception, key_error, value_error, safe_error, type_name, Result, ok, err, Exec, pure, lift,
  ◌>>=◌, ◌>>◌,
}
use loopgraph_supervisor.Engine.Config.{Supervisor, Library, Grader, EvaluationContext}
use loopgraph_supervisor.Engine.Runs.{append}

-- `"\n".join(…)`
unfoldable pub join_lines : List String → String
join_lines [] = ""
join_lines (x ∷ []) = x
join_lines (x ∷ y ∷ xs) = str_append x (str_append "\n" (join_lines (y ∷ xs)))

module _ {F : Type 0} where
  -- `self.graders[grader_id]` for each id, before any grader runs
  unfoldable pub find_graders : List (String × Grader F) → List String → Result F (List (Grader F))
  find_graders registry [] = ok []
  find_graders registry (id ∷ ids) =
      let rest = find_graders registry ids in
      elim (lookup id registry) [
        | none ↦ err key_error
        | some g ↦ elim rest [ ok gs ↦ ok (g ∷ gs) | err e ↦ err e ]
      ]

  -- `decision.model_dump(…)`, in the parts that a stored decision keeps
  unfoldable pub dump_decision : GradingDecision F → StoredDecision F
  dump_decision d = record {
    score = d.score;
    passed = d.passed;
    failed_constraints = d.failed_constraints;
    hard_constraints = map (λ r. map (λ c. (c.0, some c.1)) r.hard_constraints) d.results;
  }

  -- The hint of a retry.
  unfoldable pub feedback_hint :
      Library F → ℕ → ℕ → GradingDecision F → List (EvaluationResult F) → Hint
  feedback_hint library run attempt d results =
      let joined = join_lines (flat_map (λ r. r.feedback) results) in
      record {
        run_id = run;
        target = "executor";
        priority = warning;
        instruction =
            if str_eq joined ""
            then "Review the failed evaluation and use a new approach."
            else joined;
        reason = str_append "Attempt " (
            str_append (library.format_number attempt)
              (str_append " scored " (library.format_score d.score)));
        evidence = flat_map (λ r. r.evidence) results;
        created_at_step = attempt + 1;
        expires_after_steps = 1;
        deduplication_key = str_append "evaluation-attempt-" (library.format_number attempt);
      }

  -- The events that follow a decision.
  unfoldable pub verdict :
      Library F
      → ℕ
      → RunDefinition F
      → ℕ
      → GradingDecision F
      → List (EvaluationResult F)
      → List (NewEvent F)
  verdict library run definition attempt d results =
      let policy = definition.supervisor_policy in
      if d.passed
      then run_succeeded false ∷ []
      else if any (λ r. r.retryable) results && leb attempt policy.max_retries
      then hint_published (feedback_hint library run attempt d results)
        ∷ run_retry_scheduled (attempt + 1)
        ∷ []
      else if policy.require_human_on_exhaustion
      then run_waiting_human "evaluation_failed" ∷ []
      else run_failed "evaluation_failed" ∷ []

module _ {F : Type 0} ⦃fl : Floats F⦄ where
  unfoldable pub failed_grade : Grader F → Exception F → EvaluationResult F
  failed_grade g e = record {
    grader_id = g.id;
    score = fl.zero;
    passed = false;
    dimensions = [];
    hard_constraints = [];
    confidence = fl.zero;
    evidence = [];
    feedback = str_append "Grader failed: " (type_name e) ∷ [];
    retryable = false;
    suggested_action = none;
  }

  unfoldable pub graded :
      Supervisor F
      → ℕ
      → Grader F
      → Result F (EvaluationResult F)
      → Exec F (Table F) (EvaluationResult F)
  graded s run g (ok r) = pure r
  graded s run g (err e) = do
    append s run (grader_failed g.id (safe_error e) ∷ [])
    pure (failed_grade g e)

  unfoldable pub safe_grade :
      Supervisor F → Grader F → EvaluationContext F → Exec F (Table F) (EvaluationResult F)
  safe_grade s g context = graded s context.run_id g (g.evaluate context)

  unfoldable pub grade_all :
      Supervisor F
      → EvaluationContext F
      → List (Grader F)
      → Exec F (Table F) (List (EvaluationResult F))
  grade_all s context [] = pure []
  grade_all s context (g ∷ gs) = do
    r ← safe_grade s g context
    rs ← grade_all s context gs
    pure (r ∷ rs)

  unfoldable pub decision_of : Aggregated F → Result F (GradingDecision F)
  decision_of (decided d) = ok d
  decision_of _ = err value_error

  unfoldable pub evaluate :
      Supervisor F
      → ℕ
      → RunDefinition F
      → ℕ
      → Fields F
      → List (HarnessEvent F)
      → Exec F (Table F) (Unit {0})
  evaluate s run definition attempt output trajectory = do
    append s run (evaluation_started attempt ∷ [])
    graders ← lift (find_graders s.graders definition.grader_ids)
    results ←
        grade_all s
          (record {
            run_id = run;
            attempt = attempt;
            goal = definition.goal;
            output = output;
            trajectory = trajectory;
          })
          graders
    decision ← lift (decision_of (aggregate definition.grading_policy results))
    append s run (evaluation_completed (dump_decision decision) ∷ [])
    append s run (verdict s.library run definition attempt decision results)
