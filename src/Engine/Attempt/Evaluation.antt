-- ===== src/Engine/Attempt/Evaluation.antt =====
-- What the evaluation of an output leads to: `_evaluate` of
-- src/loopgraph_supervisor/application/engine.py
use loopgraph_supervisor.Prelude.{ℕ, ◌≡◌, refl, subst, List, [], ◌∷◌}
use loopgraph_supervisor.Floats.{Floats}
use loopgraph_supervisor.Domain.Json.{Fields}
use loopgraph_supervisor.Domain.Models.{EvaluationResult}
use loopgraph_supervisor.Domain.Directives.{HarnessEvent}
use loopgraph_supervisor.Domain.Runs.{RunDefinition, RunStatus, evaluating}
use loopgraph_supervisor.Domain.Events.{
  NewEvent, evaluation_started, evaluation_completed, grader_failed,
}
use loopgraph_supervisor.Domain.Snapshot.Laws.{status_after, attempt_after, status_of, attempt_of}
use loopgraph_supervisor.Security.Payload.{redact_event}
use loopgraph_supervisor.EventStore.{Table}
use loopgraph_supervisor.Engine.Exec.{safe_error, Result, ok, err}
use loopgraph_supervisor.Engine.Config.{Supervisor, Grader, EvaluationContext}
use loopgraph_supervisor.Engine.Runs.{append}
use loopgraph_supervisor.Engine.Runs.Reads.{redacted}
use loopgraph_supervisor.Engine.Keeps.{
  Keeps, Keeps-pure, Keeps-lift, Keeps-bind, Moves, Moves-keep, Concludes, Concludes-bind,
}
use loopgraph_supervisor.Engine.Phase.{
  Phase, Phase-trans, Quietly-Phase, append-Phase, append-Quietly,
}
use loopgraph_supervisor.Engine.Evaluate.{
  dump_decision, verdict, graded, safe_grade, grade_all, evaluate,
}
use loopgraph_supervisor.Engine.Attempt.Settled.{Ends, append-Ends, Ends-after, verdict-Settled}

module _ {F : Type 0} ⦃fl : Floats F⦄ (c : Supervisor F) where
  graded-Keeps :
      (run : ℕ) (g : Grader F) (r : Result F (EvaluationResult F)) (t₀ : Table F) (s₀ : RunStatus)
      (n₀ : ℕ) (s : RunStatus) (n : ℕ)
      → Keeps (λ t. Phase run t₀ s₀ n₀ t s n) (graded c run g r)
  unfolding graded
  graded-Keeps run g (ok r) t₀ s₀ n₀ s n = Keeps-pure r
  graded-Keeps run g (err e) t₀ s₀ n₀ s n =
      let failure = grader_failed g.id (safe_error e) ∷ [] in
      Keeps-bind (append c run failure) _
        (record {
          at = λ t p.
              Phase-trans p (Quietly-Phase s n (append-Quietly c run failure t refl p.numbered));
        })
        (λ _. Keeps-pure _)

  grade_all-Keeps :
      (context : EvaluationContext F) (gs : List (Grader F)) (t₀ : Table F) (s₀ : RunStatus)
      (n₀ : ℕ) (s : RunStatus) (n : ℕ)
      → Keeps (λ t. Phase context.run_id t₀ s₀ n₀ t s n) (grade_all c context gs)
  unfolding grade_all safe_grade
  grade_all-Keeps context [] t₀ s₀ n₀ s n = Keeps-pure []
  grade_all-Keeps context (g ∷ gs) t₀ s₀ n₀ s n =
      Keeps-bind _ _ (graded-Keeps context.run_id g (g.evaluate context) t₀ s₀ n₀ s n)
        λ r. Keeps-bind _ _ (grade_all-Keeps context gs t₀ s₀ n₀ s n) λ rs. Keeps-pure (r ∷ rs)

  pub append-Moves :
      (run : ℕ) (events : List (NewEvent F)) (t₀ : Table F) (s₀ : RunStatus) (n₀ : ℕ)
      (s s' : RunStatus) (n n' : ℕ)
      → status_of s (redacted c events) ≡ s'
      → attempt_of n (redacted c events) ≡ n'
      → Moves
          (λ t. Phase run t₀ s₀ n₀ t s n)
          (λ t. Phase run t₀ s₀ n₀ t s' n')
          (append c run events)
  append-Moves run events t₀ s₀ n₀ s s' n n' es en = record {
    at = λ t p. Phase-trans p (
        subst (λ x. Phase run t s n (append c run events t).1 x n') es
          (subst
            (λ x. Phase run t s n (append c run events t).1 (status_of s (redacted c events)) x) en
            (append-Phase c run events t s n p.numbered)));
  }

  -- An evaluation that returns ends the attempt.
  pub evaluate-Ends :
      (run : ℕ) (definition : RunDefinition F) (attempt : ℕ) (output : Fields F)
      (trajectory : List (HarnessEvent F)) (t₀ : Table F) (s₀ : RunStatus) (n₀ : ℕ) (s : RunStatus)
      → Concludes
          (λ t. Phase run t₀ s₀ n₀ t s attempt)
          (λ t. Ends run t₀ s₀ n₀ t attempt definition.supervisor_policy.max_retries)
          (evaluate c run definition attempt output trajectory)
  unfolding evaluate redact_event status_after attempt_after
  evaluate-Ends run definition attempt output trajectory t₀ s₀ n₀ s =
      let max_retries = definition.supervisor_policy.max_retries in
      Concludes-bind _ _
        (append-Moves run (evaluation_started attempt ∷ []) t₀ s₀ n₀ s evaluating attempt attempt
          refl refl)
        λ _. Concludes-bind _ _ (Moves-keep _ (Keeps-lift _)) λ graders.
          Concludes-bind _ _ (Moves-keep _ (grade_all-Keeps _ graders t₀ s₀ n₀ evaluating attempt))
            λ results. Concludes-bind _ _ (Moves-keep _ (Keeps-lift _)) λ decision.
              Concludes-bind _ _
                (append-Moves run (evaluation_completed (dump_decision decision) ∷ []) t₀ s₀ n₀
                  evaluating evaluating attempt attempt refl refl)
                λ _. record {
                  at = λ t _ p e. Ends-after p (
                      append-Ends c run (verdict c.library run definition attempt decision results)
                        t evaluating attempt max_retries p.numbered
                        (verdict-Settled c run definition attempt decision results evaluating
                          attempt));
                }
