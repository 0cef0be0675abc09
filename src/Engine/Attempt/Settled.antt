-- ===== src/Engine/Attempt/Settled.antt =====
-- The statuses that the last events of an attempt lead to.
use loopgraph_supervisor.Prelude.{
  ℕ, ◌≤◌, ◌≡◌, refl, subst, String, ◌&&◌, List, any, leb, arith, Bool-cases, inl, inr,
}
use loopgraph_supervisor.Floats.{Floats}
use loopgraph_supervisor.Domain.Models.{EvaluationResult}
use loopgraph_supervisor.Domain.Directives.{SupervisorDirectiveAction, pause}
use loopgraph_supervisor.Domain.Runs.{
  RunDefinition, RunStatus, retry_scheduled, waiting_human, paused, succeeded, failed,
}
use loopgraph_supervisor.Domain.Events.{NewEvent}
use loopgraph_supervisor.Domain.Snapshot.Laws.{status_after, attempt_after, status_of, attempt_of}
use loopgraph_supervisor.Security.Payload.{redact_event}
use loopgraph_supervisor.EventStore.{Table}
use loopgraph_supervisor.EventStore.Streams.{IsNumbered}
use loopgraph_supervisor.Grading.Policy.{GradingDecision}
use loopgraph_supervisor.Engine.Exec.{Exception, budget_exceeded, control_signal}
use loopgraph_supervisor.Engine.Config.{Supervisor}
use loopgraph_supervisor.Engine.Runs.{append}
use loopgraph_supervisor.Engine.Runs.Reads.{redacted}
use loopgraph_supervisor.Engine.Phase.{Phase, Phase-trans, append-Phase}
use loopgraph_supervisor.Engine.Evaluate.{verdict}
use loopgraph_supervisor.Engine.Attempt.{
  control_events, execution_error_events, budget_events, exception_events,
}

-- The statuses after an attempt: blocked or ended, or a retry that the retry budget allows.
abbrev pub Settled : (attempt max_retries : ℕ) → RunStatus → Type 0
Settled attempt max_retries waiting_human = Unit
Settled attempt max_retries paused = Unit
Settled attempt max_retries succeeded = Unit
Settled attempt max_retries failed = Unit
Settled attempt max_retries retry_scheduled = attempt ≤ max_retries
Settled attempt max_retries _ = ⊥

module _ {F : Type 0} where
  -- From table `t` the run went to a settled status at the attempt `m`.
  pub record Ends (run : ℕ) (t : Table F) (s : RunStatus) (n : ℕ) (t' : Table F) (m max_retries : ℕ)
      : Type 0 where
    pub status : RunStatus
    pub phase : Phase run t s n t' status m
    pub settled : Settled m max_retries status

  pub Ends-after :
      {run : ℕ} {t t' t'' : Table F} {s s' : RunStatus} {n n' m max_retries : ℕ}
      → Phase run t s n t' s' n'
      → Ends run t' s' n' t'' m max_retries
      → Ends run t s n t'' m max_retries
  Ends-after p e = record { status = e.status; phase = Phase-trans p e.phase; settled = e.settled }

module _ {F : Type 0} ⦃fl : Floats F⦄ (c : Supervisor F) where
  -- The status that a verdict leads to.
  pub verdict-Settled :
      (run : ℕ) (definition : RunDefinition F) (attempt : ℕ) (d : GradingDecision F)
      (results : List (EvaluationResult F)) (s : RunStatus) (n : ℕ)
      → Settled attempt definition.supervisor_policy.max_retries
          (status_of s (redacted c (verdict c.library run definition attempt d results)))
        × (attempt_of n (redacted c (verdict c.library run definition attempt d results)) ≡ n)
  unfolding verdict redact_event status_after attempt_after
  verdict-Settled run definition attempt d results s n =
      let policy = definition.supervisor_policy in
      let again =
        any (λ (r : EvaluationResult F). r.retryable) results && leb attempt policy.max_retries in
      elim (Bool-cases d.passed) [
        | inl good ↦ rw good (tt, refl)
        | inr bad ↦ rw bad (elim (Bool-cases again) [
          | inl retries ↦ rw retries (ground arith, refl)
          | inr ends ↦ rw ends (elim (Bool-cases policy.require_human_on_exhaustion) [
            | inl human ↦ rw human (tt, refl)
            | inr automatic ↦ rw automatic (tt, refl)
          ])
        ])
      ]

  control-Settled :
      (attempt max_retries : ℕ) (action : SupervisorDirectiveAction) (reason : String)
      (s : RunStatus) (n : ℕ)
      → Settled attempt max_retries (status_of s (redacted c (control_events action reason)))
        × (attempt_of n (redacted c (control_events action reason)) ≡ n)
  unfolding control_events redact_event status_after attempt_after
  control-Settled attempt max_retries pause reason s n = (tt, refl)
  control-Settled attempt max_retries _ reason s n = (tt, refl)

  pub exception-Settled :
      (attempt max_retries : ℕ) (e : Exception F) (s : RunStatus) (n : ℕ)
      → Settled attempt max_retries (status_of s (redacted c (exception_events attempt e)))
        × (attempt_of n (redacted c (exception_events attempt e)) ≡ n)
  unfolding exception_events execution_error_events budget_events redact_event status_after
      attempt_after
  exception-Settled attempt max_retries (control_signal d) s n =
      control-Settled attempt max_retries d.action d.rationale s n
  exception-Settled attempt max_retries (budget_exceeded b) s n = (tt, refl)
  exception-Settled attempt max_retries _ s n = (tt, refl)

  -- The last events of an attempt.
  pub append-Ends :
      (run : ℕ) (events : List (NewEvent F)) (t : Table F) (s : RunStatus) (n : ℕ) (max_retries : ℕ)
      → IsNumbered t
      → Settled n max_retries (status_of s (redacted c events))
        × (attempt_of n (redacted c events) ≡ n)
      → Ends run t s n (append c run events t).1 n max_retries
  append-Ends run events t s n max_retries w h = record {
    status = status_of s (redacted c events);
    phase =
        subst (λ m. Phase run t s n (append c run events t).1 (status_of s (redacted c events)) m)
          h.1 (append-Phase c run events t s n w);
    settled = h.0;
  }
