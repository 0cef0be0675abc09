-- ===== src/Engine/Attempt/Outcome.antt =====
-- What an attempt leads to: it never leaves the run running or evaluating.
use loopgraph_supervisor.Engine.Attempt.Evaluation.{append-Moves, evaluate-Ends}
use loopgraph_supervisor.Prelude.{
  ℕ, ◌+◌, ◌≡◌, refl, Option, none, some, [], ◌∷◌, map, lookup, Option-cases, inl, inr,
}
use loopgraph_supervisor.Floats.{Floats}
use loopgraph_supervisor.Domain.Directives.{ExecutionResult}
use loopgraph_supervisor.Domain.Runs.{RunStatus, running}
use loopgraph_supervisor.Domain.Events.{Budget, run_started, agent_execution_completed}
use loopgraph_supervisor.Domain.Snapshot.{RunSnapshot}
use loopgraph_supervisor.Domain.Snapshot.Laws.{status_after, attempt_after}
use loopgraph_supervisor.Security.Payload.{redact_event}
use loopgraph_supervisor.EventStore.{Table}
use loopgraph_supervisor.EventStore.Streams.{IsNumbered}
use loopgraph_supervisor.Engine.Exec.{budget_exceeded, Result, ok, err}
use loopgraph_supervisor.Engine.Config.{Supervisor, Harness, Conversation, returns, raises, emits}
use loopgraph_supervisor.Engine.Runs.{append}
use loopgraph_supervisor.Engine.Keeps.{
  Keeps, Keeps-pure, Keeps-raise, Keeps-lift, Keeps-bind, Concludes, Concludes-bind,
}
use loopgraph_supervisor.Engine.Phase.{Phase, Phase-refl}
use loopgraph_supervisor.Engine.Emit.{Attempt, AttemptState}
use loopgraph_supervisor.Engine.Emit.Quiet.{HandlerIsQuiet, emit-Keeps}
use loopgraph_supervisor.Engine.Attempt.Settled.{Ends, append-Ends, Ends-after, exception-Settled}
use loopgraph_supervisor.Engine.Attempt.{
  budget_events, exception_events, exceeded_budget, converse, run_harness, after_budget, conclude,
  attempt_with, execute_attempt,
}

module _ {F : Type 0} ⦃fl : Floats F⦄ (c : Supervisor F) where
  converse-Keeps :
      (a : Attempt F)
      → HandlerIsQuiet a.run_id c.action_handler
      → (t₀ : Table F) (s₀ : RunStatus) (n₀ : ℕ) (s : RunStatus) (n : ℕ) (k : Conversation F)
      → Keeps (λ st. Phase a.run_id t₀ s₀ n₀ st.table s n) (converse c a k)
  unfolding converse
  converse-Keeps a q t₀ s₀ n₀ s n (returns r) = Keeps-pure r
  converse-Keeps a q t₀ s₀ n₀ s n (raises e) = Keeps-raise e
  converse-Keeps a q t₀ s₀ n₀ s n (emits event k) =
      Keeps-bind _ _ (emit-Keeps c a q t₀ s₀ n₀ s n event)
        (λ hints. converse-Keeps a q t₀ s₀ n₀ s n (k hints))

  run_harness-Keeps :
      (a : Attempt F)
      → HandlerIsQuiet a.run_id c.action_handler
      → (t₀ : Table F) (s₀ : RunStatus) (n₀ : ℕ) (s : RunStatus) (n : ℕ) (h : Harness F)
        (snapshot : RunSnapshot F)
      → Keeps (λ st. Phase a.run_id t₀ s₀ n₀ st.table s n) (run_harness c a h snapshot)
  unfolding run_harness
  run_harness-Keeps a q t₀ s₀ n₀ s n h snapshot =
      Keeps-bind _ _ (Keeps-lift _) (λ memories. converse-Keeps a q t₀ s₀ n₀ s n _)

  after_budget-Ends :
      (a : Attempt F) (st : AttemptState F) (result : ExecutionResult F) (b : Option (Budget F))
      (t₀ : Table F) (s₀ : RunStatus) (n₀ : ℕ) (s : RunStatus)
      → Concludes
          (λ t. Phase a.run_id t₀ s₀ n₀ t s a.attempt)
          (λ t. Ends a.run_id t₀ s₀ n₀ t a.attempt a.definition.supervisor_policy.max_retries)
          (after_budget c a st result b)
  unfolding after_budget budget_events exception_events
  after_budget-Ends a st result none t₀ s₀ n₀ s =
      evaluate-Ends c a.run_id a.definition a.attempt result.output st.observed_events t₀ s₀ n₀ s
  after_budget-Ends a st result (some b) t₀ s₀ n₀ s = record {
    at = λ t _ p e. Ends-after p (
        append-Ends c a.run_id (budget_events a.attempt b) t s a.attempt
          a.definition.supervisor_policy.max_retries p.numbered
          (exception-Settled c a.attempt a.definition.supervisor_policy.max_retries
            (budget_exceeded b) s a.attempt));
  }

  conclude-Ends :
      (a : Attempt F) (snapshot : RunSnapshot F) (st : AttemptState F)
      (r : Result F (ExecutionResult F)) (t₀ : Table F) (s₀ : RunStatus) (n₀ : ℕ) (s : RunStatus)
      → Concludes
          (λ t. Phase a.run_id t₀ s₀ n₀ t s a.attempt)
          (λ t. Ends a.run_id t₀ s₀ n₀ t a.attempt a.definition.supervisor_policy.max_retries)
          (conclude c a snapshot st r)
  unfolding conclude redact_event status_after attempt_after
  conclude-Ends a snapshot st (err e) t₀ s₀ n₀ s = record {
    at = λ t _ p _. Ends-after p (
        append-Ends c a.run_id (exception_events a.attempt e) t s a.attempt
          a.definition.supervisor_policy.max_retries p.numbered
          (exception-Settled c a.attempt a.definition.supervisor_policy.max_retries e s a.attempt));
  }
  conclude-Ends a snapshot st (ok result) t₀ s₀ n₀ s =
      Concludes-bind _ _
        (append-Moves c a.run_id (agent_execution_completed a.attempt result ∷ []) t₀ s₀ n₀ s s
          a.attempt a.attempt refl refl)
        (λ _. after_budget-Ends a st result (exceeded_budget snapshot result) t₀ s₀ n₀ s)

  attempt_with-Ends :
      (snapshot : RunSnapshot F) (h : Harness F)
      → HandlerIsQuiet snapshot.run_id c.action_handler
      → (t₀ : Table F) (s₀ : RunStatus) (n₀ : ℕ) (s : RunStatus) (n : ℕ)
      → Concludes
          (λ t. Phase snapshot.run_id t₀ s₀ n₀ t s n)
          (λ t.
            Ends snapshot.run_id t₀ s₀ n₀ t
              (snapshot.attempt + 1)
              snapshot.definition.supervisor_policy.max_retries)
          (attempt_with c snapshot h)
  unfolding attempt_with redact_event status_after attempt_after
  attempt_with-Ends snapshot h q t₀ s₀ n₀ s n =
      let m = snapshot.attempt + 1 in
      let a : Attempt F = record {
        run_id = snapshot.run_id;
        attempt = m;
        definition = snapshot.definition;
        inline_delivery = h.inject_context;
      } in
      Concludes-bind (append c snapshot.run_id (run_started m ∷ [])) _
        (append-Moves c snapshot.run_id (run_started m ∷ []) t₀ s₀ n₀ s running n m refl refl)
        (λ _. record {
          at = λ t₁ u₁ p₁ e₁.
              let st₁ : AttemptState F = record {
                table = t₁;
                observed_events = [];
                published_hint_keys = map (λ x. x.deduplication_key) snapshot.hints;
                attempt_steps = 0;
              } in
              let (result, st) = run_harness c a h snapshot st₁ in
              (conclude-Ends a snapshot st result t₀ s₀ n₀ running).at st.table u₁
                ((run_harness-Keeps a q t₀ s₀ n₀ running m h snapshot).at st₁ p₁) e₁;
        })

  execute_attempt-Concludes :
      (snapshot : RunSnapshot F)
      → HandlerIsQuiet snapshot.run_id c.action_handler
      → (t₀ : Table F) (s₀ : RunStatus) (n₀ : ℕ) (s : RunStatus) (n : ℕ)
      → Concludes
          (λ t. Phase snapshot.run_id t₀ s₀ n₀ t s n)
          (λ t.
            Ends snapshot.run_id t₀ s₀ n₀ t
              (snapshot.attempt + 1)
              snapshot.definition.supervisor_policy.max_retries)
          (execute_attempt c snapshot)
  unfolding execute_attempt
  execute_attempt-Concludes snapshot q t₀ s₀ n₀ s n =
      elim (Option-cases (lookup snapshot.definition.harness_id c.harnesses)) [
        | inl missing ↦ record { at = λ t u p e. cc }
        | inr (h, found) ↦ rw (execute_attempt, found) (attempt_with-Ends snapshot h q t₀ s₀ n₀ s n)
      ]

  -- If an attempt of a run returns, on a table whose streams are numbered without gaps and with an
  -- action handler that only adds quiet events to the run, then it only added events to the run's
  -- stream, the run is at the next attempt, and its status is waiting for a human, paused, succeeded
  -- or failed, or it is a scheduled retry while the attempt is at most the retry limit.
  pub execute_attempt-Ends :
      (snapshot : RunSnapshot F) (t : Table F)
      → HandlerIsQuiet snapshot.run_id c.action_handler
      → IsNumbered t
      → (execute_attempt c snapshot t).0 ≡ ok tt
      → Ends snapshot.run_id t snapshot.status snapshot.attempt
          (execute_attempt c snapshot t).1
          (snapshot.attempt + 1)
          snapshot.definition.supervisor_policy.max_retries
  execute_attempt-Ends snapshot t q w e =
      (execute_attempt-Concludes snapshot q t snapshot.status snapshot.attempt snapshot.status
          snapshot.attempt).at
        t tt (Phase-refl snapshot.run_id t snapshot.status snapshot.attempt w) e
