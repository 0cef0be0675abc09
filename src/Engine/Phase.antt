-- ===== src/Engine/Phase.antt =====
-- How a stretch of the program moves a run: the events that it adds to the run's stream, and the
-- status and the attempt that they lead to.
use loopgraph_supervisor.Prelude.{
  ℕ, ◌≡◌, refl, sym, ◌∙◌, ap, List, [], ◌∷◌, ◌++◌, append-nil, append_assoc, All, all, arith, Bool,
  true, false,
}
use loopgraph_supervisor.Domain.Runs.{RunStatus}
use loopgraph_supervisor.Domain.Events.{
  EventData, NewEvent, run_started, evaluation_started, evaluation_completed, run_retry_scheduled,
  run_waiting_human, run_paused, run_resumed, run_recovered, run_succeeded, run_failed,
  run_cancelled,
}
use loopgraph_supervisor.Security.Redaction.{RedactionPolicy}
use loopgraph_supervisor.Security.Payload.{redact_event}
use loopgraph_supervisor.Domain.Snapshot.Laws.{
  status_after, attempt_after, status_of, attempt_of, status_of-append, attempt_of-append,
}
use loopgraph_supervisor.EventStore.{Table, version}
use loopgraph_supervisor.EventStore.Streams.{IsNumbered, IsNumbered-grown, view, view-grown}
use loopgraph_supervisor.Engine.Config.{Supervisor}
use loopgraph_supervisor.Engine.Runs.{append}
use loopgraph_supervisor.Engine.Runs.Reads.{append-eq, redacted}

-- From table `t` to table `t'` the run goes from one status and attempt to another.
pub record Phase {F : Type 0} (run : ℕ) (t : Table F) (s : RunStatus) (n : ℕ) (t' : Table F)
    (s' : RunStatus) (n' : ℕ) : Type 0 where
  pub new : List (EventData F)
  pub numbered : IsNumbered t'
  pub grown : view t' run ≡ view t run ++ new
  pub status : status_of s new ≡ s'
  pub attempt : attempt_of n new ≡ n'

-- An event that changes neither status nor attempt.
pub record IsQuiet {F : Type 0} (e : EventData F) : Type 0 where
  pub status : (s : RunStatus) → status_after s e ≡ s
  pub attempt : (n : ℕ) → attempt_after n e ≡ n

abbrev pub is_quiet : {F : Type 0} → EventData F → Bool
is_quiet (run_started n) = false
is_quiet (evaluation_started n) = false
is_quiet (evaluation_completed d) = false
is_quiet (run_retry_scheduled n) = false
is_quiet (run_waiting_human r) = false
is_quiet (run_paused r) = false
is_quiet (run_resumed a r n) = false
is_quiet (run_recovered a s n) = false
is_quiet (run_succeeded h) = false
is_quiet (run_failed r) = false
is_quiet run_cancelled = false
is_quiet _ = true

module _ {F : Type 0} (p : RedactionPolicy) where
  redact-status :
      (e : EventData F) (s : RunStatus) → is_quiet e ≡ true → status_after s (redact_event p e) ≡ s
  unfolding redact_event status_after
  redact-status (run_started n) s h = cc
  redact-status _ s h = ground arith

  redact-attempt :
      (e : EventData F) (n : ℕ) → is_quiet e ≡ true → attempt_after n (redact_event p e) ≡ n
  unfolding redact_event attempt_after
  redact-attempt (run_started m) n h = cc
  redact-attempt _ n h = ground arith

  -- A quiet event is still one when it is redacted.
  pub redact-IsQuiet : (e : EventData F) → is_quiet e ≡ true → IsQuiet (redact_event p e)
  redact-IsQuiet e h = record {
    status = λ s. redact-status e s h;
    attempt = λ n. redact-attempt e n h;
  }

-- Only such events were added.
pub record Quietly {F : Type 0} (run : ℕ) (t t' : Table F) : Type 0 where
  pub new : List (EventData F)
  pub numbered : IsNumbered t'
  pub grown : view t' run ≡ view t run ++ new
  pub quiet : All IsQuiet new

module _ {F : Type 0} where
  status_of-quiet : (s : RunStatus) (es : List (EventData F)) → All IsQuiet es → status_of s es ≡ s
  status_of-quiet s [] h = refl
  status_of-quiet s (e ∷ es) h = status_of-quiet (status_after s e) es h.1 ∙ h.0.status s

  attempt_of-quiet : (n : ℕ) (es : List (EventData F)) → All IsQuiet es → attempt_of n es ≡ n
  attempt_of-quiet n [] h = refl
  attempt_of-quiet n (e ∷ es) h = attempt_of-quiet (attempt_after n e) es h.1 ∙ h.0.attempt n

  pub Phase-refl :
      (run : ℕ) (t : Table F) (s : RunStatus) (n : ℕ) → IsNumbered t → Phase run t s n t s n
  Phase-refl run t s n w = record {
    new = [];
    numbered = w;
    grown = sym (append-nil (view t run));
    status = refl;
    attempt = refl;
  }

  pub Phase-trans :
      {run : ℕ} {t t' t'' : Table F} {s s' s'' : RunStatus} {n n' n'' : ℕ}
      → Phase run t s n t' s' n'
      → Phase run t' s' n' t'' s'' n''
      → Phase run t s n t'' s'' n''
  Phase-trans {run} {t} {t'} {t''} {s} {s'} {s''} {n} {n'} {n''} p q = record {
    new = p.new ++ q.new;
    numbered = q.numbered;
    grown = q.grown ∙ ap (λ l. l ++ q.new) p.grown ∙ append_assoc (view t run) p.new q.new;
    status = status_of-append s p.new q.new ∙ ap (λ x. status_of x q.new) p.status ∙ q.status;
    attempt = attempt_of-append n p.new q.new ∙ ap (λ x. attempt_of x q.new) p.attempt ∙ q.attempt;
  }

  pub Quietly-Phase :
      {run : ℕ} {t t' : Table F} (s : RunStatus) (n : ℕ) → Quietly run t t' → Phase run t s n t' s n
  Quietly-Phase s n q = record {
    new = q.new;
    numbered = q.numbered;
    grown = q.grown;
    status = status_of-quiet s q.new q.quiet;
    attempt = attempt_of-quiet n q.new q.quiet;
  }

  -- What `_append` adds.
  pub append-Phase :
      (c : Supervisor F) (run : ℕ) (events : List (NewEvent F)) (t : Table F) (s : RunStatus)
      (n : ℕ)
      → IsNumbered t
      → Phase run t s n
          (append c run events t).1
          (status_of s (redacted c events))
          (attempt_of n (redacted c events))
  append-Phase c run events t s n w = rw (append-eq c run events t) (record {
    new = redacted c events;
    numbered = IsNumbered-grown t run (redacted c events) w;
    grown = view-grown t run (version t run) (redacted c events);
    status = refl;
    attempt = refl;
  })

  pub redacted-IsQuiet :
      (c : Supervisor F) (events : List (NewEvent F))
      → all is_quiet events ≡ true
      → All IsQuiet (redacted c events)
  redacted-IsQuiet c [] h = tt
  redacted-IsQuiet c (e ∷ es) h =
      (redact-IsQuiet c.redaction_policy e (ground arith), redacted-IsQuiet c es (ground arith))

  pub append-Quietly :
      (c : Supervisor F) (run : ℕ) (events : List (NewEvent F)) (t : Table F)
      → all is_quiet events ≡ true
      → IsNumbered t
      → Quietly run t (append c run events t).1
  append-Quietly c run events t h w = rw (append-eq c run events t) (record {
    new = redacted c events;
    numbered = IsNumbered-grown t run (redacted c events) w;
    grown = view-grown t run (version t run) (redacted c events);
    quiet = redacted-IsQuiet c events h;
  })
