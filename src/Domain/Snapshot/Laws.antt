-- ===== src/Domain/Snapshot/Laws.antt =====
-- Replaying a longer stream goes on from the snapshot of the shorter one; and how an event changes
-- the status and the attempt.
use loopgraph_supervisor.Prelude.{
  ℕ, ◌≡◌, refl, sym, ◌∙◌, ap, true, some, List, [], ◌∷◌, ◌++◌, map, arith, Bool-cases, inl, inr,
}
use loopgraph_supervisor.Floats.{Floats}
use loopgraph_supervisor.Domain.Runs.{
  RunDefinition, RunStatus, running, evaluating, retry_scheduled, waiting_human, paused, succeeded,
  failed, cancelled,
}
use loopgraph_supervisor.Domain.Events.{
  EventData, StoredEvent, run_created, run_started, evaluation_started, evaluation_completed,
  run_retry_scheduled, run_waiting_human, run_paused, run_resumed, run_recovered, run_succeeded,
  run_failed, run_cancelled,
}
use loopgraph_supervisor.Domain.Snapshot.{
  RunSnapshot, step, steps, initial, in_bounds, validate, last_sequence, replay_from, replay,
}

-- The status after an event, and the attempt after it.
unfoldable pub status_after : {F : Type 0} → RunStatus → EventData F → RunStatus
status_after s (run_started n) = running
status_after s (evaluation_started n) = evaluating
status_after s (evaluation_completed d) = evaluating
status_after s (run_retry_scheduled n) = retry_scheduled
status_after s (run_waiting_human r) = waiting_human
status_after s (run_paused r) = paused
status_after s (run_resumed a r n) = retry_scheduled
status_after s (run_recovered a o n) = retry_scheduled
status_after s (run_succeeded h) = succeeded
status_after s (run_failed r) = failed
status_after s run_cancelled = cancelled
status_after s _ = s

unfoldable pub attempt_after : {F : Type 0} → ℕ → EventData F → ℕ
attempt_after n (run_started m) = m
attempt_after n _ = n

abbrev pub status_of : {F : Type 0} → RunStatus → List (EventData F) → RunStatus
status_of s [] = s
status_of s (e ∷ es) = status_of (status_after s e) es

abbrev pub attempt_of : {F : Type 0} → ℕ → List (EventData F) → ℕ
attempt_of n [] = n
attempt_of n (e ∷ es) = attempt_of (attempt_after n e) es

module _ {F : Type 0} where
  pub status_of-append :
      (s : RunStatus) (xs ys : List (EventData F))
      → status_of s (xs ++ ys) ≡ status_of (status_of s xs) ys
  status_of-append s [] ys = refl
  status_of-append s (x ∷ xs) ys = status_of-append (status_after s x) xs ys

  pub attempt_of-append :
      (n : ℕ) (xs ys : List (EventData F))
      → attempt_of n (xs ++ ys) ≡ attempt_of (attempt_of n xs) ys
  attempt_of-append n [] ys = refl
  attempt_of-append n (x ∷ xs) ys = attempt_of-append (attempt_after n x) xs ys

module _ {F : Type 0} ⦃fl : Floats F⦄ where
  abbrev pub with_version : RunSnapshot F → ℕ → RunSnapshot F
  with_version s v = record s { version = v }

  step-with_version :
      (s : RunSnapshot F) (v : ℕ) (e : EventData F)
      → step (with_version s v) e ≡ with_version (step s e) v
  unfolding step
  step-with_version s v (run_started n) = refl
  step-with_version s v _ = refl

  steps-with_version :
      (s : RunSnapshot F) (v : ℕ) (es : List (StoredEvent F))
      → steps (with_version s v) es ≡ with_version (steps s es) v
  unfolding steps
  steps-with_version s v [] = refl
  steps-with_version s v (e ∷ es) =
      rw (step-with_version s v e.event) (steps-with_version (step s e.event) v es)

  steps-append :
      (s : RunSnapshot F) (xs ys : List (StoredEvent F))
      → steps s (xs ++ ys) ≡ steps (steps s xs) ys
  unfolding steps
  steps-append s [] ys = refl
  steps-append s (x ∷ xs) ys = steps-append (step s x.event) xs ys

  pub validate-eq_some : (s : RunSnapshot F) {r : RunSnapshot F} → validate s ≡ some r → s ≡ r
  unfolding validate
  validate-eq_some s h = ground arith

  steps-longer :
      (e : StoredEvent F) (d : RunDefinition F) (v w : ℕ) (xs ys : List (StoredEvent F))
      → steps (initial e d v) (xs ++ ys) ≡ with_version (steps (steps (initial e d w) xs) ys) v
  unfolding initial
  steps-longer e d v w xs ys =
      steps-append (initial e d v) xs ys
      ∙ ap (λ s. steps s ys) (steps-with_version (initial e d w) v xs)
      ∙ steps-with_version (steps (initial e d w) xs) v ys

  replay_from-append :
      (e : StoredEvent F) (first : EventData F) (xs ys : List (StoredEvent F)) (s : RunSnapshot F)
      → replay_from e first xs ≡ some s
      → replay_from e first (xs ++ ys)
        ≡ validate (with_version (steps s ys) (last_sequence e (xs ++ ys)))
  unfolding replay_from
  replay_from-append e (run_created d) xs ys s h =
      let w = last_sequence e xs in
      rw (steps-longer e d (last_sequence e (xs ++ ys)) w xs ys)
        (rw (validate-eq_some (steps (initial e d w) xs) h))
  replay_from-append e _ xs ys s h = cc

  -- A stream that replays goes on from its snapshot when it grows.
  pub replay-append :
      (e : StoredEvent F) (xs ys : List (StoredEvent F)) (s : RunSnapshot F)
      → replay (e ∷ xs) ≡ some s
      → replay (e ∷ (xs ++ ys)) ≡ validate (with_version (steps s ys) (last_sequence e (xs ++ ys)))
  unfolding replay
  replay-append e xs ys s h = replay_from-append e e.event xs ys s h

  status-step : (s : RunSnapshot F) (e : EventData F) → (step s e).status ≡ status_after s.status e
  unfolding step status_after
  status-step s (run_started n) = refl
  status-step s _ = refl

  attempt-step :
      (s : RunSnapshot F) (e : EventData F) → (step s e).attempt ≡ attempt_after s.attempt e
  unfolding step attempt_after
  attempt-step s (run_started n) = refl
  attempt-step s _ = refl

  definition-step : (s : RunSnapshot F) (e : EventData F) → (step s e).definition ≡ s.definition
  unfolding step
  definition-step s (run_started n) = refl
  definition-step s _ = refl

  run_id-step : (s : RunSnapshot F) (e : EventData F) → (step s e).run_id ≡ s.run_id
  unfolding step
  run_id-step s (run_started n) = refl
  run_id-step s _ = refl

  abbrev events_of : List (StoredEvent F) → List (EventData F)
  events_of = map (λ e. e.event)

  pub status-steps :
      (s : RunSnapshot F) (es : List (StoredEvent F))
      → (steps s es).status ≡ status_of s.status (map (λ e. e.event) es)
  unfolding steps
  status-steps s [] = refl
  status-steps s (e ∷ es) =
      status-steps (step s e.event) es
      ∙ ap (λ x. status_of x (map (λ e. e.event) es)) (status-step s e.event)

  pub attempt-steps :
      (s : RunSnapshot F) (es : List (StoredEvent F))
      → (steps s es).attempt ≡ attempt_of s.attempt (map (λ e. e.event) es)
  unfolding steps
  attempt-steps s [] = refl
  attempt-steps s (e ∷ es) =
      attempt-steps (step s e.event) es
      ∙ ap (λ x. attempt_of x (map (λ e. e.event) es)) (attempt-step s e.event)

  pub definition-steps :
      (s : RunSnapshot F) (es : List (StoredEvent F)) → (steps s es).definition ≡ s.definition
  unfolding steps
  definition-steps s [] = refl
  definition-steps s (e ∷ es) = definition-steps (step s e.event) es ∙ definition-step s e.event

  pub run_id-steps :
      (s : RunSnapshot F) (es : List (StoredEvent F)) → (steps s es).run_id ≡ s.run_id
  unfolding steps
  run_id-steps s [] = refl
  run_id-steps s (e ∷ es) = run_id-steps (step s e.event) es ∙ run_id-step s e.event

  version-step : (s : RunSnapshot F) (e : EventData F) → (step s e).version ≡ s.version
  unfolding step
  version-step s (run_started n) = refl
  version-step s _ = refl

  version-steps : (s : RunSnapshot F) (es : List (StoredEvent F)) → (steps s es).version ≡ s.version
  unfolding steps
  version-steps s [] = refl
  version-steps s (e ∷ es) = version-steps (step s e.event) es ∙ version-step s e.event

  -- What replays is a valid snapshot of its run, with the version of its last event.
  pub record IsReplay (e : StoredEvent F) (es : List (StoredEvent F)) (s : RunSnapshot F)
      : Type 0 where
    pub in_bounds : in_bounds s ≡ true
    pub run_id : s.run_id ≡ e.run_id
    pub version : s.version ≡ last_sequence e es

  validate-in_bounds :
      (x : RunSnapshot F) {s : RunSnapshot F} → validate x ≡ some s → in_bounds s ≡ true
  unfolding validate
  validate-in_bounds x h = elim (Bool-cases (in_bounds x)) [
    | inl good ↦ rw (← validate-eq_some x h) good
    | inr bad ↦ absurd (ground arith)
  ]

  replay_from-IsReplay :
      (e : StoredEvent F) (first : EventData F) (es : List (StoredEvent F)) (s : RunSnapshot F)
      → replay_from e first es ≡ some s
      → IsReplay e es s
  unfolding replay_from initial
  replay_from-IsReplay e (run_created d) es s h =
      let start = initial e d (last_sequence e es) in
      let same = validate-eq_some (steps start es) h in
      record {
        in_bounds = validate-in_bounds (steps start es) h;
        run_id = ap (λ (x : RunSnapshot F). x.run_id) (sym same) ∙ run_id-steps start es;
        version = ap (λ (x : RunSnapshot F). x.version) (sym same) ∙ version-steps start es;
      }
  replay_from-IsReplay e _ es s h = cc

  pub replay-IsReplay :
      (e : StoredEvent F) (es : List (StoredEvent F)) (s : RunSnapshot F)
      → replay (e ∷ es) ≡ some s
      → IsReplay e es s
  unfolding replay
  replay-IsReplay e es s h = replay_from-IsReplay e e.event es s h
