-- ===== src/Domain/Snapshot/Summary.antt =====
-- `RunSnapshot.replay` of src/loopgraph_supervisor/domain/runs.py against a summary of the stream that
-- has no loop over states: each field is read off the events that concern it.
use loopgraph_supervisor.Prelude.{
  ℕ, suc, ◌+◌, pos, ◌+ℤ◌, ◌≡◌, refl, sym, ◌∙◌, ap, Bool, true, false, String, Option, none, some,
  List, [], ◌∷◌, ◌++◌, map, count, if◌then◌else◌, arith, append-nil, append_assoc,
}
use loopgraph_supervisor.Floats.{Floats}
use loopgraph_supervisor.Domain.Models.{Hint}
use loopgraph_supervisor.Domain.Directives.{ExecutionResult}
use loopgraph_supervisor.Domain.Runs.{
  RunDefinition, RunStatus, created, running, evaluating, retry_scheduled, waiting_human, paused,
  succeeded, failed, cancelled,
}
use loopgraph_supervisor.Domain.Events.{
  EventData, StoredEvent, run_created, run_started, agent_event, agent_execution_completed,
  evaluation_started, evaluation_completed, hint_published, run_retry_scheduled, run_waiting_human,
  run_paused, run_resumed, run_recovered, run_succeeded, run_failed, run_cancelled,
}
use loopgraph_supervisor.Domain.Snapshot.{
  RunSnapshot, is_step, step, steps, initial, validate, last_sequence, replay_from, replay,
}

-- The values that the items have, and the last one, if there is one.
abbrev pub collect {ℓ κ} : {A : Type ℓ} {B : Type κ} → (A → Option B) → List A → List B
collect f [] = []
collect f (x ∷ xs) = let rest = collect f xs in elim (f x) [ none ↦ rest | some y ↦ y ∷ rest ]

abbrev pub last_or {ℓ} : {A : Type ℓ} → A → List A → A
last_or a [] = a
last_or a (x ∷ xs) = last_or x xs

abbrev pub added_up {ℓ κ} : {A : Type ℓ} {B : Type κ} → (A → B → A) → A → List B → A
added_up f a [] = a
added_up f a (x ∷ xs) = added_up f (f a x) xs

-- What an event says of a field.
module _ {F : Type 0} where
  abbrev pub status_in : EventData F → Option RunStatus
  status_in (run_started n) = some running
  status_in (evaluation_started n) = some evaluating
  status_in (evaluation_completed d) = some evaluating
  status_in (run_retry_scheduled n) = some retry_scheduled
  status_in (run_waiting_human r) = some waiting_human
  status_in (run_paused r) = some paused
  status_in (run_resumed a r n) = some retry_scheduled
  status_in (run_recovered a s n) = some retry_scheduled
  status_in (run_succeeded h) = some succeeded
  status_in (run_failed r) = some failed
  status_in run_cancelled = some cancelled
  status_in _ = none

  abbrev pub attempt_in : EventData F → Option ℕ
  attempt_in (run_started n) = some n
  attempt_in _ = none

  abbrev pub result_in : EventData F → Option (ExecutionResult F)
  result_in (agent_execution_completed n r) = some r
  result_in _ = none

  abbrev pub score_in : EventData F → Option F
  score_in (evaluation_completed d) = some d.score
  score_in _ = none

  abbrev pub hint_in : EventData F → Option Hint
  hint_in (hint_published h) = some h
  hint_in _ = none

  abbrev pub override_in : EventData F → Option Bool
  override_in (run_succeeded h) = some h
  override_in _ = none

  abbrev pub error_in : EventData F → Option String
  error_in (run_failed r) = some r
  error_in _ = none

  abbrev pub is_step_event : EventData F → Bool
  is_step_event (agent_event e) = is_step e.type
  is_step_event _ = false

counted :
    (b : Bool) (n rest : ℕ) → (if b then n + 1 else n) + rest ≡ n + (if b then suc rest else rest)
counted true n rest = omega arith
counted false n rest = refl

nothing_more : (n : ℕ) → n ≡ n + 0
nothing_more n = omega arith

from_zero : (n : ℕ) → 0 + n ≡ n
from_zero n = omega arith

module _ {F : Type 0} ⦃fl : Floats F⦄ where
  -- What the events add to a snapshot.
  abbrev extended : RunSnapshot F → List (EventData F) → RunSnapshot F
  extended s es = record s {
    status = last_or s.status (collect status_in es);
    attempt = last_or s.attempt (collect attempt_in es);
    last_output = last_or s.last_output (map (λ r. some r.output) (collect result_in es));
    last_score = last_or s.last_score (map some (collect score_in es));
    hints = s.hints ++ collect hint_in es;
    human_override = last_or s.human_override (collect override_in es);
    error = last_or s.error (map some (collect error_in es));
    total_steps = s.total_steps + count is_step_event es;
    total_tokens = added_up (λ n r. n +ℤ r.tokens) s.total_tokens (collect result_in es);
    total_cost = added_up (λ c r. fl.add c r.cost) s.total_cost (collect result_in es);
  }

  extended-step :
      (s : RunSnapshot F) (e : EventData F) (es : List (EventData F))
      → extended (step s e) es ≡ extended s (e ∷ es)
  unfolding step
  extended-step s (agent_event e) es =
      ap (λ n. record (extended s es) { total_steps = n })
        (counted (is_step e.type) s.total_steps (count is_step_event es))
  extended-step s (hint_published h) es =
      ap (λ hs. record (extended s es) { hints = hs })
        (append_assoc s.hints (h ∷ []) (collect hint_in es))
  extended-step s (run_started n) es = refl
  extended-step s _ es = refl

  steps-extended :
      (s : RunSnapshot F) (es : List (StoredEvent F))
      → steps s es ≡ extended s (map (λ e. e.event) es)
  unfolding steps
  steps-extended s [] =
      ap (λ hs. record s { hints = hs }) (sym (append-nil s.hints))
      ∙ ap (λ n. record (extended s []) { total_steps = n }) (nothing_more s.total_steps)
  steps-extended s (e ∷ es) =
      steps-extended (step s e.event) es ∙ extended-step s e.event (map (λ e. e.event) es)

  -- The summary of a stream that begins with the creation of a run: status, attempt, output, score,
  -- override and error are those of the last event that has one, the hints all published ones in
  -- order, and steps, tokens and cost are counted over the whole stream.
  abbrev pub summary : StoredEvent F → RunDefinition F → List (StoredEvent F) → RunSnapshot F
  summary e definition es =
      let events = map (λ e. e.event) es in
      record {
        run_id = e.run_id;
        definition = definition;
        status = last_or created (collect status_in events);
        version = last_or e.sequence (map (λ e. e.sequence) es);
        attempt = last_or 0 (collect attempt_in events);
        last_output = last_or none (map (λ r. some r.output) (collect result_in events));
        last_score = last_or none (map some (collect score_in events));
        hints = collect hint_in events;
        human_override = last_or false (collect override_in events);
        error = last_or none (map some (collect error_in events));
        total_steps = count is_step_event events;
        total_tokens = added_up (λ n r. n +ℤ r.tokens) (pos 0) (collect result_in events);
        total_cost = added_up (λ c r. fl.add c r.cost) fl.zero (collect result_in events);
      }

  last_sequence_lem :
      (e : StoredEvent F) (es : List (StoredEvent F))
      → last_sequence e es ≡ last_or e.sequence (map (λ e. e.sequence) es)
  unfolding last_sequence
  last_sequence_lem e [] = refl
  last_sequence_lem e (f ∷ es) = last_sequence_lem f es

  steps-summary :
      (e : StoredEvent F) (d : RunDefinition F) (es : List (StoredEvent F))
      → steps (initial e d (last_sequence e es)) es ≡ summary e d es
  unfolding initial
  steps-summary e d es =
      let events = map (λ e. e.event) es in
      let found = extended (initial e d (last_sequence e es)) events in
      let n = count is_step_event events in
      steps-extended (initial e d (last_sequence e es)) es
      ∙ ap (λ m. record found { total_steps = m }) (from_zero n)
      ∙ ap (λ v. record found { total_steps = n; version = v }) (last_sequence_lem e es)

  replay_from-summary :
      (e : StoredEvent F) (d : RunDefinition F) (first : EventData F) (es : List (StoredEvent F))
      → first ≡ run_created d
      → replay_from e first es ≡ validate (summary e d es)
  unfolding replay_from
  replay_from-summary e d first es h = rw h (ap validate (steps-summary e d es))

  -- The replay of a stream that begins with the creation of a run is the summary of the stream, if it
  -- validates. In the summary the status, the attempt, the output, the score, the human override and
  -- the error are those of the last event that sets one, the hints are all that were published, in
  -- their order, the steps are counted over all events of an agent, tokens and cost are added up over
  -- all executions in their order, and the version is the last event's sequence.
  pub replay-summary :
      (e : StoredEvent F) (d : RunDefinition F) (es : List (StoredEvent F))
      → e.event ≡ run_created d
      → replay (e ∷ es) ≡ validate (summary e d es)
  unfolding replay
  replay-summary e d es h = replay_from-summary e d e.event es h
