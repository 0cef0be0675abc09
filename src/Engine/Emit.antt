-- ===== src/Engine/Emit.antt =====
-- The event sink `emit` of `_execute_attempt`, in src/loopgraph_supervisor/application/engine.py: an
-- event is redacted and appended, the step budget is checked, and the Supervisor Agent is asked where
-- the observation policy says so.
pub mod Quiet
use Prim.Native.String.{◌++◌ as str_append}
use loopgraph_supervisor.Prelude.{
  ℕ, suc, ◌+◌, ◌-◌, Bool, true, false, not, String, Option, none, some, List, [], ◌∷◌, ◌++◌, map,
  ltb, keep, contains, length, drop, if◌then◌else◌,
}
use loopgraph_supervisor.Floats.{Floats}
use loopgraph_supervisor.Domain.Json.{end}
use loopgraph_supervisor.Domain.Models.{Hint}
use loopgraph_supervisor.Domain.Directives.{
  HarnessEvent, HintDraft, SupervisorDirective, SupervisorDirectiveAction, ObservationContext,
  continue, inject_hint, pause, request_human, spawn_subagent, propose_mutation, abort,
}
use loopgraph_supervisor.Domain.Runs.{RunDefinition}
use loopgraph_supervisor.Domain.Events.{
  EventData, NewEvent, steps, agent_event, supervisor_reviewed, hint_published,
  supervisor_action_requested, supervisor_action_completed, supervisor_action_failed,
}
use loopgraph_supervisor.Domain.Snapshot.{is_step}
use loopgraph_supervisor.Security.Redaction.{redact_fields}
use loopgraph_supervisor.EventStore.{Table}
use loopgraph_supervisor.Observer.{should_review}
use loopgraph_supervisor.Engine.Exec.{
  Exception, budget_exceeded, control_signal, type_name, safe_error, Result, ok, err, Exec, pure,
  raise, lift, get, modify, when, settle, ◌>>=◌, ◌>>◌,
}
use loopgraph_supervisor.Engine.Config.{Supervisor, Handler}
use loopgraph_supervisor.Engine.Runs.{append}

-- What an attempt is about.
pub record Attempt (F : Type 0) : Type 0 where
  pub run_id : ℕ
  pub attempt : ℕ
  pub definition : RunDefinition F
  pub inline_delivery : Bool

-- The store, and the variables that `emit` shares with the attempt; `trajectory` is the dump of
-- `observed_events`.
pub record AttemptState (F : Type 0) : Type 0 where
  pub table : Table F
  pub observed_events : List (HarnessEvent F)
  pub published_hint_keys : List String
  pub attempt_steps : ℕ

-- The actions that the event of the request is left out for, those that go to the handler, and those
-- that end the attempt.
unfoldable pub is_advice : SupervisorDirectiveAction → Bool
is_advice continue = true
is_advice inject_hint = true
is_advice _ = false

unfoldable pub is_delegated : SupervisorDirectiveAction → Bool
is_delegated spawn_subagent = true
is_delegated propose_mutation = true
is_delegated _ = false

unfoldable pub is_control : SupervisorDirectiveAction → Bool
is_control pause = true
is_control request_human = true
is_control abort = true
is_control _ = false

unfoldable pub action_value : SupervisorDirectiveAction → String
action_value continue = "continue"
action_value inject_hint = "inject_hint"
action_value pause = "pause"
action_value request_human = "request_human"
action_value spawn_subagent = "spawn_subagent"
action_value propose_mutation = "propose_mutation"
action_value abort = "abort"

module _ {F : Type 0} where
  unfoldable pub on_table : {A : Type 0} → Exec F (Table F) A → Exec F (AttemptState F) A
  on_table m st = let (r, t) = m st.table in (r, record st { table = t })

  unfoldable pub record_events :
      Supervisor F → Attempt F → List (NewEvent F) → Exec F (AttemptState F) (Unit {0})
  record_events s a events = on_table (append s a.run_id events)

  unfoldable pub count_step : Attempt F → HarnessEvent F → Exec F (AttemptState F) (Unit {0})
  count_step a event st =
      let limit = a.definition.supervisor_policy.max_steps_per_attempt in
      let n = st.attempt_steps + 1 in
      if is_step event.type
      then (
        if ltb limit n then err (budget_exceeded (steps n limit)) else ok tt,
        record st { attempt_steps = n },
      )
      else (ok tt, st)

  unfoldable pub make_hint : Attempt F → HintDraft → Hint
  make_hint a draft = record {
    run_id = a.run_id;
    target = draft.target;
    priority = draft.priority;
    instruction = draft.instruction;
    reason = draft.reason;
    evidence = draft.evidence;
    created_at_step = if a.inline_delivery then a.attempt else a.attempt + 1;
    expires_after_steps = draft.expires_after_steps;
    deduplication_key = draft.deduplication_key;
  }

  -- `if hints: …`
  unfoldable pub announce :
      Supervisor F → Attempt F → List Hint → Exec F (AttemptState F) (Unit {0})
  announce s a [] = pure tt
  announce s a (h ∷ hs) = do
    modify (λ st. record st {
      published_hint_keys = map (λ x. x.deduplication_key) (h ∷ hs) ++ st.published_hint_keys;
    })
    record_events s a (map hint_published (h ∷ hs))

  unfoldable pub new_hints : Attempt F → List String → List HintDraft → List Hint
  new_hints a published drafts =
      map (make_hint a) (keep (λ d. not (contains d.deduplication_key published)) drafts)

  unfoldable pub publish :
      Supervisor F → Attempt F → List HintDraft → Exec F (AttemptState F) (List Hint)
  publish s a drafts = do
    st ← get
    let hints = new_hints a st.published_hint_keys drafts
    announce s a hints
    pure hints

  -- The directive of the control signal that a failed action raises.
  unfoldable pub action_failure : SupervisorDirectiveAction → Exception F → SupervisorDirective F
  action_failure action e = record {
    action = request_human;
    rationale =
        str_append "Supervisor action "
          (str_append (action_value action) (str_append " failed: " (type_name e)));
    hints = [];
    payload = end;
  }

  unfoldable pub delegate :
      Supervisor F
      → Attempt F
      → Handler F
      → ObservationContext F
      → SupervisorDirective F
      → Exec F (AttemptState F) (Unit {0})
  delegate s a handle context d st =
      let (result, st') =
        (do
          on_table (handle context d)
          record_events s a (supervisor_action_completed d.action ∷ []))
          st in
      settle result pure
        (λ e. do
          record_events s a (supervisor_action_failed d.action (safe_error e) ∷ [])
          raise (control_signal (action_failure d.action e)))
        st'

  unfoldable pub perform :
      Supervisor F
      → Attempt F
      → ObservationContext F
      → SupervisorDirective F
      → Option (Handler F)
      → Exec F (AttemptState F) (Unit {0})
  perform s a context d none = pure tt
  perform s a context d (some handle) = when (is_delegated d.action) (delegate s a handle context d)

  -- What follows a directive; the result is what the sink returns to the harness.
  unfoldable pub obey :
      Supervisor F
      → Attempt F
      → ObservationContext F
      → SupervisorDirective F
      → Exec F (AttemptState F) (List Hint)
  obey s a context d = do
    record_events s a (supervisor_reviewed d ∷ [])
    hints ← publish s a d.hints
    when (not (is_advice d.action)) (record_events s a (supervisor_action_requested d ∷ []))
    perform s a context d s.action_handler
    when (is_control d.action) (raise (control_signal d))
    pure (if a.inline_delivery then hints else [])

  -- `observed_events[-window:]`
  abbrev last_events : ℕ → List (HarnessEvent F) → List (HarnessEvent F)
  last_events window events = drop (length events - window) events

  unfoldable pub supervise :
      Supervisor F
      → Attempt F
      → (ObservationContext F → Result F (SupervisorDirective F))
      → Exec F (AttemptState F) (List Hint)
  supervise s a review = do
    st ← get
    let context : ObservationContext F = record {
      run_id = a.run_id;
      attempt = a.attempt;
      goal = a.definition.goal;
      agent_bundle = a.definition.agent_bundle;
      agent_version_id = a.definition.agent_version_id;
      recent_events = last_events s.observation_policy.event_window st.observed_events;
    }
    directive ← lift (review context)
    obey s a context directive

module _ {F : Type 0} ⦃fl : Floats F⦄ where
  unfoldable pub observe :
      Supervisor F
      → Attempt F
      → HarnessEvent F
      → Option (ObservationContext F → Result F (SupervisorDirective F))
      → Exec F (AttemptState F) (List Hint)
  observe s a event none = pure []
  observe s a event (some review) = do
    st ← get
    if should_review s.observation_policy st.observed_events event
        then supervise s a review
        else pure []

  unfoldable pub emit :
      Supervisor F → Attempt F → HarnessEvent F → Exec F (AttemptState F) (List Hint)
  emit s a raw = do
    let event : HarnessEvent F = record raw {
      content = redact_fields s.redaction_policy raw.content;
    }
    modify (λ st. record st { observed_events = st.observed_events ++ event ∷ [] })
    record_events s a (agent_event event ∷ [])
    count_step a event
    observe s a event s.advisor
