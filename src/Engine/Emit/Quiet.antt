-- ===== src/Engine/Emit/Quiet.antt =====
-- What the event sink appends while a harness runs moves neither the status of the run nor its
-- attempt.
use loopgraph_supervisor.Prelude.{
  ℕ, ◌≡◌, refl, Bool, true, false, not, Option, none, some, List, [], ◌∷◌, ◌++◌, map, all,
  if◌then◌else◌,
}
use loopgraph_supervisor.Floats.{Floats}
use loopgraph_supervisor.Domain.Models.{Hint}
use loopgraph_supervisor.Domain.Directives.{
  HarnessEvent, HintDraft, SupervisorDirective, ObservationContext,
}
use loopgraph_supervisor.Domain.Runs.{RunStatus}
use loopgraph_supervisor.Domain.Events.{
  NewEvent, agent_event, hint_published, supervisor_action_completed, supervisor_action_failed,
}
use loopgraph_supervisor.Domain.Snapshot.{is_step}
use loopgraph_supervisor.Security.Redaction.{redact_fields}
use loopgraph_supervisor.EventStore.{Table}
use loopgraph_supervisor.EventStore.Streams.{IsNumbered}
use loopgraph_supervisor.Engine.Exec.{
  control_signal, safe_error, Result, Exec, pure, raise, modify, ◌>>◌,
}
use loopgraph_supervisor.Engine.Config.{Supervisor, Handler}
use loopgraph_supervisor.Engine.Keeps.{
  Keeps, Keeps-pure, Keeps-raise, Keeps-lift, Keeps-bind, Keeps-settle, Keeps-get, Keeps-modify,
  Keeps-when, Keeps-if,
}
use loopgraph_supervisor.Engine.Phase.{
  Phase, Phase-trans, is_quiet, Quietly, Quietly-Phase, append-Quietly,
}
use loopgraph_supervisor.Engine.Emit.{
  Attempt, AttemptState, is_advice, is_delegated, is_control, on_table, record_events, count_step,
  announce, new_hints, publish, action_failure, delegate, perform, obey, supervise, observe, emit,
}

module _ {F : Type 0} where
  -- For a context of the run, an action handler adds to the run's stream only events that leave the
  -- status and the attempt alone.
  abbrev pub HandlerIsQuiet : ℕ → Option (Handler F) → Type 0
  HandlerIsQuiet run none = Unit
  HandlerIsQuiet run (some handle) =
      (context : ObservationContext F) (d : SupervisorDirective F) (t : Table F)
      → context.run_id ≡ run
      → IsNumbered t
      → Quietly run t (handle context d t).1

module _ {F : Type 0} (c : Supervisor F) (a : Attempt F)
    (handler : HandlerIsQuiet a.run_id c.action_handler) (t₀ : Table F) (s₀ : RunStatus) (n₀ : ℕ)
    (s : RunStatus) (n : ℕ) where
  abbrev pub Here : AttemptState F → Type 0
  Here st = Phase a.run_id t₀ s₀ n₀ st.table s n

  events-Keeps :
      (events : List (NewEvent F))
      → all is_quiet events ≡ true
      → Keeps Here (record_events c a events)
  unfolding record_events on_table
  events-Keeps events h = record {
    at = λ st p.
        Phase-trans p (Quietly-Phase s n (append-Quietly c a.run_id events st.table h p.numbered));
  }

  handle-Keeps :
      (handle : Handler F) (context : ObservationContext F) (d : SupervisorDirective F)
      → HandlerIsQuiet a.run_id (some handle)
      → context.run_id ≡ a.run_id
      → Keeps Here (on_table (handle context d))
  unfolding on_table
  handle-Keeps handle context d q mine = record {
    at = λ st p. Phase-trans p (Quietly-Phase s n (q context d st.table mine p.numbered));
  }

  step-Keeps :
      (b : Bool) (st : AttemptState F) (x y : Result F (Unit {0}) × AttemptState F)
      → Here x.1
      → Here y.1
      → Here (if b then x else y).1
  step-Keeps true st x y h k = h
  step-Keeps false st x y h k = k

  count_step-Keeps : (event : HarnessEvent F) → Keeps Here (count_step a event)
  unfolding count_step
  count_step-Keeps event = record { at = λ st p. step-Keeps (is_step event.type) st _ _ p p }

  hints-quiet : (hs : List Hint) → all (is_quiet {F = F}) (map hint_published hs) ≡ true
  hints-quiet [] = refl
  hints-quiet (h ∷ hs) = hints-quiet hs

  announce-Keeps : (hs : List Hint) → Keeps Here (announce c a hs)
  unfolding announce
  announce-Keeps [] = Keeps-pure tt
  announce-Keeps (h ∷ hs) =
      Keeps-bind _ _ (Keeps-modify _ (λ st p. p))
        (λ _. events-Keeps (map hint_published (h ∷ hs)) (hints-quiet (h ∷ hs)))

  publish-Keeps : (drafts : List HintDraft) → Keeps Here (publish c a drafts)
  unfolding publish
  publish-Keeps drafts = Keeps-bind _ _ Keeps-get (λ st.
      Keeps-bind _ _ (announce-Keeps (new_hints a st.published_hint_keys drafts))
        (λ _. Keeps-pure _))

  delegate-Keeps :
      (handle : Handler F) (context : ObservationContext F) (d : SupervisorDirective F)
      → HandlerIsQuiet a.run_id (some handle)
      → context.run_id ≡ a.run_id
      → Keeps Here (delegate c a handle context d)
  unfolding delegate
  delegate-Keeps handle context d q mine = record {
    at = λ st p.
        let m : Exec F (AttemptState F) (Unit {0}) =
          on_table (handle context d)
          >> record_events c a (supervisor_action_completed d.action ∷ []) in
        let tried : Keeps Here m =
          Keeps-bind _ _ (handle-Keeps handle context d q mine) (λ _. events-Keeps _ refl) in
        (Keeps-settle (m st).0 pure
            (λ e.
              record_events c a (supervisor_action_failed d.action (safe_error e) ∷ [])
              >> raise (control_signal (action_failure d.action e)))
            (λ x. Keeps-pure x) (λ e. Keeps-bind _ _ (events-Keeps _ refl) (λ _. Keeps-raise _))).at
          (m st).1 (tried.at st p);
  }

  perform-Keeps :
      (context : ObservationContext F) (d : SupervisorDirective F) (h : Option (Handler F))
      → HandlerIsQuiet a.run_id h
      → context.run_id ≡ a.run_id
      → Keeps Here (perform c a context d h)
  unfolding perform
  perform-Keeps context d none q mine = Keeps-pure tt
  perform-Keeps context d (some handle) q mine =
      Keeps-when (is_delegated d.action) _ (delegate-Keeps handle context d q mine)

  obey-Keeps :
      (context : ObservationContext F) (d : SupervisorDirective F)
      → context.run_id ≡ a.run_id
      → Keeps Here (obey c a context d)
  unfolding obey
  obey-Keeps context d mine = Keeps-bind _ _ (events-Keeps _ refl) λ _.
      Keeps-bind _ _ (publish-Keeps d.hints) λ hints.
        Keeps-bind _ _ (Keeps-when (not (is_advice d.action)) _ (events-Keeps _ refl)) λ _.
          Keeps-bind _ _ (perform-Keeps context d c.action_handler handler mine) λ _.
            Keeps-bind _ _ (Keeps-when (is_control d.action) _ (Keeps-raise _)) λ _. Keeps-pure _

  supervise-Keeps :
      (review : ObservationContext F → Result F (SupervisorDirective F))
      → Keeps Here (supervise c a review)
  unfolding supervise
  supervise-Keeps review =
      Keeps-bind _ _ Keeps-get λ st. Keeps-bind _ _ (Keeps-lift _) λ d. obey-Keeps _ d refl

  observe-Keeps :
      ⦃fl : Floats F⦄ (event : HarnessEvent F)
      (advisor : Option (ObservationContext F → Result F (SupervisorDirective F)))
      → Keeps Here (observe c a event advisor)
  unfolding observe
  observe-Keeps event none = Keeps-pure []
  observe-Keeps event (some review) =
      Keeps-bind _ _ Keeps-get λ st. Keeps-if _ _ _ (supervise-Keeps review) (Keeps-pure [])

  pub emit-Keeps : ⦃fl : Floats F⦄ (raw : HarnessEvent F) → Keeps Here (emit c a raw)
  unfolding emit
  emit-Keeps raw =
      let event : HarnessEvent F = record raw {
        content = redact_fields c.redaction_policy raw.content;
      } in
      let note : AttemptState F → AttemptState F =
        λ st. record st { observed_events = st.observed_events ++ event ∷ [] } in
      Keeps-bind (modify note) _ (Keeps-modify note (λ st p. p)) λ _.
        Keeps-bind _ _ (events-Keeps (agent_event event ∷ []) refl)
          λ _. Keeps-bind _ _ (count_step-Keeps event) λ _. observe-Keeps event c.advisor
