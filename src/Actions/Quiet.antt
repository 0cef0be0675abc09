-- ===== src/Actions/Quiet.antt =====
-- What `SupervisorActionRouter.handle` of src/loopgraph_supervisor/application/actions.py leaves
-- alone: the status of the run that it acts for, and the active version of every agent.
use loopgraph_supervisor.Prelude.{ℕ, false, not, String, str_eq, Option, none, some, ◌==◌}
use loopgraph_supervisor.Floats.{Floats}
use loopgraph_supervisor.Domain.Models.{AgentBundle}
use loopgraph_supervisor.Domain.Directives.{
  SupervisorDirectiveAction, spawn_subagent, propose_mutation, SupervisorDirective,
  ObservationContext,
}
use loopgraph_supervisor.Observer
use loopgraph_supervisor.Observer.{truthy}
use loopgraph_supervisor.Versions
use loopgraph_supervisor.Versions.Tables.{AgentVersion}
use loopgraph_supervisor.Versions.Records.{VersionCalls}
use loopgraph_supervisor.Versions.{create_candidate}
use loopgraph_supervisor.Evolution.Mutator.{MutationPlan, apply}
use loopgraph_supervisor.Engine.Exec.{value_error, Result, ok, err}
use loopgraph_supervisor.Engine.Config.{Supervisor}
use loopgraph_supervisor.Runtime.{Runtime, with_versions}
use loopgraph_supervisor.Team.{ChildAgentSpec, spawn}
use loopgraph_supervisor.Actions.{
  ActionOutcome, ActionCalls, validated_model, mutation_result, is_other_parent, plan_of,
  propose_from, propose, raw_spec, start_flag, delegate_child, handle_action, handle,
}
use loopgraph_supervisor.Prelude.{
  [], append-nil, ◌≡◌, refl, sym, ◌∙◌, subst, any, Bool-cases, Option-cases, inl, inr,
}
use loopgraph_supervisor.EventStore.{Table}
use loopgraph_supervisor.EventStore.Streams.{IsNumbered, view}
use loopgraph_supervisor.Engine.Exec.{map-state, Result-cases}
use loopgraph_supervisor.Engine.Config.{Handler}
use loopgraph_supervisor.Engine.Keeps.{
  Keeps, Keeps-pure, Keeps-raise, Keeps-lift, Keeps-bind, Keeps-if,
}
use loopgraph_supervisor.Engine.Phase.{Quietly}
use loopgraph_supervisor.Engine.Emit.Quiet.{HandlerIsQuiet}
use loopgraph_supervisor.Versions.{candidate_of}
use loopgraph_supervisor.Versions.Tables.{find_version, VersionStore}
use loopgraph_supervisor.Versions.Records.{versions_for_agent}
use loopgraph_supervisor.Team.Store.{spawn-Keeps}
use loopgraph_supervisor.Team.Capacity.{spawn-Quietly}

module _ {F : Type 0} where
  -- The pointers to the active versions and their history are those of another state.
  pub record SameActive (v v' : VersionStore F) : Type 0 where
    pub pointers : v'.pointers ≡ v.pointers
    pub history : v'.history ≡ v.history

  -- And the event table is.
  pub record Untouched (st st' : Runtime F) : Type 0 where
    pub table : st'.table ≡ st.table
    pub active : SameActive st.versions st'.versions

  candidate_of-SameActive :
      (calls : VersionCalls F) (id : ℕ) (b : AgentBundle F) (actor summary : String)
      (v : VersionStore F) (parent : AgentVersion F)
      → SameActive v (candidate_of calls id b actor summary v parent).1
  unfolding candidate_of
  candidate_of-SameActive calls id b actor summary v parent =
      elim (Bool-cases (not (str_eq parent.agent_name b.name))) [
        | inl other ↦ rw (candidate_of, other) (record { pointers = refl; history = refl })
        | inr same ↦
            elim (Bool-cases (
              any (λ v. str_eq v.fingerprint (calls.fingerprint b))
                (versions_for_agent b.name v))) [
                  | inl known ↦
                      rw (candidate_of, same, known) (record { pointers = refl; history = refl })
                  | inr new ↦
                      rw (candidate_of, same, new) (record { pointers = refl; history = refl })
                ]
      ]

  create_candidate-SameActive :
      (calls : VersionCalls F) (id : ℕ) (b : AgentBundle F) (actor summary : String)
      (v : VersionStore F)
      → SameActive v (create_candidate calls id b actor summary v).1
  unfolding create_candidate
  create_candidate-SameActive calls id b actor summary v =
      elim (Option-cases (find_version id v.versions)) [
        | inl missing ↦ rw (create_candidate, missing) (record { pointers = refl; history = refl })
        | inr (parent, found) ↦
            rw (create_candidate, found) (candidate_of-SameActive calls id b actor summary v parent)
      ]

module _ {F : Type 0} (calls : ActionCalls F) (st₀ : Runtime F) where
  create-Keeps :
      (id : ℕ) (b : AgentBundle F) (summary : String)
      → Keeps
          (Untouched st₀)
          (with_versions (create_candidate calls.versions id b "supervisor-agent" summary))
  unfolding with_versions
  create-Keeps id b summary = record {
    at = λ st h.
        let c =
          create_candidate-SameActive calls.versions id b "supervisor-agent" summary st.versions in
        record {
          table = h.table;
          active = record {
            pointers = c.pointers ∙ h.active.pointers;
            history = c.history ∙ h.active.history;
          };
        };
  }

  propose_from-Keeps :
      (context : ObservationContext F) (plan : MutationPlan F) (parent : AgentVersion F)
      → Keeps (Untouched st₀) (propose_from calls context plan parent)
  unfolding propose_from
  propose_from-Keeps context plan parent =
      let fingerprint = calls.versions.fingerprint in
      Keeps-if (not (str_eq (fingerprint parent.bundle) (fingerprint context.agent_bundle))) _ _
        (Keeps-raise value_error)
        (Keeps-bind _ _ (Keeps-lift (mutation_result (apply fingerprint parent.bundle plan))) λ b.
          Keeps-bind _ _ (create-Keeps parent.id b plan.rationale)
            λ (c : AgentVersion F). Keeps-pure _)

  get-Keeps : (id : ℕ) → Keeps (Untouched st₀) (with_versions (λ v. (Versions.get id v, v)))
  unfolding with_versions
  get-Keeps id = record { at = λ st h. h }

  propose-Keeps :
      (context : ObservationContext F) (directive : SupervisorDirective F) (version : Option ℕ)
      → Keeps (Untouched st₀) (propose calls context directive version)
  unfolding propose
  propose-Keeps context directive none = Keeps-raise _
  propose-Keeps context directive (some parent_id) =
      let asked = Observer.get "parent_version_id" directive.payload in
      Keeps-if (is_other_parent calls.parse_id asked parent_id) _ _ (Keeps-raise value_error) (
        Keeps-bind _ _ (Keeps-lift (plan_of calls (Observer.get "plan" directive.payload))) λ plan.
          Keeps-bind _ _ (get-Keeps parent_id) λ parent. propose_from-Keeps context plan parent)

module _ {F : Type 0} ⦃fl : Floats F⦄ (s : Supervisor F) (calls : ActionCalls F) where
  delegated :
      (context : ObservationContext F) (directive : SupervisorDirective F) (st : Runtime F)
      → SameActive st.versions (delegate_child s calls context directive st).1.versions
  unfolding delegate_child
  delegated context directive st =
      let kept = Keeps-bind {P = λ x. x.versions ≡ st.versions} _ _ (Keeps-lift _) λ child.
        Keeps-bind _ _
          (spawn-Keeps s calls.team st.versions context.run_id child "supervisor-agent" _)
          λ id. Keeps-pure _ in
      subst (SameActive st.versions) (sym (kept.at st refl))
        (record { pointers = refl; history = refl })

  untouched : (st : Runtime F) → Untouched st st
  untouched st = record { table = refl; active = record { pointers = refl; history = refl } }

  action-SameActive :
      (context : ObservationContext F) (directive : SupervisorDirective F)
      (action : SupervisorDirectiveAction) (st : Runtime F)
      → SameActive st.versions (handle_action s calls context directive action st).1.versions
  unfolding handle_action
  action-SameActive context directive spawn_subagent st = delegated context directive st
  action-SameActive context directive propose_mutation st =
      ((propose-Keeps calls st context directive context.agent_version_id).at st
        (untouched st)).active
  action-SameActive context directive _ st = (untouched st).active

  -- No directive of a Supervisor Agent, however its handling ends, moves an agent's pointer to its
  -- active version or adds to the history of activations.
  pub handle-SameActive :
      (context : ObservationContext F) (directive : SupervisorDirective F) (st : Runtime F)
      → SameActive st.versions (handle s calls context directive st).1.versions
  unfolding handle
  handle-SameActive context directive st = action-SameActive context directive directive.action st

  abbrev settled : Result F ActionOutcome → Result F (Unit {0})
  settled (ok outcome) = ok tt
  settled (err e) = err e

  -- The router as the engine's action handler, at a state of the other stores and the tasks.
  pub router : Runtime F → Handler F
  router st context directive t =
      let (r, st') = handle s calls context directive (record st { table = t }) in
      (settled r, st'.table)

  nothing : (run : ℕ) (t : Table F) → IsNumbered t → Quietly run t t
  nothing run t w = record {
    new = [];
    numbered = w;
    grown = sym (append-nil (view t run));
    quiet = tt;
  }

  abbrev spawned_child : ℕ → ActionOutcome
  spawned_child id = record {
    action = spawn_subagent;
    child_run_id = some id;
    candidate_version_id = none;
  }

  action-Quietly :
      (context : ObservationContext F) (directive : SupervisorDirective F)
      (action : SupervisorDirectiveAction) (st : Runtime F)
      → (calls.team.child_id == context.run_id) ≡ false
      → IsNumbered st.table
      → Quietly context.run_id st.table (handle_action s calls context directive action st).1.table
  unfolding handle_action delegate_child
  action-Quietly context directive spawn_subagent st apart w =
      let checked : Result F (ChildAgentSpec F) =
        validated_model (
          calls.child_spec (raw_spec (Observer.get "child" directive.payload) directive.payload)) in
      let flag = start_flag (Observer.get "start" directive.payload) in
      elim (Result-cases checked) [
        | inr (e, bad) ↦ rw bad (nothing context.run_id st.table w)
        | inl (child, good) ↦
            let m = spawn s calls.team context.run_id child "supervisor-agent" flag in
            rw good (
              subst (λ x. Quietly context.run_id st.table x.table)
                (sym (map-state m spawned_child st))
                (spawn-Quietly s calls.team context.run_id child "supervisor-agent" flag st apart
                  w))
      ]
  action-Quietly context directive propose_mutation st apart w =
      let kept =
        (propose-Keeps calls st context directive context.agent_version_id).at st (untouched st) in
      subst (Quietly context.run_id st.table) (sym kept.table) (nothing context.run_id st.table w)
  action-Quietly context directive _ st apart w = nothing context.run_id st.table w

  -- At every state of the stores and the tasks, and for a child with an id other than the run's, the
  -- router is an action handler as the engine's theorems want it: for a context of the run it adds to
  -- the run's stream, where the streams are numbered, only events that leave the status and the
  -- attempt alone.
  pub router-IsQuiet :
      (st : Runtime F) (run : ℕ)
      → (calls.team.child_id == run) ≡ false
      → HandlerIsQuiet run (some (router st))
  unfolding router handle
  router-IsQuiet st run apart context directive t mine w =
      subst (λ i. Quietly i t (router st context directive t).1) mine
        (action-Quietly context directive directive.action (record st { table = t }) (rw mine apart)
          w)
