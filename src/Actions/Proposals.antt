-- ===== src/Actions/Proposals.antt =====
-- The mutation that a Supervisor Agent proposes, `SupervisorActionRouter.handle` of
-- src/loopgraph_supervisor/application/actions.py: what a candidate is that it creates.
use loopgraph_supervisor.Prelude.{ℕ, String, str_eq, Option, none, some}
use loopgraph_supervisor.Floats.{Floats}
use loopgraph_supervisor.Domain.Models.{AgentBundle}
use loopgraph_supervisor.Domain.Directives.{
  propose_mutation, SupervisorDirective, ObservationContext,
}
use loopgraph_supervisor.Observer
use loopgraph_supervisor.Observer.{truthy}
use loopgraph_supervisor.Versions
use loopgraph_supervisor.Versions.Tables.{AgentVersion}
use loopgraph_supervisor.Versions.Records.{VersionCalls}
use loopgraph_supervisor.Versions.{create_candidate}
use loopgraph_supervisor.Evolution.Mutator.{
  MutationPlan, Mutation, mutated, not_allowed, no_mutation, apply,
}
use loopgraph_supervisor.Engine.Exec.{Result, ok, err, lift}
use loopgraph_supervisor.Engine.Config.{Supervisor}
use loopgraph_supervisor.Runtime.{Runtime, version_result, with_versions}
use loopgraph_supervisor.Actions.{
  ActionOutcome, ActionCalls, mutation_result, is_other_parent, plan_of, propose_from, propose,
  handle_action, handle,
}
use loopgraph_supervisor.Prelude.{
  ◌+◌, ◌≡◌, refl, sym, ◌∙◌, ap, subst, [], ◌∷◌, ◌++◌, any, Bool-cases, Option-cases, inl, inr,
  eq_iff,
}
use loopgraph_supervisor.Engine.Exec.{bind_returns}
use loopgraph_supervisor.Versions.{candidate_of}
use loopgraph_supervisor.Versions.Tables.{find_version, candidate, VersionStore}
use loopgraph_supervisor.Versions.Records
use loopgraph_supervisor.Versions.Records.{VersionResult, versions_for_agent, new_record, greatest}
use loopgraph_supervisor.Versions.Rows.{find_own}
use loopgraph_supervisor.Evolution.Mutator.Scope.{IsWithin, apply-IsWithin}

module _ {F : Type 0} where
  -- A new candidate among the versions: its row, the version that it comes from, and what it may
  -- change.
  pub record IsCandidateOf (parent row : AgentVersion F) : Type 0 where
    pub status : row.status ≡ candidate
    pub parent_id : row.parent_id ≡ some parent.id
    pub agent_name : row.agent_name ≡ parent.agent_name
    pub within : IsWithin parent.bundle.evolution_scope parent.bundle row.bundle

  candidate_of-ok :
      (calls : VersionCalls F) (b : AgentBundle F) (actor summary : String) (v v' : VersionStore F)
      (parent row : AgentVersion F)
      → IsWithin parent.bundle.evolution_scope parent.bundle b
      → candidate_of calls parent.id b actor summary v parent ≡ (Records.ok row, v')
      → IsCandidateOf parent row × (v'.versions ≡ v.versions ++ row ∷ [])
  unfolding candidate_of new_record
  candidate_of-ok calls b actor summary v v' parent row within h =
      elim (Bool-cases (str_eq parent.agent_name b.name)) [
        | inr other ↦ absurd (cc (rw (candidate_of, other) at h))
        | inl same ↦
            elim (Bool-cases (
              any (λ v. str_eq v.fingerprint (calls.fingerprint b))
                (versions_for_agent b.name v))) [
                  | inl known ↦ absurd (cc (rw (candidate_of, same, known) at h))
                  | inr new ↦
                      let made =
                        new_record calls b (greatest (versions_for_agent b.name v) + 1)
                          (some parent.id) candidate actor summary in
                      let k = rw (candidate_of, same, new) at h in
                      let e : made ≡ row = cc (ap (λ x. x.0) k) in
                      (
                        subst (λ r. IsCandidateOf parent r) e
                            (record {
                              status = refl;
                              parent_id = refl;
                              agent_name = sym ((eq_iff _ _).0 same);
                              within = within;
                            }),
                        sym (ap (λ x. x.1.versions) k) ∙ ap (λ r. v.versions ++ r ∷ []) e,
                      )
                ]
      ]

  create_candidate-found :
      (calls : VersionCalls F) (id : ℕ) (b : AgentBundle F) (actor summary : String)
      (v : VersionStore F) (parent : AgentVersion F)
      → find_version id v.versions ≡ some parent
      → create_candidate calls id b actor summary v ≡ candidate_of calls id b actor summary v parent
  unfolding create_candidate
  create_candidate-found calls id b actor summary v parent found = rw (create_candidate, found) refl

  mutation-ok : (m : Mutation F) (b : AgentBundle F) → mutation_result m ≡ ok b → m ≡ mutated b
  unfolding mutation_result
  mutation-ok (mutated c) b h = cc h
  mutation-ok (not_allowed c) b h = absurd (cc h)
  mutation-ok no_mutation b h = absurd (cc h)

  pub version-ok :
      (r : VersionResult (AgentVersion F)) (row : AgentVersion F)
      → version_result {F = F} r ≡ ok row
      → r ≡ Records.ok row
  unfolding version_result
  version-ok (Records.ok a) row h = cc h
  version-ok Records.key_error row h = absurd (cc h)
  version-ok Records.value_error row h = absurd (cc h)
  version-ok Records.duplicate_bundle row h = absurd (cc h)
  version-ok Records.version_conflict row h = absurd (cc h)

  get-found :
      (id : ℕ) (v : VersionStore F) (row : AgentVersion F)
      → Versions.get id v ≡ Records.ok row
      → find_version id v.versions ≡ some row
  unfolding Versions.get
  get-found id v row h = elim (Option-cases (find_version id v.versions)) [
    | inl missing ↦ absurd (cc (rw (Versions.get, missing) at h))
    | inr (found, e) ↦ cc (rw (Versions.get, e) at h, e)
  ]

module _ {F : Type 0} (calls : ActionCalls F) (context : ObservationContext F) where
  abbrev proposed : Result F ActionOutcome → Option ℕ
  proposed (ok outcome) = outcome.candidate_version_id
  proposed (err e) = none

  -- What a proposal has done that is carried out.
  pub record IsProposed (parent_id : ℕ) (st st' : Runtime F) (outcome : ActionOutcome)
      : Type 0 where
    pub parent : AgentVersion F
    pub row : AgentVersion F
    pub found : find_version parent_id st.versions.versions ≡ some parent
    pub observed :
        calls.versions.fingerprint parent.bundle ≡ calls.versions.fingerprint context.agent_bundle
    pub created : IsCandidateOf parent row
    pub added : st'.versions.versions ≡ st.versions.versions ++ row ∷ []
    pub named : outcome.candidate_version_id ≡ some row.id

  propose_from-IsProposed :
      (parent_id : ℕ) (plan : MutationPlan F) (parent : AgentVersion F) (st st' : Runtime F)
      (outcome : ActionOutcome)
      → find_version parent_id st.versions.versions ≡ some parent
      → propose_from calls context plan parent st ≡ (ok outcome, st')
      → IsProposed parent_id st st' outcome
  unfolding propose_from with_versions
  propose_from-IsProposed parent_id plan parent st st' outcome found h =
      let fingerprint = calls.versions.fingerprint in
      elim (Bool-cases (str_eq (fingerprint parent.bundle) (fingerprint context.agent_bundle))) [
        | inr other ↦ absurd (cc (rw (propose_from, other) at h))
        | inl same ↦
            let (b, made, next) =
              bind_returns (lift (mutation_result (apply fingerprint parent.bundle plan))) _ st st'
                outcome (rw (propose_from, same) at h) in
            let (row, stored, ends) =
              bind_returns
                (with_versions
                  (create_candidate calls.versions parent.id b "supervisor-agent" plan.rationale))
                _ st st' outcome next in
            let within =
              apply-IsWithin fingerprint parent.bundle b plan
                (mutation-ok (apply fingerprint parent.bundle plan) b made) in
            let tried =
              create_candidate calls.versions parent.id b "supervisor-agent" plan.rationale
                st.versions in
            let (created, added) =
              candidate_of-ok calls.versions b "supervisor-agent" plan.rationale st.versions tried.1
                parent row within
                (sym (
                    create_candidate-found calls.versions parent.id b "supervisor-agent"
                      plan.rationale st.versions parent
                      (find_own parent_id st.versions.versions parent found))
                  ∙ ap (λ r. (r, tried.1)) (version-ok tried.0 row stored)) in
            record {
              parent = parent;
              row = row;
              found = found;
              observed = (eq_iff _ _).0 same;
              created = created;
              added = sym (ap (λ x. x.1.versions.versions) ends) ∙ added;
              named = sym (ap (λ x. proposed x.0) ends);
            }
      ]

  propose-IsProposed :
      (directive : SupervisorDirective F) (version : Option ℕ) (st st' : Runtime F)
      (outcome : ActionOutcome)
      → propose calls context directive version st ≡ (ok outcome, st')
      → (parent_id : ℕ) × (version ≡ some parent_id) × IsProposed parent_id st st' outcome
  unfolding propose with_versions
  propose-IsProposed directive none st st' outcome h = absurd (cc h)
  propose-IsProposed directive (some id) st st' outcome h =
      let asked = Observer.get "parent_version_id" directive.payload in
      elim (Bool-cases (is_other_parent calls.parse_id asked id)) [
        | inl other ↦ absurd (cc (rw (propose, other) at h))
        | inr same ↦
            let (plan, _, next) =
              bind_returns (lift (plan_of calls (Observer.get "plan" directive.payload))) _ st st'
                outcome (rw (propose, same) at h) in
            let (parent, got, ends) =
              bind_returns (with_versions (λ v. (Versions.get id v, v))) _ st st' outcome next in
            let found =
              get-found id st.versions parent
                (version-ok (Versions.get id st.versions) parent got) in
            (id, refl, propose_from-IsProposed id plan parent st st' outcome found ends)
      ]

  -- A proposal that is carried out has found the version that the observed run is linked to, with the
  -- bundle under observation (they have one hash). It has added one version, whose id it returns: a
  -- candidate of the same agent and with that version as its parent, whose bundle is changed only
  -- within the evolution scope of the parent's.
  pub handle-IsProposed :
      ⦃fl : Floats F⦄ (s : Supervisor F) (directive : SupervisorDirective F) (st st' : Runtime F)
      (outcome : ActionOutcome)
      → directive.action ≡ propose_mutation
      → handle s calls context directive st ≡ (ok outcome, st')
      → (parent_id : ℕ) × (context.agent_version_id ≡ some parent_id)
        × IsProposed parent_id st st' outcome
  unfolding handle handle_action
  handle-IsProposed s directive st st' outcome proposes h =
      propose-IsProposed directive context.agent_version_id st st' outcome
        (subst (λ a. handle_action s calls context directive a st ≡ (ok outcome, st')) proposes h)
