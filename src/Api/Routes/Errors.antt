-- ===== src/Api/Routes/Errors.antt =====
-- What `create_candidate` of src/loopgraph_supervisor/api/app.py leaves behind where it refuses: an
-- error response and an unchanged state.
use loopgraph_supervisor.Prelude.{ℕ, not, String, str_eq, Option, none, some, List, [], ◌∷◌}
use loopgraph_supervisor.Floats.{Floats}
use loopgraph_supervisor.Domain.Models.{AgentBundle}
use loopgraph_supervisor.Domain.Events.{StoredEvent}
use loopgraph_supervisor.Domain.Snapshot.{RunSnapshot}
use loopgraph_supervisor.EventStore.{load}
use loopgraph_supervisor.Versions
use loopgraph_supervisor.Versions.{create_candidate}
use loopgraph_supervisor.Versions.Tables.{AgentVersion}
use loopgraph_supervisor.Versions.Records.{VersionCalls, same_id}
use loopgraph_supervisor.Evolution.Mutator.{MutationPlan, apply}
use loopgraph_supervisor.Engine.Exec.{Exception, key_error, value_error, raised, err}
use loopgraph_supervisor.Engine.Runs.{get_run}
use loopgraph_supervisor.Actions.{mutation_result}
use loopgraph_supervisor.Runtime.{with_table, with_versions}
use loopgraph_supervisor.Api.Routes.{
  error_status, named_status, version_of, create_candidate_version, check_source,
}
use loopgraph_supervisor.Prelude.{◌≡◌, refl, ap, subst, any, Bool-cases, Option-cases, inl, inr}
use loopgraph_supervisor.Engine.Exec.{err_same}
use loopgraph_supervisor.Engine.Runs.{replayed}
use loopgraph_supervisor.Evolution.Mutator.{Mutation, mutated, not_allowed, no_mutation}
use loopgraph_supervisor.Versions.{candidate_of}
use loopgraph_supervisor.Versions.Tables.{find_version, VersionStore}
use loopgraph_supervisor.Versions.Records.{versions_for_agent}
use loopgraph_supervisor.Runtime.{version_result}
use loopgraph_supervisor.Domain.Snapshot.{replay}
use loopgraph_supervisor.Api.Routes.Refusals.{
  IsAnswered, Refuses, Looks, Refuses-bind, version_result-IsAnswered, Looks-lift, Looks-raise,
  Looks-pure, Looks-if, Looks-bind, value_error-IsAnswered,
}

module _ {F : Type 0} where
  mutation_result-IsAnswered :
      (m : Mutation F) (e : Exception F) → mutation_result m ≡ err e → IsAnswered e
  unfolding mutation_result error_status named_status
  mutation_result-IsAnswered (mutated b) e h = absurd (cc h)
  mutation_result-IsAnswered (not_allowed c) e h =
      subst IsAnswered (err_same _ (raised "MutationNotAllowedError") e refl h) (403, refl)
  mutation_result-IsAnswered no_mutation e h =
      subst IsAnswered (err_same _ (raised "NoMutationError") e refl h) (409, refl)

  get-Looks : (id : ℕ) → Looks {F = F} (with_versions (λ v. (Versions.get id v, v)))
  unfolding with_versions
  get-Looks id = record {
    same = λ st. refl;
    answered = λ st e h. version_result-IsAnswered (Versions.get id st.versions) e h;
  }

  pub version_of-Looks : (name : String) (id : ℕ) → Looks {F = F} (version_of name id)
  unfolding version_of
  version_of-Looks name id = Looks-bind _ _ (get-Looks id) λ (version : AgentVersion F).
      Looks-if (not (str_eq version.agent_name name)) _ _
        (Looks-raise value_error (value_error-IsAnswered F)) (Looks-pure version)

  candidate_of-same :
      (calls : VersionCalls F) (id : ℕ) (b : AgentBundle F) (actor summary : String)
      (v : VersionStore F) (parent : AgentVersion F) (e : Exception F)
      → version_result (candidate_of calls id b actor summary v parent).0 ≡ err e
      → (candidate_of calls id b actor summary v parent).1 ≡ v
  unfolding candidate_of version_result
  candidate_of-same calls id b actor summary v parent e h =
      elim (Bool-cases (not (str_eq parent.agent_name b.name))) [
        | inl other ↦ rw (candidate_of, other) refl
        | inr same ↦
            elim (Bool-cases (
              any (λ v. str_eq v.fingerprint (calls.fingerprint b))
                (versions_for_agent b.name v))) [
                  | inl known ↦ rw (candidate_of, same, known) refl
                  | inr new ↦ absurd (cc (rw (candidate_of, same, new) at h))
                ]
      ]

  create_candidate-same :
      (calls : VersionCalls F) (id : ℕ) (b : AgentBundle F) (actor summary : String)
      (v : VersionStore F) (e : Exception F)
      → version_result (create_candidate calls id b actor summary v).0 ≡ err e
      → (create_candidate calls id b actor summary v).1 ≡ v
  unfolding create_candidate version_result
  create_candidate-same calls id b actor summary v e h =
      elim (Option-cases (find_version id v.versions)) [
        | inl missing ↦ rw (create_candidate, missing) refl
        | inr (parent, found) ↦
            rw (create_candidate, found)
              (candidate_of-same calls id b actor summary v parent e
                (rw (create_candidate, found) at h))
      ]

  -- Where `create_candidate` refuses a plan, its exception has a handler that answers with an error
  -- code, and nothing has changed.
  pub create_candidate_version-Refuses :
      (calls : VersionCalls F) (agent_name : String) (parent_version_id : ℕ) (actor : String)
      (plan : MutationPlan F)
      → Refuses (create_candidate_version calls agent_name parent_version_id actor plan)
  unfolding create_candidate_version with_versions
  create_candidate_version-Refuses calls agent_name parent_version_id actor plan =
      Refuses-bind _ _ (version_of-Looks agent_name parent_version_id) λ (parent : AgentVersion F).
        Refuses-bind _ _
          (Looks-lift (mutation_result (apply calls.fingerprint parent.bundle plan))
            (mutation_result-IsAnswered (apply calls.fingerprint parent.bundle plan)))
          λ b. record {
            at = λ st e h. (
              version_result-IsAnswered _ e h,
              ap (λ v. record st { versions = v })
                  (create_candidate-same calls parent.id b actor plan.rationale st.versions e h),
            );
          }

module _ {F : Type 0} ⦃fl : Floats F⦄ where
  replayed-IsAnswered :
      (es : List (StoredEvent F)) (e : Exception F) → replayed es ≡ err e → IsAnswered e
  unfolding replayed error_status
  replayed-IsAnswered [] e h = subst IsAnswered (err_same _ key_error e refl h) (404, refl)
  replayed-IsAnswered (x ∷ es) e h = elim (Option-cases (replay (x ∷ es))) [
    | inl invalid ↦
        subst IsAnswered (err_same _ value_error e refl (rw (replayed, invalid) at h)) (409, refl)
    | inr (snapshot, valid) ↦ absurd (cc (rw (replayed, valid) at h))
  ]

  get_run-Looks : (run : ℕ) → Looks {F = F} (with_table (get_run run))
  unfolding with_table get_run
  get_run-Looks run = record {
    same = λ st. refl;
    answered = λ st e h. replayed-IsAnswered (load st.table run 0 none) e h;
  }

  pub check_source-Looks : (id : ℕ) (source : Option ℕ) → Looks {F = F} (check_source id source)
  unfolding check_source
  check_source-Looks id none = Looks-pure tt
  check_source-Looks id (some run) = Looks-bind _ _ (get_run-Looks run) λ (source : RunSnapshot F).
      Looks-if (not (same_id source.definition.agent_version_id (some id))) _ _
        (Looks-raise value_error (value_error-IsAnswered F)) (Looks-pure tt)
