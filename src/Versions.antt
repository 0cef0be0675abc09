-- ===== src/Versions.antt =====
-- The immutable versions of an agent and the pointer to the active one:
-- src/loopgraph_supervisor/domain/versions.py and infrastructure/version_store.py. A method is one
-- transaction under the agent's lock: where it raises, the tables are what they were.
pub mod Tables
pub mod Rows
pub mod Records
pub mod Consistency
pub mod Activation
use loopgraph_supervisor.Prelude.{
  ℕ, suc, ◌+◌, max, Bool, true, false, not, ◌||◌, String, str_eq, Option, none, some, List, [], ◌∷◌,
  ◌++◌, ◌==◌, any, keep, lookup, is_empty, length, if◌then◌else◌,
}
use loopgraph_supervisor.Domain.Json.{Fields, end}
use loopgraph_supervisor.Domain.Models.{AgentBundle}
use loopgraph_supervisor.Versions.Tables.{
  VersionStatus, candidate, active, superseded, rejected, AgentVersion, ActivationAction,
  initial_activation, promotion, rolled_back, ActivationHistoryEntry, VersionStore, find_version,
  alter, with_status, repoint, is_status,
}
use loopgraph_supervisor.Versions.Records.{
  VersionResult, ok, key_error, value_error, duplicate_bundle, version_conflict, VersionCalls,
  same_id, versions_for_agent, greatest, new_record, add_history, supersede, move_pointer,
}

module _ {F : Type 0} where
  unfoldable pub create_initial :
      VersionCalls F
      → AgentBundle F
      → (actor : String) (activate : Bool) → VersionStore F
      → VersionResult (AgentVersion F) × VersionStore F
  unfolding versions_for_agent new_record add_history
  create_initial calls bundle actor activate s =
      let row =
        new_record calls bundle 1 none (if activate then active else candidate) actor
          "Initial version" in
      if not (is_empty (versions_for_agent bundle.name s)) then (version_conflict, s) else (
        ok row,
        record {
          versions = s.versions ++ row ∷ [];
          pointers = if activate then s.pointers ++ (bundle.name, row.id) ∷ [] else s.pointers;
          history =
              if activate
              then add_history bundle.name initial_activation none row.id actor "Initial version"
                  s.history
              else s.history;
        },
      )

  unfoldable pub candidate_of :
      VersionCalls F
      → (parent_id : ℕ) (bundle : AgentBundle F) (actor change_summary : String) → VersionStore F
      → AgentVersion F
      → VersionResult (AgentVersion F) × VersionStore F
  unfolding versions_for_agent new_record greatest
  candidate_of calls parent_id bundle actor change_summary s parent =
      let records = versions_for_agent bundle.name s in
      let row =
        new_record calls bundle (greatest records + 1) (some parent_id) candidate actor
          change_summary in
      if not (str_eq parent.agent_name bundle.name)
      then (value_error, s)
      else if any (λ v. str_eq v.fingerprint (calls.fingerprint bundle)) records
      then (duplicate_bundle, s)
      else (ok row, record s { versions = s.versions ++ row ∷ [] })

  unfoldable pub create_candidate :
      VersionCalls F
      → (parent_id : ℕ) (bundle : AgentBundle F) (actor change_summary : String) → VersionStore F
      → VersionResult (AgentVersion F) × VersionStore F
  unfolding candidate_of
  create_candidate calls parent_id bundle actor change_summary s =
      elim (find_version parent_id s.versions) [
        | none ↦ (key_error, s)
        | some parent ↦ candidate_of calls parent_id bundle actor change_summary s parent
      ]

  unfoldable pub promote_record :
      (expected_active_id : Option ℕ) (actor reason : String) (evaluation_summary : Fields F)
      → VersionStore F
      → AgentVersion F
      → VersionResult (AgentVersion F) × VersionStore F
  unfolding add_history supersede move_pointer
  promote_record expected_active_id actor reason evaluation_summary s row =
      let actual_active = lookup row.agent_name s.pointers in
      let (changed, pointers) =
        move_pointer row.agent_name actual_active expected_active_id row.id s.pointers in
      let promoted = record row { status = active; evaluation_summary = evaluation_summary } in
      if not (is_status candidate row.status)
      then (version_conflict, s)
      else if not (same_id actual_active expected_active_id)
      then (version_conflict, s)
      else if not (changed == 1)
      then (version_conflict, s)
      else (
        ok promoted,
        record {
          versions = alter row.id (λ v. promoted) (supersede actual_active s.versions);
          pointers = pointers;
          history =
              add_history row.agent_name promotion actual_active row.id actor reason s.history;
        },
      )

  unfoldable pub promote :
      (version_id : ℕ) (expected_active_id : Option ℕ) (actor reason : String)
      (evaluation_summary : Fields F)
      → VersionStore F
      → VersionResult (AgentVersion F) × VersionStore F
  unfolding promote_record
  promote version_id expected_active_id actor reason evaluation_summary s =
      elim (find_version version_id s.versions) [
        | none ↦ (key_error, s)
        | some row ↦ promote_record expected_active_id actor reason evaluation_summary s row
      ]

  unfoldable pub rollback_from :
      (agent_name : String) (expected_active_id : ℕ) (actor reason : String)
      → VersionStore F
      → (pointer : ℕ) → AgentVersion F
      → VersionResult (AgentVersion F) × VersionStore F
  unfolding add_history
  rollback_from agent_name expected_active_id actor reason s pointer target =
      let (changed, pointers) = repoint agent_name expected_active_id target.id s.pointers in
      if not (str_eq target.agent_name agent_name)
      then (key_error, s)
      else if not (is_status superseded target.status || is_status active target.status)
      then (version_conflict, s)
      else if not (pointer == expected_active_id)
      then (version_conflict, s)
      else if pointer == target.id
      then (version_conflict, s)
      else if not (changed == 1)
      then (version_conflict, s)
      else (
        ok (with_status active target),
        record {
          versions =
              alter target.id (with_status active)
                (alter pointer (with_status superseded) s.versions);
          pointers = pointers;
          history =
              add_history agent_name rolled_back (some pointer) target.id actor reason s.history;
        },
      )

  unfoldable pub rollback :
      (agent_name : String) (target_version_id expected_active_id : ℕ) (actor reason : String)
      → VersionStore F
      → VersionResult (AgentVersion F) × VersionStore F
  unfolding rollback_from
  rollback agent_name target_version_id expected_active_id actor reason s =
      elim (lookup agent_name s.pointers) [
        | none ↦ (version_conflict, s)
        | some pointer ↦ elim (find_version target_version_id s.versions) [
          | none ↦ (key_error, s)
          | some target ↦ rollback_from agent_name expected_active_id actor reason s pointer target
        ]
      ]

  unfoldable pub get : ℕ → VersionStore F → VersionResult (AgentVersion F)
  get version_id s = elim (find_version version_id s.versions) [ none ↦ key_error | some v ↦ ok v ]

  unfoldable pub get_active : String → VersionStore F → VersionResult (AgentVersion F)
  unfolding get
  get_active agent_name s = elim (lookup agent_name s.pointers) [
    | none ↦ key_error
    | some id ↦ get id s
  ]

  -- The rows stand in the order of their keys.
  unfoldable pub activation_history : String → VersionStore F → List ActivationHistoryEntry
  activation_history agent_name s = keep (λ e. str_eq e.agent_name agent_name) s.history
