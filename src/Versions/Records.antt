-- ===== src/Versions/Records.antt =====
-- What the methods of src/loopgraph_supervisor/infrastructure/version_store.py share.
use loopgraph_supervisor.Prelude.{
  ℕ, suc, max, Bool, true, false, String, str_eq, Option, none, some, List, [], ◌∷◌, ◌++◌, ◌==◌,
  keep, length,
}
use loopgraph_supervisor.Domain.Json.{end}
use loopgraph_supervisor.Domain.Models.{AgentBundle}
use loopgraph_supervisor.Versions.Tables.{
  VersionStatus, superseded, AgentVersion, ActivationAction, ActivationHistoryEntry, VersionStore,
  alter, with_status, repoint,
}

-- The errors of the methods; `ok` is what a method returns.
pub data VersionResult (A : Type 0) : Type 0 where
  ok : A → VersionResult A
  key_error value_error duplicate_bundle version_conflict : VersionResult A

-- What the methods call: `uuid4`, and the hash of a bundle's canonical JSON.
pub record VersionCalls (F : Type 0) : Type 0 where
  pub new_id : ℕ
  pub fingerprint : AgentBundle F → String

-- `actual_active != expected_active_id`
unfoldable pub same_id : Option ℕ → Option ℕ → Bool
same_id none none = true
same_id (some a) (some b) = a == b
same_id _ _ = false

-- `session.add(self._history_record(…))`: the key of the row is the next integer.
unfoldable pub add_history :
    (agent_name : String) (action : ActivationAction) (from : Option ℕ) (to : ℕ)
    (actor reason : String)
    → List ActivationHistoryEntry
    → List ActivationHistoryEntry
add_history agent_name action from to actor reason rows =
    rows
    ++ record {
      id = suc (length rows);
      agent_name = agent_name;
      action = action;
      from_version_id = from;
      to_version_id = to;
      actor = actor;
      reason = reason;
    }
      ∷ []

-- The pointer of an agent moves, with the number of rows that changed: the update of the row with
-- the expected version (`str(None)` is the id of no version), or a new row where there is none.
unfoldable pub move_pointer :
    (name : String) (pointer expected : Option ℕ) (new : ℕ)
    → List (String × ℕ)
    → ℕ × List (String × ℕ)
move_pointer name none expected new rows = (1, rows ++ (name, new) ∷ [])
move_pointer name (some id) none new rows = (0, rows)
move_pointer name (some id) (some expected) new rows = repoint name expected new rows

module _ {F : Type 0} where
  -- `_versions_for_agent`
  unfoldable pub versions_for_agent : String → VersionStore F → List (AgentVersion F)
  versions_for_agent name s = keep (λ v. str_eq v.agent_name name) s.versions

  -- `max(item.version for item in records)`
  unfoldable pub greatest : List (AgentVersion F) → ℕ
  greatest [] = 0
  greatest (v ∷ vs) = max v.version (greatest vs)

  -- `_new_record`
  unfoldable pub new_record :
      VersionCalls F
      → (bundle : AgentBundle F) (version : ℕ) (parent_id : Option ℕ) (status : VersionStatus)
        (actor change_summary : String)
      → AgentVersion F
  new_record calls bundle version parent_id status actor change_summary = record {
    id = calls.new_id;
    agent_name = bundle.name;
    version = version;
    parent_id = parent_id;
    bundle = bundle;
    fingerprint = calls.fingerprint bundle;
    status = status;
    created_by = actor;
    change_summary = change_summary;
    evaluation_summary = end;
  }

  -- `previous.status = SUPERSEDED`, where there is a previous version
  unfoldable pub supersede : Option ℕ → List (AgentVersion F) → List (AgentVersion F)
  supersede none vs = vs
  supersede (some id) vs = alter id (with_status superseded) vs
