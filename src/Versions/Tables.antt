-- ===== src/Versions/Tables.antt =====
-- The three tables of src/loopgraph_supervisor/infrastructure/version_store.py, with the values of
-- domain/versions.py, and the queries and updates by primary key.
use loopgraph_supervisor.Prelude.{
  ℕ, Bool, true, false, String, str_eq, Option, none, some, List, [], ◌∷◌, ◌==◌, if◌then◌else◌,
}
use loopgraph_supervisor.Domain.Json.{Fields}
use loopgraph_supervisor.Domain.Models.{AgentBundle}

pub data VersionStatus : Type 0 where
  candidate active superseded rejected : VersionStatus

-- The time stamps are read nowhere in the store and are left out.
pub record AgentVersion (F : Type 0) : Type 0 where
  pub id : ℕ
  pub agent_name : String
  pub version : ℕ
  pub parent_id : Option ℕ
  pub bundle : AgentBundle F
  pub fingerprint : String
  pub status : VersionStatus
  pub created_by : String
  pub change_summary : String
  pub evaluation_summary : Fields F

-- The values that the column `action` takes.
pub data ActivationAction : Type 0 where
  initial_activation promotion rolled_back : ActivationAction

pub record ActivationHistoryEntry : Type 0 where
  pub id : ℕ
  pub agent_name : String
  pub action : ActivationAction
  pub from_version_id : Option ℕ
  pub to_version_id : ℕ
  pub actor : String
  pub reason : String

-- The pointers are the table `active_agent_versions`, with the agent's name for its primary key.
pub record VersionStore (F : Type 0) : Type 0 where
  pub versions : List (AgentVersion F)
  pub pointers : List (String × ℕ)
  pub history : List ActivationHistoryEntry

unfoldable pub is_status : VersionStatus → VersionStatus → Bool
is_status candidate candidate = true
is_status active active = true
is_status superseded superseded = true
is_status rejected rejected = true
is_status _ _ = false

module _ {F : Type 0} where
  -- `session.get(AgentVersionRecord, id)`
  abbrev pub find_version : ℕ → List (AgentVersion F) → Option (AgentVersion F)
  find_version id [] = none
  find_version id (v ∷ vs) = let rest = find_version id vs in if v.id == id then some v else rest

  -- The row with this primary key is changed.
  abbrev pub alter :
      ℕ → (AgentVersion F → AgentVersion F) → List (AgentVersion F) → List (AgentVersion F)
  alter id f [] = []
  alter id f (v ∷ vs) = let rest = alter id f vs in if v.id == id then f v ∷ vs else v ∷ rest

  abbrev pub with_status : VersionStatus → AgentVersion F → AgentVersion F
  with_status status v = record v { status = status }

-- `update(ActiveVersionRecord).where(agent_name == …, version_id == …).values(version_id=…)`: the
-- number of rows that changed, and the table.
abbrev pub repoint : String → ℕ → ℕ → List (String × ℕ) → ℕ × List (String × ℕ)
repoint name expected new [] = (0, [])
repoint name expected new ((n, id) ∷ rows) =
    let (changed, rest) = repoint name expected new rows in
    if str_eq n name
    then if id == expected then (1, (n, new) ∷ rows) else (0, (n, id) ∷ rows)
    else (changed, (n, id) ∷ rest)
