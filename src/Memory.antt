-- ===== src/Memory.antt =====
-- Version-scoped memory: src/loopgraph_supervisor/domain/memory.py and
-- src/loopgraph_supervisor/infrastructure/memory_store.py. The table `agent_memories` is the list of
-- its rows; a time stamp is a number.
pub mod Isolation
pub mod Review
use loopgraph_supervisor.Prelude.{
  ℕ, Bool, true, false, not, ◌&&◌, ◌||◌, String, str_eq, Option, none, some, List, [], ◌∷◌, ◌++◌,
  ltb, ◌==◌, if◌then◌else◌, keep, all, contains, take, order_by,
}
use loopgraph_supervisor.Domain.Json.{Fields}

pub data MemoryKind : Type 0 where
  episodic semantic procedural evaluation : MemoryKind

pub data MemoryStatus : Type 0 where
  experimental approved rejected : MemoryStatus

pub record MemoryRecord (F : Type 0) : Type 0 where
  pub id : ℕ
  pub agent_name : String
  pub version_id : ℕ
  pub kind : MemoryKind
  pub content : String
  pub status : MemoryStatus
  pub source_run_id : Option ℕ
  pub tags : List String
  pub metadata : Fields F
  pub created_at : ℕ

pub record MemoryContextPolicy : Type 0 where
  pub enabled : Bool
  pub include_experimental : Bool
  pub kind : Option MemoryKind
  pub required_tags : List String
  pub limit : ℕ

-- `ValueError`, `KeyError` and `MemoryTransitionError`, or a result.
pub data MemoryResult (A : Type 0) : Type 0 where
  ok : A → MemoryResult A
  value_error key_error transition_error : MemoryResult A

abbrev pub Memories : Type 0 → Type 0
Memories F = List (MemoryRecord F)

abbrev pub same_kind : MemoryKind → MemoryKind → Bool
same_kind episodic episodic = true
same_kind semantic semantic = true
same_kind procedural procedural = true
same_kind evaluation evaluation = true
same_kind _ _ = false

abbrev pub is_rejected : MemoryStatus → Bool
is_rejected rejected = true
is_rejected _ = false

-- `status in statuses`, with the list that `include_experimental` extends
abbrev pub readable : Bool → MemoryStatus → Bool
readable include approved = true
readable include experimental = include
readable include rejected = false

abbrev pub kind_matches : Option MemoryKind → MemoryKind → Bool
kind_matches none kind = true
kind_matches (some wanted) kind = same_kind kind wanted

-- `set(required_tags).issubset(row.tags)`
abbrev pub has_tags : List String → List String → Bool
has_tags required tags = all (λ tag. contains tag tags) required

-- What `write` calls: `str.strip`, `sorted(set(…))`, `uuid4` and the clock.
pub record WriteCalls : Type 0 where
  pub strip : String → String
  pub sorted_set : List String → List String
  pub new_id : ℕ
  pub now : ℕ

module _ {F : Type 0} where
  unfoldable pub write :
      WriteCalls
      → Memories F
      → (agent_name : String) (version_id : ℕ) (kind : MemoryKind) (content : String)
        (status : MemoryStatus) (source_run_id : Option ℕ) (tags : List String)
        (metadata : Fields F)
      → MemoryResult (MemoryRecord F) × Memories F
  write calls t agent_name version_id kind content status source_run_id tags metadata =
      let row : MemoryRecord F = record {
        id = calls.new_id;
        agent_name = agent_name;
        version_id = version_id;
        kind = kind;
        content = content;
        status = status;
        source_run_id = source_run_id;
        tags = calls.sorted_set tags;
        metadata = metadata;
        created_at = calls.now;
      } in
      if str_eq (calls.strip content) "" then (value_error, t) else (ok row, t ++ row ∷ [])

  -- `session.get(MemoryRow, memory_id)`
  unfoldable pub get : ℕ → Memories F → Option (MemoryRecord F)
  get id [] = none
  get id (row ∷ t) = let rest = get id t in if row.id == id then some row else rest

  -- The write back of a changed row.
  unfoldable pub put_status : ℕ → MemoryStatus → Memories F → Memories F
  put_status id status [] = []
  put_status id status (row ∷ t) =
      (if row.id == id then record row { status = status } else row) ∷ put_status id status t

  change_status :
      Memories F
      → MemoryStatus
      → Option (MemoryRecord F)
      → MemoryResult (MemoryRecord F) × Memories F
  change_status t status none = (key_error, t)
  change_status t status (some row) =
      if is_rejected row.status && not (is_rejected status)
      then (transition_error, t)
      else (ok (record row { status = status }), put_status row.id status t)

  unfoldable pub set_status :
      Memories F → ℕ → MemoryStatus → MemoryResult (MemoryRecord F) × Memories F
  unfolding change_status
  set_status t id status = change_status t status (get id t)

  unfoldable pub selects : String → ℕ → Bool → Option MemoryKind → MemoryRecord F → Bool
  selects agent_name version_id include kind row =
      str_eq row.agent_name agent_name
      && row.version_id == version_id
      && readable include row.status
      && kind_matches kind row.kind

  unfoldable pub for_context :
      Memories F
      → (agent_name : String) (version_id : ℕ) (include_experimental : Bool)
        (kind : Option MemoryKind) (required_tags : List String) (limit : ℕ)
      → MemoryResult (List (MemoryRecord F))
  for_context t agent_name version_id include kind required_tags limit =
      let rows =
        order_by (λ r. r.created_at) (keep (selects agent_name version_id include kind) t) in
      if ltb limit 1
      then value_error
      else ok (take limit (keep (λ r. has_tags required_tags r.tags) rows))
