-- ===== src/Memory/Isolation.antt =====
-- What a read of the memory for a context may return.
use loopgraph_supervisor.Prelude.{
  ℕ, ◌≤◌, ◌≡◌, ◌≢◌, Bool, true, false, String, eq_iff, Option, List, arith, keep, length, All,
  All-keep, All-take, All-order_by, All-imp, All-both, keep_sound, length-take-le, take, order_by,
  subst,
}
use loopgraph_supervisor.Memory.{
  MemoryKind, approved, rejected, MemoryRecord, Memories, ok, kind_matches, has_tags, selects,
  for_context,
}

-- A row that a context of this agent, version, kind and these tags may see.
pub record IsVisible {F : Type 0} (agent_name : String) (version_id : ℕ) (include : Bool)
    (kind : Option MemoryKind) (required_tags : List String) (row : MemoryRecord F) : Type 0 where
  pub agent : row.agent_name ≡ agent_name
  pub version : row.version_id ≡ version_id
  pub not_rejected : row.status ≢ rejected
  pub approved_unless_included : include ≡ false → row.status ≡ approved
  pub of_kind : kind_matches kind row.kind ≡ true
  pub tagged : has_tags required_tags row.tags ≡ true

module _ {F : Type 0} where
  selects-IsVisible :
      (agent_name : String) (version_id : ℕ) (include : Bool) (kind : Option MemoryKind)
      (required_tags : List String) (row : MemoryRecord F)
      → selects agent_name version_id include kind row ≡ true
      → has_tags required_tags row.tags ≡ true
      → IsVisible agent_name version_id include kind required_tags row
  unfolding selects
  selects-IsVisible agent_name version_id include kind required_tags row h k = record {
    agent = ground (arith, eq_iff row.agent_name agent_name);
    version = ground arith;
    not_rejected = ground arith;
    approved_unless_included = ground arith;
    of_kind = ground arith;
    tagged = k;
  }

  -- What is selected from the table before the limit.
  selected-IsVisible :
      (t : Memories F) (agent_name : String) (version_id : ℕ) (include : Bool)
      (kind : Option MemoryKind) (required_tags : List String)
      → All (IsVisible agent_name version_id include kind required_tags) (
          keep
            (λ r. has_tags required_tags r.tags)
            (order_by (λ r. r.created_at) (keep (selects agent_name version_id include kind) t)))
  selected-IsVisible t agent_name version_id include kind required_tags =
      let p = selects agent_name version_id include kind in
      let q = λ (r : MemoryRecord F). has_tags required_tags r.tags in
      let rows = order_by (λ r. r.created_at) (keep p t) in
      let picked : All (λ r. p r ≡ true) rows =
        All-order_by (λ r. r.created_at) (λ r. p r ≡ true) (keep p t) (keep_sound p t) in
      All-imp (keep q rows)
        (λ r h. selects-IsVisible agent_name version_id include kind required_tags r h.0 h.1)
        (All-both (λ r. p r ≡ true) (λ r. q r ≡ true) (keep q rows)
          (All-keep (λ r. p r ≡ true) q rows picked) (keep_sound q rows))

  -- Whatever the table holds, a read for a context returns only rows of the agent and the version,
  -- none of them rejected, all of them approved unless experimental memory is asked for, of the
  -- wanted kind and with every required tag; and at most `limit` of them.
  pub for_context-IsVisible :
      (t : Memories F) (agent_name : String) (version_id : ℕ) (include : Bool)
      (kind : Option MemoryKind) (required_tags : List String) (limit : ℕ)
      (rows : List (MemoryRecord F))
      → for_context t agent_name version_id include kind required_tags limit ≡ ok rows
      → All (IsVisible agent_name version_id include kind required_tags) rows
        × (length rows ≤ limit)
  unfolding for_context
  for_context-IsVisible t agent_name version_id include kind required_tags limit rows h =
      let found =
        keep (λ r. has_tags required_tags r.tags)
          (order_by (λ r. r.created_at) (keep (selects agent_name version_id include kind) t)) in
      let same : take limit found ≡ rows = ground arith in
      subst
        (λ l.
          All (IsVisible agent_name version_id include kind required_tags) l × (length l ≤ limit))
        same
        (
          All-take _ limit found
              (selected-IsVisible t agent_name version_id include kind required_tags),
          length-take-le limit found,
        )
