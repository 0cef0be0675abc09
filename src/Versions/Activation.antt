-- ===== src/Versions/Activation.antt =====
-- `promote` and `rollback` succeed where their guards hold, and what they return is the agent's
-- active version afterwards.
use loopgraph_supervisor.Prelude.{
  ℕ, ◌≡◌, refl, true, false, ◌||◌, String, Option, none, some, ◌==◌, ==_iff, ==_refl, List, lookup,
}
use loopgraph_supervisor.Domain.Json.{Fields}
use loopgraph_supervisor.Versions.Tables.{
  candidate, active, superseded, AgentVersion, VersionStore, find_version, is_status, with_status,
}
use loopgraph_supervisor.Versions.Records.{ok, same_id, move_pointer}
use loopgraph_supervisor.Versions.Rows.{find_own, repoint_lem, str_eq_refl}
use loopgraph_supervisor.Versions.Consistency.{IsConsistent, Activates}
use loopgraph_supervisor.Versions.Consistency.Steps.{promoted-Activates, rolled_back-Activates}
use loopgraph_supervisor.Versions.{
  get, get_active, promote_record, promote, rollback_from, rollback,
}

move_pointer-moves :
    (name : String) (pointer expected : Option ℕ) (new : ℕ) (rows : List (String × ℕ))
    → lookup name rows ≡ pointer
    → same_id pointer expected ≡ true
    → (move_pointer name pointer expected new rows).0 ≡ 1
unfolding move_pointer same_id
move_pointer-moves name none expected new rows h same = refl
move_pointer-moves name (some p) none new rows h same = cc
move_pointer-moves name (some p) (some e) new rows h same =
    rw (← (==_iff p e).0 same) (repoint_lem name p new rows h).0

module _ {F : Type 0} where
  get_active-Activates :
      (s s' : VersionStore F) (name : String) (i : ℕ) (v : AgentVersion F)
      → Activates s s' name i v
      → get_active name s' ≡ ok v
  unfolding get_active get
  get_active-Activates s s' name i v a = rw (get_active, a.lookup_row, get, a.find_row) refl

  -- In consistent tables a promotion of a candidate succeeds if the caller knows the agent's active
  -- version, or that there is none: it returns the candidate with the status `active` and the
  -- evaluation summary, and this is the agent's active version afterwards.
  pub promote-get_active :
      (version_id : ℕ) (expected : Option ℕ) (actor reason : String) (summary : Fields F)
      (s : VersionStore F) (row : AgentVersion F)
      → IsConsistent s
      → find_version version_id s.versions ≡ some row
      → is_status candidate row.status ≡ true
      → same_id (lookup row.agent_name s.pointers) expected ≡ true
      → ((promote version_id expected actor reason summary s).0
          ≡ ok (record row { status = active; evaluation_summary = summary }))
        × (get_active row.agent_name (promote version_id expected actor reason summary s).1
            ≡ ok (record row { status = active; evaluation_summary = summary }))
  unfolding promote promote_record
  promote-get_active version_id expected actor reason summary s row c found is_candidate same =
      let pointer = lookup row.agent_name s.pointers in
      let one = move_pointer-moves row.agent_name pointer expected row.id s.pointers refl same in
      rw (promote, found, promote_record, is_candidate, same, one)
        (
          refl,
          get_active-Activates s _ row.agent_name row.id _ (
              promoted-Activates pointer expected summary _ s row c
                (find_own version_id s.versions row found) is_candidate refl same),
        )

  -- In consistent tables a rollback succeeds if the target is a version of the agent, active or
  -- superseded, that is not the one its pointer is at, and the caller knows the latter: it returns
  -- the target with the status `active`, and this is the agent's active version afterwards.
  pub rollback-get_active :
      (target_id pointer : ℕ) (actor reason : String) (s : VersionStore F) (target : AgentVersion F)
      → IsConsistent s
      → find_version target_id s.versions ≡ some target
      → (is_status superseded target.status || is_status active target.status) ≡ true
      → lookup target.agent_name s.pointers ≡ some pointer
      → (pointer == target.id) ≡ false
      → ((rollback target.agent_name target_id pointer actor reason s).0
          ≡ ok (with_status active target))
        × (get_active target.agent_name
              (rollback target.agent_name target_id pointer actor reason s).1
            ≡ ok (with_status active target))
  unfolding rollback rollback_from
  rollback-get_active target_id pointer actor reason s target c found once_active at_p apart =
      let name = target.agent_name in
      let (one, _) = repoint_lem name pointer target.id s.pointers at_p in
      rw
        (
          rollback,
          at_p,
          found,
          rollback_from,
          str_eq_refl name,
          once_active,
          ==_refl pointer,
          apart,
          one,
        )
        (
          refl,
          get_active-Activates s _ name target.id _ (
              rolled_back-Activates name pointer pointer _ s target c
                (find_own target_id s.versions target found) at_p refl refl apart),
        )
