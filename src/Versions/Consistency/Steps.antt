-- ===== src/Versions/Consistency/Steps.antt =====
-- A promotion and a rollback keep the tables consistent.
use loopgraph_supervisor.Prelude.{
  ℕ, ◌≡◌, refl, sym, Bool, true, false, not, ◌||◌, String, str_eq, eq_iff, Option, none, some, List,
  ◌==◌, ==_iff, lookup, if◌then◌else◌, Option-cases, inl, inr,
}
use loopgraph_supervisor.Domain.Json.{Fields}
use loopgraph_supervisor.Versions.Tables.{
  candidate, active, superseded, AgentVersion, ActivationHistoryEntry, VersionStore, find_version,
  alter, with_status, repoint, is_status,
}
use loopgraph_supervisor.Versions.Records.{same_id, supersede, move_pointer}
use loopgraph_supervisor.Versions.Rows.{find_own}
use loopgraph_supervisor.Versions.Consistency.{Activates, IsConsistent, Activates-IsConsistent}
use loopgraph_supervisor.Versions.{promote_record, promote, rollback_from, rollback}
use loopgraph_supervisor.Versions.Consistency.Activations.{==_ne, switch-Activates, first-Activates}

pub unless_not : {b : Bool} → not b ≡ false → b ≡ true
unless_not {b = true} h = refl
unless_not {b = false} h = cc

module _ {F : Type 0} where
  -- A guard that raises leaves the tables as they are.
  pub guarded :
      {A : Type 0} (P : VersionStore F → Type 0) (b : Bool) (e : A) (s : VersionStore F)
      (x : A × VersionStore F)
      → P s
      → (b ≡ false → P x.1)
      → P (if b then (e, s) else x).1
  guarded P true e s x h k = h
  guarded P false e s x h k = k refl

  -- A candidate is not its agent's active version.
  apart_candidate :
      (s : VersionStore F) (i p : ℕ) (row : AgentVersion F)
      → IsConsistent s
      → find_version i s.versions ≡ some row
      → is_status candidate row.status ≡ true
      → lookup row.agent_name s.pointers ≡ some p
      → (p == i) ≡ false
  unfolding is_status
  apart_candidate s i p row c found is_candidate at_p = ==_ne p i λ same.
      let (w, found_p, _, is_active) = c.pointed row.agent_name p at_p in
      let w_row : w ≡ row = cc in
      let clash : row.status ≡ active = rw (sym w_row) is_active in cc (rw clash at is_candidate)

  pub promoted-Activates :
      (pointer expected : Option ℕ) (summary : Fields F) (history : List ActivationHistoryEntry)
      (s : VersionStore F) (row : AgentVersion F)
      → IsConsistent s
      → find_version row.id s.versions ≡ some row
      → is_status candidate row.status ≡ true
      → lookup row.agent_name s.pointers ≡ pointer
      → same_id pointer expected ≡ true
      → Activates s
          (record {
            versions =
                alter row.id
                  (λ v. record row { status = active; evaluation_summary = summary })
                  (supersede pointer s.versions);
            pointers = (move_pointer row.agent_name pointer expected row.id s.pointers).1;
            history = history;
          })
          row.agent_name
          row.id
          (record row { status = active; evaluation_summary = summary })
  unfolding supersede move_pointer same_id
  promoted-Activates none expected summary history s row c found is_candidate at_p same =
      first-Activates s history row.id
        (λ v. record row { status = active; evaluation_summary = summary }) row found refl refl refl
        at_p
  promoted-Activates (some p) none summary history s row c found is_candidate at_p same = cc
  promoted-Activates (some p) (some e) summary history s row c found is_candidate at_p same =
      rw (← (==_iff p e).0 same) (
        switch-Activates s history p row.id
          (λ v. record row { status = active; evaluation_summary = summary }) row c found refl refl
          refl at_p (apart_candidate s row.id p row c found is_candidate at_p))

  promote_record-IsConsistent :
      (expected : Option ℕ) (actor reason : String) (summary : Fields F) (s : VersionStore F)
      (row : AgentVersion F)
      → IsConsistent s
      → find_version row.id s.versions ≡ some row
      → IsConsistent (promote_record expected actor reason summary s row).1
  unfolding promote_record
  promote_record-IsConsistent expected actor reason summary s row c found =
      guarded IsConsistent (not (is_status candidate row.status)) _ s _ c λ is_candidate.
        guarded IsConsistent (not (same_id (lookup row.agent_name s.pointers) expected)) _ s _ c
          λ same.
            guarded IsConsistent
              (not (
                (move_pointer row.agent_name (lookup row.agent_name s.pointers) expected row.id
                  s.pointers).0
                == 1))
              _ s _ c
              λ one. Activates-IsConsistent s _ row.agent_name row.id _ c (
                promoted-Activates (lookup row.agent_name s.pointers) expected summary _ s row c
                  found (unless_not is_candidate) refl (unless_not same))

  pub promote-IsConsistent :
      (version_id : ℕ) (expected : Option ℕ) (actor reason : String) (summary : Fields F)
      (s : VersionStore F)
      → IsConsistent s
      → IsConsistent (promote version_id expected actor reason summary s).1
  unfolding promote
  promote-IsConsistent version_id expected actor reason summary s c =
      elim (Option-cases (find_version version_id s.versions)) [
        | inl missing ↦ rw (promote, missing) c
        | inr (row, found) ↦
            rw (promote, found)
              (promote_record-IsConsistent expected actor reason summary s row c
                (find_own version_id s.versions row found))
      ]

  pub rolled_back-Activates :
      (name : String) (expected pointer : ℕ) (history : List ActivationHistoryEntry)
      (s : VersionStore F) (target : AgentVersion F)
      → IsConsistent s
      → find_version target.id s.versions ≡ some target
      → lookup name s.pointers ≡ some pointer
      → target.agent_name ≡ name
      → pointer ≡ expected
      → (pointer == target.id) ≡ false
      → Activates s
          (record {
            versions =
                alter target.id
                  (with_status active)
                  (alter pointer (with_status superseded) s.versions);
            pointers = (repoint name expected target.id s.pointers).1;
            history = history;
          })
          target.agent_name
          target.id
          (with_status active target)
  rolled_back-Activates name expected pointer history s target c found at_p named same apart =
      rw (← named, ← same)
        (switch-Activates s history pointer target.id (with_status active) target c found refl refl
          refl (rw named at_p) apart)

  rollback_from-IsConsistent :
      (name : String) (expected : ℕ) (actor reason : String) (s : VersionStore F) (pointer : ℕ)
      (target : AgentVersion F)
      → IsConsistent s
      → find_version target.id s.versions ≡ some target
      → lookup name s.pointers ≡ some pointer
      → IsConsistent (rollback_from name expected actor reason s pointer target).1
  unfolding rollback_from
  rollback_from-IsConsistent name expected actor reason s pointer target c found at_p =
      guarded IsConsistent (not (str_eq target.agent_name name)) _ s _ c λ named.
        guarded IsConsistent
          (not (is_status superseded target.status || is_status active target.status)) _ s _ c
          λ once_active. guarded IsConsistent (not (pointer == expected)) _ s _ c λ same.
            guarded IsConsistent (pointer == target.id) _ s _ c λ apart.
              guarded IsConsistent (not ((repoint name expected target.id s.pointers).0 == 1)) _ s _
                c
                λ one. Activates-IsConsistent s _ target.agent_name target.id _ c (
                  rolled_back-Activates name expected pointer _ s target c found at_p
                    ((eq_iff target.agent_name name).0 (unless_not named))
                    ((==_iff pointer expected).0 (unless_not same)) apart)

  pub rollback-IsConsistent :
      (name : String) (target_id expected : ℕ) (actor reason : String) (s : VersionStore F)
      → IsConsistent s
      → IsConsistent (rollback name target_id expected actor reason s).1
  unfolding rollback
  rollback-IsConsistent name target_id expected actor reason s c =
      elim (Option-cases (lookup name s.pointers)) [
        | inl missing ↦ rw (rollback, missing) c
        | inr (pointer, at_p) ↦ elim (Option-cases (find_version target_id s.versions)) [
          | inl missing ↦ rw (rollback, at_p, missing) c
          | inr (target, found) ↦
              rw (rollback, at_p, found)
                (rollback_from-IsConsistent name expected actor reason s pointer target c
                  (find_own target_id s.versions target found) at_p)
        ]
      ]
