-- ===== src/Versions/Consistency.antt =====
-- The pointers and the statuses agree, whatever sequence of methods runs.
pub mod Activations
pub mod Steps
pub mod Reachable
use loopgraph_supervisor.Prelude.{
  ℕ, ◌≡◌, ◌≢◌, refl, sym, ◌∙◌, ap, subst, Bool, true, false, String, str_eq, eq_iff, Option, none,
  some, List, [], ◌∷◌, ◌++◌, ◌==◌, ==_refl, ==_iff, lookup, arith, if◌then◌else◌, Bool-cases, inl,
  inr,
}
use loopgraph_supervisor.Versions.Tables.{
  VersionStatus, candidate, active, superseded, rejected, AgentVersion, VersionStore, find_version,
  is_status,
}
use loopgraph_supervisor.Versions.Rows.{find-id, find-add, str_eq_refl}

-- Each pointer is at an active version of its agent, and each active version is its agent's pointer.
pub record IsConsistent {F : Type 0} (s : VersionStore F) : Type 0 where
  pub pointed :
      (name : String) (id : ℕ)
      → lookup name s.pointers ≡ some id
      → (v : AgentVersion F) × (find_version id s.versions ≡ some v)
        × (v.agent_name ≡ name)
        × (v.status ≡ active)
  pub active_pointer :
      (id : ℕ) (v : AgentVersion F)
      → find_version id s.versions ≡ some v
      → v.status ≡ active
      → lookup v.agent_name s.pointers ≡ some id

-- The version `row`, at key `i`, becomes the active one of the agent `agent`: what changes in the
-- tables.
pub record Activates {F : Type 0} (s s' : VersionStore F) (agent : String) (i : ℕ)
    (row : AgentVersion F) : Type 0 where
  pub is_active : row.status ≡ active
  pub named : row.agent_name ≡ agent
  pub same_agent : (v : AgentVersion F) → find_version i s.versions ≡ some v → v.agent_name ≡ agent
  pub find_row : find_version i s'.versions ≡ some row
  pub find_previous :
      (id : ℕ) (v : AgentVersion F)
      → lookup agent s.pointers ≡ some id
      → (i == id) ≡ false
      → find_version id s'.versions ≡ some v
      → v.status ≢ active
  pub find_other :
      (id : ℕ)
      → (i == id) ≡ false
      → lookup agent s.pointers ≢ some id
      → find_version id s'.versions ≡ find_version id s.versions
  pub lookup_row : lookup agent s'.pointers ≡ some i
  pub lookup_other :
      (name : String) → str_eq agent name ≡ false → lookup name s'.pointers ≡ lookup name s.pointers

module _ {F : Type 0} (s s' : VersionStore F) (agent : String) (i : ℕ) (row : AgentVersion F)
    (c : IsConsistent s) (a : Activates s s' agent i row) where
  Row : String → ℕ → Type 0
  Row name id =
      (v : AgentVersion F) × (find_version id s'.versions ≡ some v)
      × (v.agent_name ≡ name)
      × (v.status ≡ active)

  -- The version of another agent's pointer is neither the new one nor the one before.
  kept :
      (name : String) (id : ℕ)
      → str_eq agent name ≡ false
      → lookup name s.pointers ≡ some id
      → find_version id s'.versions ≡ find_version id s.versions
  kept name id apart h =
      let (v, found, mine, _) = c.pointed name id h in
      let distinct : agent ≢ name = λ same. cc ((eq_iff agent name).1 same, apart) in
      a.find_other id
        (elim (Bool-cases (i == id)) [
          | inr other ↦ other
          | inl same ↦
              absurd (distinct (sym (a.same_agent v (rw ((==_iff i id).0 same) found)) ∙ mine))
        ])
        (λ before.
          let (w, found', theirs, _) = c.pointed agent id before in
          distinct (cc (found, found', mine, theirs)))

  pointed_after : (name : String) (id : ℕ) → lookup name s'.pointers ≡ some id → Row name id
  unfolding Row
  pointed_after name id h = elim (Bool-cases (str_eq agent name)) [
    | inl same ↦
        let n : agent ≡ name = (eq_iff agent name).0 same in
        let k : i ≡ id = cc (a.lookup_row, n, h) in
        (row, rw (← k) a.find_row, a.named ∙ n, a.is_active)
    | inr apart ↦
        let before = sym (a.lookup_other name apart) ∙ h in
        let (v, found, mine, is_active) = c.pointed name id before in
        (v, kept name id apart before ∙ found, mine, is_active)
  ]

  active_after :
      (id : ℕ) (v : AgentVersion F)
      → find_version id s'.versions ≡ some v
      → v.status ≡ active
      → lookup v.agent_name s'.pointers ≡ some id
  active_after id v h is_active = elim (Bool-cases (i == id)) [
    | inl same ↦
        let k : i ≡ id = (==_iff i id).0 same in
        let r : row ≡ v = cc (a.find_row, h, k) in cc (a.lookup_row, k, r, a.named)
    | inr other ↦
        let not_before : lookup agent s.pointers ≢ some id =
          λ before. a.find_previous id v before other h is_active in
        let known = c.active_pointer id v (sym (a.find_other id other not_before) ∙ h) is_active in
        elim (Bool-cases (str_eq agent v.agent_name)) [
          | inl same ↦ absurd (not_before (rw ((eq_iff agent v.agent_name).0 same) known))
          | inr apart ↦ a.lookup_other v.agent_name apart ∙ known
        ]
  ]

  -- An activation keeps the tables consistent.
  pub Activates-IsConsistent : IsConsistent s'
  unfolding Row
  Activates-IsConsistent = record { pointed = pointed_after; active_pointer = active_after }

-- So does a new version that is not active.
pub add-IsConsistent :
    {F : Type 0} (s : VersionStore F) (row : AgentVersion F)
    → IsConsistent s
    → find_version row.id s.versions ≡ none
    → row.status ≢ active
    → IsConsistent (record s { versions = s.versions ++ row ∷ [] })
add-IsConsistent s row c fresh inactive = record {
  pointed = λ name id h.
      let (v, found, mine, is_active) = c.pointed name id h in
      let other : (row.id == id) ≡ false = elim (Bool-cases (row.id == id)) [
        | inr other ↦ other
        | inl same ↦ absurd (cc (fresh, found, (==_iff row.id id).0 same))
      ] in
      (v, find-add id s.versions row fresh ∙ rw other found, mine, is_active);
  active_pointer = λ id v h is_active.
      let h' = sym (find-add id s.versions row fresh) ∙ h in
      elim (Bool-cases (row.id == id)) [
        | inl same ↦ absurd (inactive (cc (rw same at h', is_active)))
        | inr other ↦ c.active_pointer id v (rw other at h') is_active
      ];
}
