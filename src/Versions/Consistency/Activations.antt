-- ===== src/Versions/Consistency/Activations.antt =====
-- How a promotion and a rollback change the tables.
use loopgraph_supervisor.Prelude.{
  ℕ, ◌≡◌, ◌≢◌, refl, sym, ◌∙◌, ap, false, String, none, some, List, [], ◌∷◌, ◌++◌, ◌==◌, ==_refl,
  ==_iff, lookup, Bool-cases, inl, inr,
}
use loopgraph_supervisor.Versions.Tables.{
  active, superseded, AgentVersion, ActivationHistoryEntry, VersionStore, find_version, alter,
  with_status, repoint,
}
use loopgraph_supervisor.Versions.Rows.{find-id, find-alter, lookup-add, repoint_lem, str_eq_refl}
use loopgraph_supervisor.Versions.Consistency.{IsConsistent, Activates}

pub ==_ne : (a b : ℕ) → a ≢ b → (a == b) ≡ false
==_ne a b h = elim (Bool-cases (a == b)) [
  | inl same ↦ absurd (h ((==_iff a b).0 same))
  | inr other ↦ other
]

module _ {F : Type 0} where
  -- The version at key `i` takes the place of the active version `p` of its agent.
  pub switch-Activates :
      (s : VersionStore F) (history : List ActivationHistoryEntry) (p i : ℕ)
      (f : AgentVersion F → AgentVersion F) (old : AgentVersion F)
      → IsConsistent s
      → find_version i s.versions ≡ some old
      → (f old).id ≡ i
      → (f old).agent_name ≡ old.agent_name
      → (f old).status ≡ active
      → lookup old.agent_name s.pointers ≡ some p
      → (p == i) ≡ false
      → Activates s
          (record {
            versions = alter i f (alter p (with_status superseded) s.versions);
            pointers = (repoint old.agent_name p i s.pointers).1;
            history = history;
          })
          old.agent_name
          i
          (f old)
  switch-Activates s history p i f old c found id_eq name_eq is_active at_p apart =
      let (w, found_p, _, _) = c.pointed old.agent_name p at_p in
      let (_, pointers) = repoint_lem old.agent_name p i s.pointers at_p in
      let first = λ (j : ℕ).
        find-alter p j (with_status superseded) s.versions w found_p
          (find-id p s.versions w found_p) in
      let found' : find_version i (alter p (with_status superseded) s.versions) ≡ some old =
        first i ∙ rw apart found in
      let both = λ (j : ℕ).
        find-alter i j f (alter p (with_status superseded) s.versions) old found' id_eq in
      record {
        is_active = is_active;
        named = name_eq;
        same_agent = λ v h. cc;
        find_row = both i ∙ rw (==_refl i) refl;
        find_previous = λ id v before other h is_active'.
            let same : p ≡ id = cc in
            let after = sym (both id) ∙ h in
            let hidden = sym (first id) ∙ (rw other at after) in
            let w_v : with_status superseded w ≡ v = cc (rw ((==_iff p id).1 same) at hidden) in
            let clash : superseded ≡ active =
              ap (λ (x : AgentVersion F). x.status) w_v ∙ is_active' in
            cc;
        find_other = λ id other not_before.
            both id
            ∙ rw other (first id ∙ rw (==_ne p id (λ same. not_before (rw same at at_p))) refl);
        lookup_row = pointers old.agent_name ∙ rw (str_eq_refl old.agent_name) refl;
        lookup_other = λ name other. pointers name ∙ rw other refl;
      }

  -- The version at key `i` becomes the first active one of its agent.
  pub first-Activates :
      (s : VersionStore F) (history : List ActivationHistoryEntry) (i : ℕ)
      (f : AgentVersion F → AgentVersion F) (old : AgentVersion F)
      → find_version i s.versions ≡ some old
      → (f old).id ≡ i
      → (f old).agent_name ≡ old.agent_name
      → (f old).status ≡ active
      → lookup old.agent_name s.pointers ≡ none
      → Activates s
          (record {
            versions = alter i f s.versions;
            pointers = s.pointers ++ (old.agent_name, i) ∷ [];
            history = history;
          })
          old.agent_name
          i
          (f old)
  first-Activates s history i f old found id_eq name_eq is_active none_yet =
      let changed = λ (j : ℕ). find-alter i j f s.versions old found id_eq in
      let pointers = λ (n : String). lookup-add n old.agent_name i s.pointers none_yet in
      record {
        is_active = is_active;
        named = name_eq;
        same_agent = λ v h. cc;
        find_row = changed i ∙ rw (==_refl i) refl;
        find_previous = λ id v before other h is_active'. cc;
        find_other = λ id other not_before. changed id ∙ rw other refl;
        lookup_row = pointers old.agent_name ∙ rw (str_eq_refl old.agent_name) refl;
        lookup_other = λ name other. pointers name ∙ rw other refl;
      }
