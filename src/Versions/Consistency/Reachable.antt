-- ===== src/Versions/Consistency/Reachable.antt =====
-- Every sequence of methods keeps the tables consistent.
use loopgraph_supervisor.Prelude.{
  ℕ, ◌≡◌, refl, ◌∙◌, Bool, true, false, not, String, str_eq, eq_iff, Option, none, List, [], ◌∷◌,
  ◌++◌, ==_refl, lookup, any, is_empty, Option-cases, inl, inr,
}
use loopgraph_supervisor.Domain.Json.{Fields}
use loopgraph_supervisor.Domain.Models.{AgentBundle}
use loopgraph_supervisor.Versions.Tables.{
  active, AgentVersion, ActivationHistoryEntry, VersionStore, find_version,
}
use loopgraph_supervisor.Versions.Records.{VersionCalls, versions_for_agent, new_record}
use loopgraph_supervisor.Versions.Rows.{keep-found, find-add, lookup-add, str_eq_refl}
use loopgraph_supervisor.Versions.Consistency.{
  IsConsistent, Activates, Activates-IsConsistent, add-IsConsistent,
}
use loopgraph_supervisor.Versions.Consistency.Steps.{
  guarded, unless_not, promote-IsConsistent, rollback-IsConsistent,
}
use loopgraph_supervisor.Versions.{
  create_initial, candidate_of, create_candidate, promote, rollback,
}

-- A call of a method that writes, with a new key for a new version.
pub data Step {F : Type 0} (s : VersionStore F) : VersionStore F → Type 0 where
  creates_initial :
      (calls : VersionCalls F) (bundle : AgentBundle F) (actor : String) (activate : Bool)
      → find_version calls.new_id s.versions ≡ none
      → Step s (create_initial calls bundle actor activate s).1
  creates_candidate :
      (calls : VersionCalls F) (parent_id : ℕ) (bundle : AgentBundle F) (actor summary : String)
      → find_version calls.new_id s.versions ≡ none
      → Step s (create_candidate calls parent_id bundle actor summary s).1
  promotes :
      (version_id : ℕ) (expected : Option ℕ) (actor reason : String) (summary : Fields F)
      → Step s (promote version_id expected actor reason summary s).1
  rolls_back :
      (name : String) (target_id expected : ℕ) (actor reason : String)
      → Step s (rollback name target_id expected actor reason s).1

-- The tables that calls lead to from empty ones.
pub data Reachable {F : Type 0} : VersionStore F → Type 0 where
  empty : Reachable (record { versions = []; pointers = []; history = [] })
  after : {s s' : VersionStore F} → Reachable s → Step s s' → Reachable s'

module _ {F : Type 0} where
  -- An agent without versions has no pointer.
  no_pointer :
      (s : VersionStore F) (name : String)
      → IsConsistent s
      → is_empty (versions_for_agent name s) ≡ true
      → lookup name s.pointers ≡ none
  unfolding versions_for_agent
  no_pointer s name c none_yet = elim (Option-cases (lookup name s.pointers)) [
    | inl no_row ↦ no_row
    | inr (id, at_id) ↦
        let (v, found, mine, _) = c.pointed name id at_id in
        absurd (
          cc (
            keep-found (λ v. str_eq v.agent_name name) id s.versions v found
                ((eq_iff v.agent_name name).1 mine),
            none_yet,
          ))
  ]

  -- A new version becomes the first active one of its agent.
  new-Activates :
      (s : VersionStore F) (history : List ActivationHistoryEntry) (row : AgentVersion F)
      → IsConsistent s
      → find_version row.id s.versions ≡ none
      → row.status ≡ active
      → lookup row.agent_name s.pointers ≡ none
      → Activates s
          (record {
            versions = s.versions ++ row ∷ [];
            pointers = s.pointers ++ (row.agent_name, row.id) ∷ [];
            history = history;
          })
          row.agent_name
          row.id
          row
  new-Activates s history row c fresh is_active none_yet =
      let added = λ (j : ℕ). find-add j s.versions row fresh in
      let pointers = λ (n : String). lookup-add n row.agent_name row.id s.pointers none_yet in
      record {
        is_active = is_active;
        named = refl;
        same_agent = λ v h. cc;
        find_row = added row.id ∙ rw (==_refl row.id) refl;
        find_previous = λ id v before other h is_active'. cc;
        find_other = λ id other not_before. added id ∙ rw other refl;
        lookup_row = pointers row.agent_name ∙ rw (str_eq_refl row.agent_name) refl;
        lookup_other = λ name other. pointers name ∙ rw other refl;
      }

  candidate_of-IsConsistent :
      (calls : VersionCalls F) (parent_id : ℕ) (bundle : AgentBundle F) (actor summary : String)
      (s : VersionStore F) (parent : AgentVersion F)
      → IsConsistent s
      → find_version calls.new_id s.versions ≡ none
      → IsConsistent (candidate_of calls parent_id bundle actor summary s parent).1
  unfolding candidate_of new_record
  candidate_of-IsConsistent calls parent_id bundle actor summary s parent c fresh =
      guarded IsConsistent (not (str_eq parent.agent_name bundle.name)) _ s _ c λ _.
        guarded IsConsistent
          (any (λ v. str_eq v.fingerprint (calls.fingerprint bundle))
            (versions_for_agent bundle.name s))
          _ s _ c λ _. add-IsConsistent s _ c fresh (λ same. cc)

  create_candidate-IsConsistent :
      (calls : VersionCalls F) (parent_id : ℕ) (bundle : AgentBundle F) (actor summary : String)
      (s : VersionStore F)
      → IsConsistent s
      → find_version calls.new_id s.versions ≡ none
      → IsConsistent (create_candidate calls parent_id bundle actor summary s).1
  unfolding create_candidate
  create_candidate-IsConsistent calls parent_id bundle actor summary s c fresh =
      elim (Option-cases (find_version parent_id s.versions)) [
        | inl missing ↦ rw (create_candidate, missing) c
        | inr (parent, found) ↦
            rw (create_candidate, found)
              (candidate_of-IsConsistent calls parent_id bundle actor summary s parent c fresh)
      ]

  create_initial-IsConsistent :
      (calls : VersionCalls F) (bundle : AgentBundle F) (actor : String) (activate : Bool)
      (s : VersionStore F)
      → IsConsistent s
      → find_version calls.new_id s.versions ≡ none
      → IsConsistent (create_initial calls bundle actor activate s).1
  unfolding create_initial new_record
  create_initial-IsConsistent calls bundle actor false s c fresh =
      guarded IsConsistent (not (is_empty (versions_for_agent bundle.name s))) _ s _ c
        λ _. add-IsConsistent s _ c fresh (λ same. cc)
  create_initial-IsConsistent calls bundle actor true s c fresh =
      guarded IsConsistent (not (is_empty (versions_for_agent bundle.name s))) _ s _ c λ first.
        let row = new_record calls bundle 1 none active actor "Initial version" in
        Activates-IsConsistent s _ bundle.name calls.new_id row c
          (new-Activates s _ row c fresh refl (no_pointer s bundle.name c (unless_not first)))

  Step-IsConsistent : {s s' : VersionStore F} → IsConsistent s → Step s s' → IsConsistent s'
  Step-IsConsistent {s} c (creates_initial calls bundle actor activate fresh) =
      create_initial-IsConsistent calls bundle actor activate s c fresh
  Step-IsConsistent {s} c (creates_candidate calls parent_id bundle actor summary fresh) =
      create_candidate-IsConsistent calls parent_id bundle actor summary s c fresh
  Step-IsConsistent {s} c (promotes version_id expected actor reason summary) =
      promote-IsConsistent version_id expected actor reason summary s c
  Step-IsConsistent {s} c (rolls_back name target_id expected actor reason) =
      rollback-IsConsistent name target_id expected actor reason s c

  -- After any sequence of calls from empty tables, refused ones included, in which each new version
  -- gets a key that no version has: each pointer is at an existing version of its agent with the
  -- status `active`, and each version with the status `active` is the one its agent's pointer is at,
  -- so an agent has at most one.
  pub Reachable-IsConsistent : (s : VersionStore F) → Reachable s → IsConsistent s
  Reachable-IsConsistent s empty = record {
    pointed = λ name id h. cc;
    active_pointer = λ id v h is_active. cc;
  }
  Reachable-IsConsistent s (after {s = before} r step) =
      Step-IsConsistent (Reachable-IsConsistent before r) step
