-- ===== src/Team/Limits.antt =====
-- The limits of `TeamCoordinator.spawn` of src/loopgraph_supervisor/application/team.py.
use loopgraph_supervisor.Prelude.{
  ◌⊎◌, ◌≡◌, refl, sym, ◌∙◌, ap, ℕ, ◌+◌, ◌≤◌, Bool, false, String, Option, none, some, List, [], ◌∷◌,
  ◌++◌, length, map, length-map, ◌==◌, leb, arith, Bool-cases, Option-cases, inl, inr,
}
use loopgraph_supervisor.Floats.{Floats}
use loopgraph_supervisor.Domain.Runs.{RunDefinition}
use loopgraph_supervisor.Domain.Events.{EventData, run_created, team_created}
use loopgraph_supervisor.Domain.Snapshot.{RunSnapshot}
use loopgraph_supervisor.EventStore.{Table}
use loopgraph_supervisor.EventStore.Streams.{IsNumbered, view}
use loopgraph_supervisor.Engine.Exec.{ok, pure, ◌>>=◌, Result-cases}
use loopgraph_supervisor.Engine.Config.{Supervisor}
use loopgraph_supervisor.Engine.Runs.{get_run}
use loopgraph_supervisor.Engine.Runs.Reads.{load-rows}
use loopgraph_supervisor.Runtime.{Runtime, with_table}
use loopgraph_supervisor.Team.{
  TeamContext, ChildAgentSpec, TeamCalls, created_team, members_from, replay_team, note, team_of,
  spawn_in, spawn,
}
use loopgraph_supervisor.Team.Adds.{Adds, Adds-none, Adds-members, Adds-bind, note-Adds}
use loopgraph_supervisor.Team.Spawning.{spawn_child-Adds}

-- The events of a run's team: nobody is a member before the team is created, and there are at most
-- `n` members.
pub record IsTeam {F : Type 0} (run n : ℕ) (t : Table F) : Type 0 where
  pub numbered : IsNumbered t
  pub opened :
      (members_from ([]) (view t run) ≡ []) ⊎ ((id : ℕ) × (created_team (view t run) ≡ some id))
  pub bound : length (members_from ([]) (view t run)) ≤ n

module _ {F : Type 0} where
  pub replay_team-none :
      (run : ℕ) (es : List (EventData F)) → replay_team run es ≡ none → created_team es ≡ none
  unfolding replay_team
  replay_team-none run es h = elim (Option-cases (created_team es)) [
    | inl closed ↦ closed
    | inr (id, there) ↦ absurd (cc (rw (replay_team, there) at h))
  ]

  abbrev context_of : ℕ → ℕ → List (EventData F) → TeamContext
  context_of run id es = record {
    team_id = id;
    leader_run_id = run;
    members = map (λ m. m.1) (members_from ([]) es);
  }

  pub replay_team-some :
      (run : ℕ) (es : List (EventData F)) (c : TeamContext)
      → replay_team run es ≡ some c
      → (created_team es ≡ some c.team_id) × (length c.members ≡ length (members_from ([]) es))
  unfolding replay_team
  replay_team-some run es c h = elim (Option-cases (created_team es)) [
    | inl closed ↦ absurd (cc (rw (replay_team, closed) at h))
    | inr (id, there) ↦
        let e : context_of run id es ≡ c = cc (rw (replay_team, there) at h) in
        (
          there ∙ ap (λ c. some c.team_id) e,
          ap (λ c. length c.members) (sym e) ∙ length-map (λ m. m.1) (members_from ([]) es),
        )
  ]

  pub created_team-last :
      (xs : List (EventData F)) (team : ℕ) (actor : String)
      → (id : ℕ) × (created_team (xs ++ team_created team actor ∷ []) ≡ some id)
  unfolding created_team
  created_team-last [] team actor = (team, refl)
  created_team-last (run_created d ∷ xs) team actor = created_team-last xs team actor
  created_team-last (team_created id a ∷ xs) team actor = (id, refl)
  created_team-last (_ ∷ xs) team actor = created_team-last xs team actor

module _ {F : Type 0} ⦃fl : Floats F⦄ (s : Supervisor F) (calls : TeamCalls F) (run : ℕ)
    (apart : (calls.child_id == run) ≡ false) (spec : ChildAgentSpec F) (actor : String)
    (start_it : Bool) where
  pub spawn_in-Adds :
      (parent : RunDefinition F) (team : ℕ × ℕ) (st : Runtime F)
      → IsNumbered st.table
      → Adds run 1 st.table (spawn_in s calls run parent spec actor start_it team st).1.table
  unfolding spawn_in
  spawn_in-Adds parent (team_id, count) st w =
      elim (Bool-cases (leb parent.supervisor_policy.max_subagents count)) [
        | inl full ↦ rw full (Adds-none w)
        | inr room ↦
            elim (Bool-cases (leb parent.supervisor_policy.max_subagent_depth parent.depth)) [
              | inl deep ↦ rw (room, deep) (Adds-none w)
              | inr shallow ↦
                  rw (room, shallow)
                    (spawn_child-Adds s calls run apart spec actor start_it parent team_id st w)
            ]
      ]

  pub spawn_in-bound :
      (parent : RunDefinition F) (team_id count : ℕ) (st : Runtime F)
      → IsNumbered st.table
      → length (members_from ([]) (view st.table run)) ≤ count
      → length (members_from ([]) (view st.table run)) ≤ parent.supervisor_policy.max_subagents
      → length (
          members_from ([]) (
            view (spawn_in s calls run parent spec actor start_it (team_id, count) st).1.table run))
        ≤ parent.supervisor_policy.max_subagents
  unfolding spawn_in
  spawn_in-bound parent team_id count st w few bound =
      let added = Adds-members (spawn_in-Adds parent (team_id, count) st w) in
      elim (Bool-cases (leb parent.supervisor_policy.max_subagents count)) [
        | inl full ↦ rw full bound
        | inr room ↦ room_left count parent.supervisor_policy.max_subagents _ _ room few added
      ]
    where
      room_left :
          (count most old new : ℕ)
          → leb most count ≡ false
          → old ≤ count
          → new ≤ old + 1
          → new ≤ most
      room_left count most old new h k l = ground arith

  -- Where the parent can be read, `spawn` goes on from the team that its events show.
  pub spawn_read :
      (st : Runtime F) (parent : RunSnapshot F)
      → IsNumbered st.table
      → (get_run run st.table).0 ≡ ok parent
      → spawn s calls run spec actor start_it st
        ≡ (team_of s calls run actor (replay_team run (view st.table run))
              >>= spawn_in s calls run parent.definition spec actor start_it)
            st
  unfolding spawn with_table get_run
  spawn_read st parent w h = rw (spawn, h, load-rows st.table run w) refl

  pub team_of-Adds :
      (o : Option TeamContext) (st : Runtime F)
      → IsNumbered st.table
      → Adds run 0 st.table (team_of s calls run actor o st).1.table
  unfolding team_of
  team_of-Adds none st w =
      Adds-bind {j = 0} {k = 0} (note s run _) (λ _. pure (calls.team_id, 0)) st
        (note-Adds s run 0 (team_created calls.team_id actor) st refl (omega arith) w)
        (λ _ _.
          Adds-none
            (note-Adds s run 0 (team_created calls.team_id actor) st refl (omega arith) w).numbered)
  team_of-Adds (some c) st w = Adds-none w

  pub spawn-Adds :
      (st : Runtime F)
      → IsNumbered st.table
      → Adds run 1 st.table (spawn s calls run spec actor start_it st).1.table
  unfolding spawn with_table get_run
  spawn-Adds st w = elim (Result-cases (get_run run st.table).0) [
    | inr (e, bad) ↦ rw (spawn, bad) (Adds-none w)
    | inl (parent, good) ↦
        let read = replay_team run (view st.table run) in
        let known = team_of-Adds read st w in
        rw (spawn_read st parent w good) (
          Adds-bind {j = 0} {k = 1} (team_of s calls run actor read)
            (spawn_in s calls run parent.definition spec actor start_it) st known
            (λ team _. spawn_in-Adds parent.definition team _ known.numbered))
  ]
