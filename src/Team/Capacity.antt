-- ===== src/Team/Capacity.antt =====
-- `TeamCoordinator.spawn` of src/loopgraph_supervisor/application/team.py keeps the team within the
-- policy's number of members, and leaves the status of the parent alone.
use loopgraph_supervisor.Prelude.{
  ◌≡◌, refl, sym, ◌∙◌, ap, subst, ℕ, ◌≤◌, Bool, false, String, Option, none, some, List, [], ◌∷◌,
  ◌++◌, length, ◌==◌, arith, inl, inr,
}
use loopgraph_supervisor.Floats.{Floats}
use loopgraph_supervisor.Domain.Events.{EventData, team_created}
use loopgraph_supervisor.Domain.Snapshot.{RunSnapshot}
use loopgraph_supervisor.EventStore.{Table, version, stamp}
use loopgraph_supervisor.EventStore.Streams.{IsNumbered, view}
use loopgraph_supervisor.Engine.Exec.{Exception, Result, ok, err, pure, Result-cases, bind_lem}
use loopgraph_supervisor.Engine.Config.{Supervisor}
use loopgraph_supervisor.Engine.Runs.{get_run}
use loopgraph_supervisor.Engine.Runs.Reads.{redacted}
use loopgraph_supervisor.Runtime.{Runtime}
use loopgraph_supervisor.Team.{
  TeamContext, ChildAgentSpec, TeamCalls, created_team, members_from, replay_team, note, team_of,
  spawn_in, spawn,
}
use loopgraph_supervisor.Team.Adds.{Adds-team, Adds-members, note_lem}
use loopgraph_supervisor.Engine.Phase.{Quietly}
use loopgraph_supervisor.Security.Payload.{redact_event}
use loopgraph_supervisor.EventStore.Streams.{view-grown}
use loopgraph_supervisor.Team.{member_step}
use loopgraph_supervisor.Team.Adds.{members_from-append}
use loopgraph_supervisor.Team.Limits.{
  IsTeam, replay_team-none, replay_team-some, created_team-last, spawn_in-bound, spawn_in-Adds,
  spawn_read, team_of-Adds, spawn-Adds,
}

module _ {F : Type 0} ⦃fl : Floats F⦄ (s : Supervisor F) (calls : TeamCalls F) (run : ℕ) where
  -- The team that `spawn` goes on with: its count is not below the number of members.
  record HasTeam (count : ℕ) (t : Table F) : Type 0 where
    opened : (id : ℕ) × (created_team (view t run) ≡ some id)
    few : length (members_from ([]) (view t run)) ≤ count

  abbrev opens : String → List (EventData F)
  opens actor = redacted s (team_created calls.team_id actor ∷ [])

  abbrev opened_team : String → Runtime F → Runtime F
  opened_team actor st = record st {
    table = st.table ++ stamp run (version st.table run) (opens actor);
  }

  -- A run without a team gets one where it can be read.
  team_of-none :
      (actor : String) (st : Runtime F)
      → team_of s calls run actor none st ≡ elim (get_run run st.table).0 [
        | err x ↦ (err x, st)
        | ok snapshot ↦ (ok (calls.team_id, 0), opened_team actor st)
      ]
  unfolding team_of
  team_of-none actor st =
      bind_lem (note s run (team_created calls.team_id actor)) (λ _. pure (calls.team_id, 0)) st _
        (note_lem s run (team_created calls.team_id actor) st)
      ∙ elim (Result-cases (get_run run st.table).0) [
        | inr (x, bad) ↦ rw bad refl
        | inl (snapshot, good) ↦ rw good refl
      ]

  team_of-raises :
      (actor : String) (o : Option TeamContext) (st : Runtime F) (e : Exception F)
      → (team_of s calls run actor o st).0 ≡ err e
      → (team_of s calls run actor o st).1 ≡ st
  unfolding team_of
  team_of-raises actor (some c) st e h = refl
  team_of-raises actor none st e h = elim (Result-cases (get_run run st.table).0) [
    | inr (x, bad) ↦ rw (team_of-none actor st, bad) refl
    | inl (snapshot, good) ↦ absurd (cc (rw (team_of-none actor st, good) at h))
  ]

  -- The count of the team is that of its members.
  opened-HasTeam :
      (actor : String) (st : Runtime F)
      → members_from ([]) (view st.table run) ≡ []
      → HasTeam 0 (opened_team actor st).table
  unfolding members_from member_step redact_event
  opened-HasTeam actor st nobody =
      let grown = view-grown st.table run (version st.table run) (opens actor) in
      record {
        opened = rw grown (created_team-last (view st.table run) calls.team_id _);
        few =
            rw (grown, members_from-append ([]) (view st.table run) (opens actor), nobody)
              (omega arith);
      }

  nobody_yet :
      (n : ℕ) (t : Table F)
      → IsTeam run n t
      → created_team (view t run) ≡ none
      → members_from ([]) (view t run) ≡ []
  nobody_yet n t team closed = elim team.opened [
    | inl nobody ↦ nobody
    | inr (id, there) ↦ absurd (cc (closed, there))
  ]

  abbrev counted : Result F (ℕ × ℕ) → ℕ
  counted (ok (_, k)) = k
  counted (err e) = 0

  team_of-HasTeam :
      (actor : String) (st : Runtime F) (n id count : ℕ) (o : Option TeamContext)
      → IsTeam run n st.table
      → replay_team run (view st.table run) ≡ o
      → (team_of s calls run actor o st).0 ≡ ok (id, count)
      → HasTeam count (team_of s calls run actor o st).1.table
  unfolding team_of
  team_of-HasTeam actor st n id count (some c) team found h =
      let (there, size) = replay_team-some run (view st.table run) c found in
      record { opened = (c.team_id, there); few = omega (arith, size, ap counted h) }
  team_of-HasTeam actor st n id count none team missing h =
      let nobody = nobody_yet n st.table team (replay_team-none run (view st.table run) missing) in
      elim (Result-cases (get_run run st.table).0) [
        | inr (x, bad) ↦ absurd (cc (rw (team_of-none actor st, bad) at h))
        | inl (snapshot, good) ↦
            let e : 0 ≡ count = ap counted (rw (team_of-none actor st, good) at h) in
            rw (team_of-none actor st, good)
              (subst (λ k. HasTeam k (opened_team actor st).table) e
                (opened-HasTeam actor st nobody))
      ]

  -- Where the runs are numbered and the parent's run can be read, `spawn` keeps the team as it was:
  -- nobody is a member before the team is created, and the members are at most the
  -- `max_subagents` of the parent's policy. This holds however it ends, for a child with an id of its
  -- own.
  pub spawn-IsTeam :
      (spec : ChildAgentSpec F) (actor : String) (start_it : Bool) (st : Runtime F)
      (parent : RunSnapshot F)
      → (calls.child_id == run) ≡ false
      → (get_run run st.table).0 ≡ ok parent
      → IsTeam run parent.definition.supervisor_policy.max_subagents st.table
      → IsTeam run parent.definition.supervisor_policy.max_subagents
          (spawn s calls run spec actor start_it st).1.table
  spawn-IsTeam spec actor start_it st parent apart good team =
      let n = parent.definition.supervisor_policy.max_subagents in
      let read = replay_team run (view st.table run) in
      let known = team_of s calls run actor read in
      let next = spawn_in s calls run parent.definition spec actor start_it in
      let asked = team_of-Adds s calls run apart spec actor start_it read st team.numbered in
      let w = asked.numbered in
      subst (λ x. IsTeam run n x.1.table)
        (sym (spawn_read s calls run apart spec actor start_it st parent team.numbered good))
        (elim (Result-cases (known st).0) [
          | inr (e, bad) ↦
              rw bad
                (subst (λ x. IsTeam run n x.table) (sym (team_of-raises actor read st e bad)) team)
          | inl ((id, count), fine) ↦
              let team' = team_of-HasTeam actor st n id count read team refl fine in
              let added =
                spawn_in-Adds s calls run apart spec actor start_it parent.definition (id, count)
                  (known st).1 w in
              rw fine (record {
                numbered = added.numbered;
                opened = inr (team'.opened.0, Adds-team _ added team'.opened.1);
                bound =
                    spawn_in-bound s calls run apart spec actor start_it parent.definition id count
                      (known st).1 w team'.few (omega (arith, Adds-members asked, team.bound));
              })
        ])

  -- Where the runs are numbered, `spawn` adds to the parent's run, however it ends, only events that
  -- leave its status and its attempt alone, for a child with an id of its own.
  pub spawn-Quietly :
      (spec : ChildAgentSpec F) (actor : String) (start_it : Bool) (st : Runtime F)
      → (calls.child_id == run) ≡ false
      → IsNumbered st.table
      → Quietly run st.table (spawn s calls run spec actor start_it st).1.table
  spawn-Quietly spec actor start_it st apart w =
      let added = spawn-Adds s calls run apart spec actor start_it st w in
      record {
        new = added.new;
        numbered = added.numbered;
        grown = added.grown;
        quiet = added.quiet;
      }
