-- ===== src/Team/Store.antt =====
-- `TeamCoordinator.spawn` of src/loopgraph_supervisor/application/team.py leaves the version store
-- alone.
use loopgraph_supervisor.Prelude.{◌≡◌, ℕ, Bool, String, Option, none, some, map, leb}
use loopgraph_supervisor.Floats.{Floats}
use loopgraph_supervisor.Domain.Runs.{RunDefinition}
use loopgraph_supervisor.Domain.Events.{EventData}
use loopgraph_supervisor.Domain.Snapshot.{RunSnapshot}
use loopgraph_supervisor.EventStore.{Table, load}
use loopgraph_supervisor.Engine.Exec.{Result, ok, err, Exec}
use loopgraph_supervisor.Engine.Config.{Supervisor}
use loopgraph_supervisor.Engine.Runs.{create_run, get_run}
use loopgraph_supervisor.Runtime.{Runtime, with_table, start}
use loopgraph_supervisor.Tasks.{cannot_start, is_active}
use loopgraph_supervisor.Team.{
  TeamContext, ChildAgentSpec, TeamCalls, replay_team, note, team_of, settle_child, spawn_child,
  spawn_in, spawn,
}
use loopgraph_supervisor.Versions.Tables.{VersionStore}
use loopgraph_supervisor.Engine.Keeps.{
  Keeps, Keeps-pure, Keeps-raise, Keeps-lift, Keeps-bind, Keeps-if, Keeps-get, Keeps-modify,
}

module _ {F : Type 0} ⦃fl : Floats F⦄ (s : Supervisor F) (calls : TeamCalls F)
    (v₀ : VersionStore F) where
  -- The state of the version store.
  abbrev Same : Runtime F → Type 0
  Same st = st.versions ≡ v₀

  table-Keeps : {A : Type 0} (m : Exec F (Table F) A) → Keeps Same (with_table m)
  unfolding with_table
  table-Keeps m = record { at = λ st h. h }

  start-Keeps : (run : ℕ) → Keeps Same (start run)
  unfolding start
  start-Keeps run = Keeps-bind _ _ Keeps-get λ st.
      Keeps-if (is_active run st.tasks) _ _ (Keeps-raise _) (
        Keeps-bind _ _ (table-Keeps _) λ (x : RunSnapshot F).
          Keeps-if (cannot_start x.status) _ _ (Keeps-raise _) (Keeps-modify _ (λ _ h. h)))

  note-Keeps : (run : ℕ) (e : EventData F) → Keeps Same (note s run e)
  unfolding note
  note-Keeps run e = table-Keeps _

  team_of-Keeps :
      (run : ℕ) (actor : String) (o : Option TeamContext) → Keeps Same (team_of s calls run actor o)
  unfolding team_of
  team_of-Keeps run actor none = Keeps-bind _ _ (note-Keeps run _) λ _. Keeps-pure _
  team_of-Keeps run actor (some c) = Keeps-pure _

  settle-Keeps :
      (run : ℕ) (spec : ChildAgentSpec F) (actor : String) (start_it : Bool) (r : Result F ℕ)
      → Keeps Same (settle_child s calls run spec actor start_it r)
  unfolding settle_child
  settle-Keeps run spec actor start_it (ok _) = Keeps-bind _ _ (note-Keeps run _) λ _.
      Keeps-if start_it _ _
        (Keeps-bind _ _ (start-Keeps calls.child_id) λ _. Keeps-pure calls.child_id)
        (Keeps-pure calls.child_id)
  settle-Keeps run spec actor start_it (err e) =
      Keeps-bind _ _ (note-Keeps run _) λ _. Keeps-raise _

  create_run-Keeps :
      (run : ℕ) (spec : ChildAgentSpec F) (actor : String) (start_it : Bool) (d : RunDefinition F)
      → Keeps Same λ st.
        let (created, st') = with_table (create_run s d calls.child_id) st in
        settle_child s calls run spec actor start_it created st'
  create_run-Keeps run spec actor start_it d = record {
    at = λ st h.
        (settle-Keeps run spec actor start_it (with_table (create_run s d calls.child_id) st).0).at
          _ ((table-Keeps (create_run s d calls.child_id)).at st h);
  }

  spawn_child-Keeps :
      (run : ℕ) (parent : RunDefinition F) (spec : ChildAgentSpec F) (actor : String)
      (start_it : Bool) (team_id : ℕ)
      → Keeps Same (spawn_child s calls run parent spec actor start_it team_id)
  unfolding spawn_child
  spawn_child-Keeps run parent spec actor start_it team_id =
      Keeps-bind _ _ (note-Keeps run _)
        λ _. Keeps-bind _ _ (Keeps-lift _) λ d. create_run-Keeps run spec actor start_it d

  spawn_in-Keeps :
      (run : ℕ) (parent : RunDefinition F) (spec : ChildAgentSpec F) (actor : String)
      (start_it : Bool) (team : ℕ × ℕ)
      → Keeps Same (spawn_in s calls run parent spec actor start_it team)
  unfolding spawn_in
  spawn_in-Keeps run parent spec actor start_it (team_id, count) =
      Keeps-if (leb parent.supervisor_policy.max_subagents count) _ _ (Keeps-raise _) (
        Keeps-if (leb parent.supervisor_policy.max_subagent_depth parent.depth) _ _ (Keeps-raise _)
          (spawn_child-Keeps run parent spec actor start_it team_id))

  pub spawn-Keeps :
      (run : ℕ) (spec : ChildAgentSpec F) (actor : String) (start_it : Bool)
      → Keeps Same (spawn s calls run spec actor start_it)
  unfolding spawn
  spawn-Keeps run spec actor start_it =
      Keeps-bind _ _ (table-Keeps (get_run run)) λ (parent : RunSnapshot F).
        Keeps-bind _ _ Keeps-get λ st.
          Keeps-bind _ _
            (team_of-Keeps run actor
              (replay_team run (map (λ e. e.event) (load st.table run 0 none))))
            λ team. spawn_in-Keeps run parent.definition spec actor start_it team
