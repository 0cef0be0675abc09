-- ===== src/Team.antt =====
-- The team of a run: src/loopgraph_supervisor/domain/team.py and application/team.py.
pub mod Adds
pub mod Spawning
pub mod Limits
pub mod Capacity
pub mod Children
pub mod Store
use loopgraph_supervisor.Prelude.{
  ℕ, suc, ◌+◌, Bool, true, false, not, ◌&&◌, String, str_eq, Option, none, some, List, [], ◌∷◌, map,
  length, leb, ltb, lookup_id, put_id, is_empty, if◌then◌else◌,
}
use loopgraph_supervisor.Floats.{Floats}
use loopgraph_supervisor.Domain.Json.{Fields, text}
use loopgraph_supervisor.Domain.Models.{AgentBundle}
use loopgraph_supervisor.Domain.Runs.{RunDefinition, require_graders}
use loopgraph_supervisor.Domain.Events.{
  TeamMember, EventData, StoredEvent, team_created, team_member_spawn_requested,
  team_member_spawn_failed, team_member_spawned, team_member_completed, team_member_failed,
}
use loopgraph_supervisor.Domain.Snapshot.{RunSnapshot}
use loopgraph_supervisor.Evolution.Mutator.Dicts.{put_field}
use loopgraph_supervisor.EventStore.{load}
use loopgraph_supervisor.Engine.Exec.{
  Exception, value_error, raised, safe_error, Result, ok, err, Exec, pure, raise, lift, get, settle,
  ◌>>=◌, ◌>>◌,
}
use loopgraph_supervisor.Engine.Config.{Supervisor}
use loopgraph_supervisor.Engine.Runs.{create_run, get_run, append_control_event}
use loopgraph_supervisor.Runtime.{Runtime, with_table, start}

pub record TeamContext : Type 0 where
  pub team_id : ℕ
  pub leader_run_id : ℕ
  pub members : List TeamMember

abbrev pub mark_member :
    ℕ → String → Option TeamMember → List (ℕ × TeamMember) → List (ℕ × TeamMember)
mark_member run status none members = members
mark_member run status (some current) members =
    put_id run (record current { status = status }) members

module _ {F : Type 0} where
  -- `next((event for event in events if event.type == "team.created"), None)`: its team id.
  unfoldable pub created_team : List (EventData F) → Option ℕ
  created_team [] = none
  created_team (team_created id actor ∷ es) = some id
  created_team (_ ∷ es) = created_team es

  -- One turn of the loop of `replay`, and the loop.
  unfoldable pub member_step : List (ℕ × TeamMember) → EventData F → List (ℕ × TeamMember)
  member_step members (team_member_spawned member actor) = put_id member.run_id member members
  member_step members (team_member_completed run) =
      mark_member run "completed" (lookup_id run members) members
  member_step members (team_member_failed run) =
      mark_member run "failed" (lookup_id run members) members
  member_step members e = members

  unfoldable pub members_from : List (ℕ × TeamMember) → List (EventData F) → List (ℕ × TeamMember)
  unfolding member_step
  members_from members [] = members
  members_from members (e ∷ es) = members_from (member_step members e) es

  -- `TeamContext.replay` of the events of a run; `none` is its `KeyError`.
  unfoldable pub replay_team : ℕ → List (EventData F) → Option TeamContext
  unfolding created_team members_from
  replay_team run events = elim (created_team events) [
    | none ↦ none
    | some id ↦ some (record {
      team_id = id;
      leader_run_id = run;
      members = map (λ m. m.1) (members_from ([]) events);
    })
  ]

  -- `{**parent.definition.metadata, **spec.metadata}`
  unfoldable pub merge_metadata : Fields F → List (String × String) → Fields F
  unfolding put_field
  merge_metadata metadata [] = metadata
  merge_metadata metadata ((key, value) ∷ rest) =
      merge_metadata (put_field key (text value) metadata) rest

pub record ChildAgentSpec (F : Type 0) : Type 0 where
  pub role : String
  pub goal : String
  pub harness_id : Option String
  pub agent_bundle : Option (AgentBundle F)
  pub grader_ids : Option (List String)
  pub metadata : List (String × String)

-- What `spawn` calls: two times `uuid4`, and the check of the field limits of `RunDefinition`.
pub record TeamCalls (F : Type 0) : Type 0 where
  pub team_id : ℕ
  pub child_id : ℕ
  pub within_limits : RunDefinition F → Bool

-- `spec.harness_id or …` and `spec.grader_ids or …`
abbrev pub harness_or : Option String → String → String
harness_or none old = old
harness_or (some id) old = if str_eq id "" then old else id

abbrev pub graders_or : Option (List String) → List String → List String
graders_or none old = old
graders_or (some ids) old = if is_empty ids then old else ids

module _ {F : Type 0} where
  -- The definition of the child's run.
  unfoldable pub child_definition :
      (parent_run_id team_id : ℕ) → RunDefinition F → ChildAgentSpec F → RunDefinition F
  unfolding merge_metadata
  child_definition parent_run_id team_id parent spec = record {
    goal = spec.goal;
    harness_id = harness_or spec.harness_id parent.harness_id;
    agent_bundle = elim spec.agent_bundle [ none ↦ parent.agent_bundle | some b ↦ b ];
    agent_version_id = elim spec.agent_bundle [ none ↦ parent.agent_version_id | some b ↦ none ];
    grader_ids = graders_or spec.grader_ids parent.grader_ids;
    grading_policy = parent.grading_policy;
    supervisor_policy = parent.supervisor_policy;
    parent_run_id = some parent_run_id;
    team_id = some team_id;
    role = spec.role;
    depth = parent.depth + 1;
    metadata = merge_metadata parent.metadata spec.metadata;
  }

  -- `RunDefinition(…)` raises where the model refuses the values.
  unfoldable pub validated : TeamCalls F → RunDefinition F → Result F (RunDefinition F)
  validated calls d =
      if require_graders d.grader_ids && calls.within_limits d then ok d else err value_error

module _ {F : Type 0} ⦃fl : Floats F⦄ where
  -- What an event of the coordinator adds.
  unfoldable pub note : Supervisor F → ℕ → EventData F → Exec F (Runtime F) (Unit {0})
  unfolding with_table append_control_event
  note s run event = with_table (append_control_event s run event)

  -- The team of the run and its number of members; a run without a team gets one.
  unfoldable pub team_of :
      Supervisor F → TeamCalls F → ℕ → String → Option TeamContext → Exec F (Runtime F) (ℕ × ℕ)
  unfolding note
  team_of s calls run actor none = do
    note s run (team_created calls.team_id actor)
    pure (calls.team_id, 0)
  team_of s calls run actor (some context) = pure (context.team_id, length context.members)

  -- The end of `spawn`, for what `create_run` returns or raises.
  unfoldable pub settle_child :
      Supervisor F
      → TeamCalls F
      → ℕ
      → ChildAgentSpec F
      → (actor : String) (start_it : Bool) → Result F ℕ
      → Exec F (Runtime F) ℕ
  unfolding note start
  settle_child s calls run spec actor start_it (ok _) = do
    note s run (
        team_member_spawned
          (record {
            run_id = calls.child_id;
            role = spec.role;
            goal = spec.goal;
            status = "created";
          })
          actor)
    if start_it then (start calls.child_id >> pure calls.child_id) else pure calls.child_id
  settle_child s calls run spec actor start_it (err e) = do
    note s run (team_member_spawn_failed calls.child_id (safe_error e))
    raise e

  unfoldable pub spawn_child :
      Supervisor F
      → TeamCalls F
      → ℕ
      → RunDefinition F
      → ChildAgentSpec F
      → (actor : String) (start_it : Bool) (team_id : ℕ) → Exec F (Runtime F) ℕ
  unfolding note validated child_definition settle_child with_table create_run
  spawn_child s calls run parent spec actor start_it team_id = do
    note s run (team_member_spawn_requested calls.child_id spec.role spec.goal actor)
    definition ← lift (validated calls (child_definition run team_id parent spec))
    λ st.
        let (created, st') = with_table (create_run s definition calls.child_id) st in
        settle_child s calls run spec actor start_it created st'

  unfoldable pub spawn_in :
      Supervisor F
      → TeamCalls F
      → ℕ
      → RunDefinition F
      → ChildAgentSpec F
      → (actor : String) (start_it : Bool) → ℕ × ℕ
      → Exec F (Runtime F) ℕ
  unfolding spawn_child
  spawn_in s calls run parent spec actor start_it (team_id, member_count) =
      if leb parent.supervisor_policy.max_subagents member_count
      then raise (raised "SubagentLimitError")
      else if leb parent.supervisor_policy.max_subagent_depth parent.depth
      then raise (raised "SubagentLimitError")
      else spawn_child s calls run parent spec actor start_it team_id

  -- `TeamCoordinator.spawn`, under the lock of the parent's run.
  unfoldable pub spawn :
      Supervisor F
      → TeamCalls F
      → ℕ
      → ChildAgentSpec F
      → (actor : String) (start_it : Bool) → Exec F (Runtime F) ℕ
  unfolding with_table team_of replay_team spawn_in
  spawn s calls run spec actor start_it = do
    parent ← with_table (get_run run)
    st ← get
    team ←
        team_of s calls run actor (replay_team run (map (λ e. e.event) (load st.table run 0 none)))
    spawn_in s calls run parent.definition spec actor start_it team

  -- `TeamCoordinator.context`
  unfoldable pub context : ℕ → Runtime F → Option TeamContext
  unfolding replay_team
  context run st = replay_team run (map (λ e. e.event) (load st.table run 0 none))
