-- ===== src/Tests/Teams.antt =====
-- The theorems on tasks, teams and the actions of a Supervisor Agent.
use loopgraph_supervisor.Security.Redaction.{redact_text}
use loopgraph_supervisor.Security.Payload.{stays_valid}
use loopgraph_supervisor.Domain.Runs.{require_graders}
use loopgraph_supervisor.Security.Payload.{redact_event}
use loopgraph_supervisor.Domain.Snapshot.{step}
use loopgraph_supervisor.EventStore
use loopgraph_supervisor.Team.{members_from}
use loopgraph_supervisor.Domain.Snapshot.{last_sequence}
use loopgraph_supervisor.Prelude.{
  ℕ, ◌+◌, ◌≤◌, ◌⊎◌, inl, ◌≡◌, refl, arith, true, false, none, some, [], ◌∷◌, ◌++◌, ◌==◌,
  if◌then◌else◌,
}
use loopgraph_supervisor.Floats.Fixed.{thousandths}
use loopgraph_supervisor.Domain.Runs.{created, RunDefinition}
use loopgraph_supervisor.Domain.Events.{run_created}
use loopgraph_supervisor.Engine.Exec.{ok, err, raised}
use loopgraph_supervisor.Engine.Runs.{get_run}
use loopgraph_supervisor.EventStore.{load, stamp, version}
use loopgraph_supervisor.Domain.Snapshot.{replay, validate, in_bounds, steps, initial}
use loopgraph_supervisor.EventStore.Streams.{view}
use loopgraph_supervisor.Tasks.{Tasks, new_manager, cannot_start, publish, enter, is_active}
use loopgraph_supervisor.Tasks.Steps.{Works, entered, Reachable, new, started, works}
use loopgraph_supervisor.Tasks.Bounds.{IsBalanced, Reachable-IsBalanced}
use loopgraph_supervisor.Tasks.Progress.{
  no_more, one_more, work_left, IsInEngine, IsAdmitting, Runs-drain,
}
use loopgraph_supervisor.Runtime.{Runtime, start}
use loopgraph_supervisor.Runtime.Starting.{start_once}
use loopgraph_supervisor.Team.{ChildAgentSpec, TeamCalls, spawn}
use loopgraph_supervisor.Team.Limits.{IsTeam}
use loopgraph_supervisor.Team.Capacity.{spawn-IsTeam}
use loopgraph_supervisor.Team.Children.{spawn-child}
use loopgraph_supervisor.Engine.Runs.Reads.{redacted}
use loopgraph_supervisor.Tests.Data
use loopgraph_supervisor.Tests.Data.{
  demo_definition, demo_supervisor, started-IsNumbered, demo_snapshot,
}

abbrev manager : Tasks ℕ
manager = record { max_concurrency = 1; value = 1; tasks = []; errors = [] }

manager-Reachable : Reachable manager
unfolding new_manager
manager-Reachable = new 1 manager refl

idle : is_active 7 manager ≡ false
unfolding is_active
idle = refl

abbrev queued : Tasks ℕ
queued = publish 7 manager

queued-Reachable : Reachable queued
queued-Reachable = started manager 7 manager-Reachable idle

queued-enters : Works queued (enter 7 queued)
unfolding publish
queued-enters = entered queued 7 refl (omega arith)

Reachable-IsBalanced_example : IsBalanced (enter 7 queued)
unfolding enter publish
Reachable-IsBalanced_example =
    Reachable-IsBalanced (enter 7 queued)
      (works queued (enter 7 queued) queued-Reachable queued-enters)

Runs-drain_example :
    (1 + work_left (enter 7 queued) ≤ work_left queued)
    × (((run : ℕ) → is_active run (enter 7 queued) ≡ false)
        ⊎ IsInEngine (enter 7 queued)
        ⊎ IsAdmitting (enter 7 queued))
Runs-drain_example =
    Runs-drain 1 queued (enter 7 queued) queued-Reachable
      (one_more 0 queued (enter 7 queued) (enter 7 queued) queued-enters (no_more (enter 7 queued)))

abbrev service : Runtime ℕ
service = record {
  table = Data.started;
  versions = record { versions = []; pointers = []; history = [] };
  memories = [];
  tasks = manager;
}

abbrev serving : Runtime ℕ
serving = record service { tasks = queued }

service-start : start 7 service ≡ (ok tt, serving)
unfolding start is_active get_run load stamp version replay validate in_bounds steps initial
    cannot_start
service-start = refl

start_once_example :
    (start 7 serving ≡ (err (raised "RunAlreadyActiveError"), serving))
    × ((other : ℕ)
        → is_active other serving.tasks
          ≡ (if 7 == other then true else is_active other service.tasks))
    × (serving.table ≡ service.table)
    × Reachable serving.tasks
start_once_example = start_once 7 service serving manager-Reachable service-start

abbrev team_calls : TeamCalls ℕ
team_calls = record { team_id = 3; child_id = 8; within_limits = λ d. true }

abbrev helper : ChildAgentSpec ℕ
helper = record {
  role = "helper";
  goal = "a source";
  harness_id = none;
  agent_bundle = none;
  grader_ids = none;
  metadata = ("topic", "sources") ∷ [];
}

parent-get_run : (get_run 7 service.table).0 ≡ ok (demo_snapshot created 1)
unfolding get_run load stamp version replay validate in_bounds steps initial last_sequence
parent-get_run = refl

no-IsTeam : IsTeam 7 1 service.table
unfolding stamp version members_from
no-IsTeam = record { numbered = started-IsNumbered; opened = inl refl; bound = omega arith }

spawn-IsTeam_example :
    IsTeam 7 1 (spawn demo_supervisor team_calls 7 helper "ada" true service).1.table
spawn-IsTeam_example =
    spawn-IsTeam demo_supervisor team_calls 7 helper "ada" true service (demo_snapshot created 1)
      refl parent-get_run no-IsTeam

abbrev grown_team : Runtime ℕ
grown_team = (spawn demo_supervisor team_calls 7 helper "ada" true service).1

helper-spawn : spawn demo_supervisor team_calls 7 helper "ada" true service ≡ (ok 8, grown_team)
unfolding spawn get_run load stamp version replay validate in_bounds steps initial EventStore.append
    step redact_event require_graders is_active stays_valid cannot_start redact_text
helper-spawn = refl

spawn-child_example :
    (8 ≡ team_calls.child_id)
    × (d : RunDefinition ℕ) × (view grown_team.table 8
        ≡ view service.table 8 ++ redacted demo_supervisor (run_created d ∷ []))
    × (d.depth ≡ 1)
    × (d.depth ≤ d.supervisor_policy.max_subagent_depth)
    × (d.parent_run_id ≡ some 7)
    × (d.supervisor_policy ≡ demo_definition.supervisor_policy)
spawn-child_example =
    spawn-child demo_supervisor team_calls 7 refl helper "ada" true service grown_team
      (demo_snapshot created 1) 8 started-IsNumbered parent-get_run helper-spawn
