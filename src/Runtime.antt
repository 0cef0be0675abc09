-- ===== src/Runtime.antt =====
-- The state behind one process of the service: `AppRuntime` of
-- src/loopgraph_supervisor/api/app.py, with the tables of the stores and the task manager's tasks,
-- and `start` of src/loopgraph_supervisor/application/tasks.py, which reads a run.
pub mod Starting
use loopgraph_supervisor.Prelude.{ℕ, Bool, true, false, String, Option, none, some, if◌then◌else◌}
use loopgraph_supervisor.Floats.{Floats}
use loopgraph_supervisor.Domain.Snapshot.{RunSnapshot}
use loopgraph_supervisor.EventStore.{Table}
use loopgraph_supervisor.Memory.{Memories}
use loopgraph_supervisor.Versions.Tables.{VersionStore}
use loopgraph_supervisor.Versions.Records
use loopgraph_supervisor.Versions.Records.{VersionResult, duplicate_bundle, version_conflict}
use loopgraph_supervisor.Engine.Exec.{
  Exception, key_error, value_error, raised, Result, ok, err, Exec, pure, raise, lift, modify, get,
  ◌>>=◌, ◌>>◌,
}
use loopgraph_supervisor.Engine.Runs.{get_run}
use loopgraph_supervisor.Tasks.{Tasks, cannot_start, is_active, publish}

pub record Runtime (F : Type 0) : Type 0 where
  pub table : Table F
  pub versions : VersionStore F
  pub memories : Memories F
  pub tasks : Tasks F

-- The version store's errors as exceptions.
unfoldable pub version_result : {F A : Type 0} → VersionResult A → Result F A
version_result (Records.ok a) = ok a
version_result Records.key_error = err key_error
version_result Records.value_error = err value_error
version_result duplicate_bundle = err (raised "DuplicateBundleError")
version_result version_conflict = err (raised "VersionConflictError")

module _ {F A : Type 0} where
  -- A method of the engine, and one of the version store.
  unfoldable pub with_table : Exec F (Table F) A → Exec F (Runtime F) A
  with_table m s = let (r, t) = m s.table in (r, record s { table = t })

  unfoldable pub with_versions :
      (VersionStore F → VersionResult A × VersionStore F) → Exec F (Runtime F) A
  unfolding version_result
  with_versions m s = let (r, v) = m s.versions in (version_result r, record s { versions = v })

module _ {F : Type 0} ⦃fl : Floats F⦄ where
  -- `RunTaskManager.start`
  unfoldable pub start : ℕ → Exec F (Runtime F) (Unit {0})
  unfolding with_table
  start run = do
    s ← get
    if is_active run s.tasks then raise (raised "RunAlreadyActiveError") else do
      snapshot ← with_table (get_run run)
      if cannot_start snapshot.status
          then raise value_error
          else modify (λ s. record s { tasks = publish run s.tasks })
