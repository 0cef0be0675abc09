-- ===== src/Tasks.antt =====
-- src/loopgraph_supervisor/application/tasks.py. Of a task, `_tasks` tells whether it is done; one
-- that is not waits for the semaphore, runs inside it, or has left it after an exception and awaits
-- `record_internal_failure`. Between two waits the event loop
-- runs one task only, so what stands between them is one step. The program starts a task for no
-- other reason than `start`, under a lock.
pub mod Steps
pub mod Bounds
pub mod Progress
use loopgraph_supervisor.Prelude.{
  ℕ, Bool, true, false, not, ltb, Option, none, some, List, [], lookup_id, put_id, pop_id, total,
  ◌+◌, ◌-◌, is_missing,
}
use loopgraph_supervisor.Domain.Runs.{
  RunStatus, created, running, evaluating, retry_scheduled, waiting_human, paused, succeeded,
  failed, cancelled,
}
use loopgraph_supervisor.Engine.Exec.{Exception}

pub data Task : Type 0 where
  waiting inside recording done : Task

abbrev pub is_done : Task → Bool
is_done waiting = false
is_done inside = false
is_done recording = false
is_done done = true

-- What a task takes of the semaphore.
abbrev pub permits : Task → ℕ
permits waiting = 0
permits inside = 1
permits recording = 0
permits done = 0

-- `value` is the counter of the `asyncio.Semaphore`: `acquire` waits until it is positive and
-- decrements it, `release` increments it.
pub record Tasks (F : Type 0) : Type 0 where
  pub max_concurrency : ℕ
  pub value : ℕ
  pub tasks : List (ℕ × Task)
  pub errors : List (ℕ × Exception F)

-- The guard of `start` on the status.
unfoldable pub cannot_start : RunStatus → Bool
cannot_start succeeded = true
cannot_start failed = true
cannot_start cancelled = true
cannot_start paused = true
cannot_start waiting_human = true
cannot_start _ = false

abbrev pub task_is_active : Option Task → Bool
task_is_active none = false
task_is_active (some task) = not (is_done task)

module _ {F : Type 0} where
  -- `RunTaskManager(engine, max_concurrency)`; `none` is its `ValueError`.
  unfoldable pub new_manager : ℕ → Option (Tasks F)
  new_manager max_concurrency = elim (ltb max_concurrency 1) [
    | true ↦ none
    | false ↦ some (record {
      max_concurrency = max_concurrency;
      value = max_concurrency;
      tasks = [];
      errors = [];
    })
  ]

  unfoldable pub is_active : ℕ → Tasks F → Bool
  is_active run m = task_is_active (lookup_id run m.tasks)

  unfoldable pub error : ℕ → Tasks F → Option (Exception F)
  error run m = lookup_id run m.errors

  -- The tasks inside the semaphore.
  abbrev pub in_use : Tasks F → ℕ
  in_use m = total permits m.tasks

  abbrev pub set_task : ℕ → Task → Tasks F → Tasks F
  set_task run task m = record m { tasks = put_id run task m.tasks }

  abbrev pub acquire : Tasks F → Tasks F
  acquire m = record m { value = m.value - 1 }

  abbrev pub release : Tasks F → Tasks F
  release m = record m { value = m.value + 1 }

  -- The end of `start`: the task is created.
  unfoldable pub publish : ℕ → Tasks F → Tasks F
  publish run m = record m { errors = pop_id run m.errors; tasks = put_id run waiting m.tasks }

  -- `_run`: into the semaphore; out of it after a return; out of it after an exception, which is
  -- kept and about to be recorded; and the end of the recording, which may itself have failed.
  unfoldable pub enter : ℕ → Tasks F → Tasks F
  enter run m = set_task run inside (acquire m)

  unfoldable pub leave : ℕ → Tasks F → Tasks F
  leave run m = set_task run done (release m)

  unfoldable pub keep_error : ℕ → Exception F → Tasks F → Tasks F
  keep_error run e m =
      set_task run recording (record (release m) { errors = put_id run e m.errors })

  unfoldable pub finish : ℕ → Tasks F → Tasks F
  finish run m = set_task run done m

  -- The end of a task that `shutdown` has cancelled: it leaves the semaphore, if it is inside.
  unfoldable pub cancel : ℕ → Task → Tasks F → Tasks F
  unfolding leave finish
  cancel run inside m = leave run m
  cancel run _ m = finish run m
