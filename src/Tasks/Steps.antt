-- ===== src/Tasks/Steps.antt =====
-- The steps of the tasks of src/loopgraph_supervisor/application/tasks.py.
use loopgraph_supervisor.Prelude.{
  ◌≡◌, refl, sym, ap, ℕ, ◌<◌, false, ltb, Option, none, some, [], lookup_id, arith, Bool-cases, inl,
  inr, ◌⊎◌,
}
use loopgraph_supervisor.Engine.Exec.{Exception}
use loopgraph_supervisor.Tasks.{
  Task, waiting, inside, recording, done, Tasks, new_manager, is_done, task_is_active, is_active,
  publish, enter, leave, keep_error, finish, cancel,
}

module _ {F : Type 0} where
  -- One step of a task: the semaphore lets a waiting one in while its counter is positive, the engine's
  -- run of a task inside returns or raises, and the engine has recorded what it raised. When the
  -- engine's calls end is not said here.
  pub data Works : Tasks F → Tasks F → Type 0 where
    entered :
        (m : Tasks F) (run : ℕ)
        → lookup_id run m.tasks ≡ some waiting
        → 0 < m.value
        → Works m (enter run m)
    returned : (m : Tasks F) (run : ℕ) → lookup_id run m.tasks ≡ some inside → Works m (leave run m)
    raised :
        (m : Tasks F) (run : ℕ) (e : Exception F)
        → lookup_id run m.tasks ≡ some inside
        → Works m (keep_error run e m)
    recorded :
        (m : Tasks F) (run : ℕ) → lookup_id run m.tasks ≡ some recording → Works m (finish run m)

  -- The states of a manager: new, after a `start` that is not refused, after a step of a task, and
  -- after the cancellation of a task that is not done, by `shutdown`.
  pub data Reachable : Tasks F → Type 0 where
    new : (n : ℕ) (m : Tasks F) → new_manager n ≡ some m → Reachable m
    started :
        (m : Tasks F) (run : ℕ) → Reachable m → is_active run m ≡ false → Reachable (publish run m)
    works : (m m' : Tasks F) → Reachable m → Works m m' → Reachable m'
    stopped :
        (m : Tasks F) (run : ℕ) (task : Task)
        → Reachable m
        → lookup_id run m.tasks ≡ some task
        → is_done task ≡ false
        → Reachable (cancel run task m)

pub inactive_task : (o : Option Task) → task_is_active o ≡ false → (o ≡ none) ⊎ (o ≡ some done)
inactive_task none h = inl refl
inactive_task (some waiting) h = absurd (cc h)
inactive_task (some inside) h = absurd (cc h)
inactive_task (some recording) h = absurd (cc h)
inactive_task (some done) h = inr refl

module _ {F : Type 0} where
  pub manager_lem :
      (n : ℕ) (m : Tasks F)
      → new_manager n ≡ some m
      → (m.tasks ≡ []) × (0 < m.max_concurrency) × (m.value ≡ m.max_concurrency)
  unfolding new_manager
  manager_lem n m h = elim (Bool-cases (ltb n 1)) [
    | inl bad ↦ absurd (cc (rw (new_manager, bad) at h))
    | inr good ↦
        let e : record { max_concurrency = n; value = n; tasks = []; errors = [] } ≡ m =
          cc (rw (new_manager, good) at h) in
        (
          sym (ap (λ x. x.tasks) e),
          omega (arith, ap (λ x. x.max_concurrency) e, positive n good),
          omega (arith, ap (λ x. x.max_concurrency) e, ap (λ x. x.value) e),
        )
  ]
    where
      positive : (k : ℕ) → ltb k 1 ≡ false → 0 < k
      positive k h = ground arith
