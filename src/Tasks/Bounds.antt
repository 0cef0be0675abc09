-- ===== src/Tasks/Bounds.antt =====
-- The semaphore of src/loopgraph_supervisor/application/tasks.py: each permit that a task takes is given
-- back exactly once.
use loopgraph_supervisor.Prelude.{
  ◌≡◌, ap, ℕ, ◌+◌, ◌<◌, false, lookup_id, total, total-put, total-put_new, arith, inl, inr, some,
}
use loopgraph_supervisor.Tasks.{
  Task, waiting, inside, recording, done, is_done, permits, Tasks, is_active, in_use, publish,
  enter, leave, keep_error, finish, cancel,
}
use loopgraph_supervisor.Tasks.Steps.{
  Works, entered, returned, raised, recorded, Reachable, new, started, works, stopped,
  inactive_task, manager_lem,
}

module _ {F : Type 0} where
  -- The counter and the tasks inside make up the limit, which is positive.
  abbrev pub IsBalanced : Tasks F → Type 0
  IsBalanced m = (m.value + in_use m ≡ m.max_concurrency) × (0 < m.max_concurrency)

  Works-IsBalanced : (m m' : Tasks F) → Works m m' → IsBalanced m → IsBalanced m'
  unfolding enter leave keep_error finish
  Works-IsBalanced _ _ (entered m run h k) (b, p) =
      (omega (arith, total-put permits run inside waiting m.tasks h), p)
  Works-IsBalanced _ _ (returned m run h) (b, p) =
      (omega (arith, total-put permits run done inside m.tasks h), p)
  Works-IsBalanced _ _ (raised m run e h) (b, p) =
      (omega (arith, total-put permits run recording inside m.tasks h), p)
  Works-IsBalanced _ _ (recorded m run h) (b, p) =
      (omega (arith, total-put permits run done recording m.tasks h), p)

  cancel-IsBalanced :
      (m : Tasks F) (run : ℕ) (task : Task)
      → lookup_id run m.tasks ≡ some task
      → is_done task ≡ false
      → IsBalanced m
      → IsBalanced (cancel run task m)
  unfolding cancel
  cancel-IsBalanced m run waiting h k (b, p) =
      (omega (arith, total-put permits run done waiting m.tasks h), p)
  cancel-IsBalanced m run inside h k (b, p) =
      (omega (arith, total-put permits run done inside m.tasks h), p)
  cancel-IsBalanced m run recording h k (b, p) =
      (omega (arith, total-put permits run done recording m.tasks h), p)
  cancel-IsBalanced m run done h k (b, p) = absurd (cc k)

  -- In every state that a manager reaches, by starts, steps of tasks, exceptions and cancellations, no
  -- permit of the semaphore is lost and none is given back twice: its counter and the number of the
  -- tasks inside add up to `max_concurrency`, which is positive.
  pub Reachable-IsBalanced : (m : Tasks F) → Reachable m → IsBalanced m
  unfolding publish is_active
  Reachable-IsBalanced m (new n _ h) =
      let (none_yet, positive, free) = manager_lem n m h in
      (omega (arith, ap (total permits) none_yet), positive)
  Reachable-IsBalanced _ (started m run r h) =
      let (b, p) = Reachable-IsBalanced m r in
      elim (inactive_task (lookup_id run m.tasks) h) [
        | inl fresh ↦ (omega (arith, total-put_new permits run waiting m.tasks fresh), p)
        | inr over ↦ (omega (arith, total-put permits run waiting done m.tasks over), p)
      ]
  Reachable-IsBalanced _ (works m m' r w) = Works-IsBalanced m m' w (Reachable-IsBalanced m r)
  Reachable-IsBalanced _ (stopped m run task r h k) =
      cancel-IsBalanced m run task h k (Reachable-IsBalanced m r)
