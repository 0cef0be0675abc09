-- ===== src/Tasks/Progress.antt =====
-- No deadlock in src/loopgraph_supervisor/application/tasks.py: the tasks wait for the engine's calls
-- and not for each other, and their steps are bounded.
use loopgraph_supervisor.Prelude.{
  ◌≡◌, refl, sym, ◌∙◌, ap, subst, ℕ, suc, ◌+◌, ◌≤◌, ◌<◌, true, false, ltb, Option, none, some,
  lookup_id, total, total-put, total_find, total_ge, Distinct, put-Distinct, arith, Bool-cases, inl,
  inr, ◌⊎◌,
}
use loopgraph_supervisor.Tasks.{
  Task, waiting, inside, recording, done, finish, cancel, permits, Tasks, task_is_active, is_active,
  in_use, publish, enter, leave, keep_error,
}
use loopgraph_supervisor.Tasks.Steps.{
  Works, entered, returned, raised, recorded, Reachable, new, started, works, stopped, manager_lem,
}
use loopgraph_supervisor.Tasks.Bounds.{IsBalanced, Reachable-IsBalanced}

-- The most that is left to do: to enter, to leave the semaphore, and to record an exception.
abbrev pub steps_left : Task → ℕ
steps_left waiting = 3
steps_left inside = 2
steps_left recording = 1
steps_left done = 0

permitted : (t : Task) → 0 < permits t → t ≡ inside
permitted waiting h = absurd (omega arith)
permitted inside h = refl
permitted recording h = absurd (omega arith)
permitted done h = absurd (omega arith)

active_steps :
    (o : Option Task) → task_is_active o ≡ true → (t : Task) × (o ≡ some t) × (0 < steps_left t)
active_steps none h = absurd (cc h)
active_steps (some waiting) h = (waiting, refl, omega arith)
active_steps (some inside) h = (inside, refl, omega arith)
active_steps (some recording) h = (recording, refl, omega arith)
active_steps (some done) h = absurd (cc h)

module _ {F : Type 0} where
  abbrev pub work_left : Tasks F → ℕ
  work_left m = total steps_left m.tasks

  -- `n` steps of tasks, one after the other.
  pub data Runs : ℕ → Tasks F → Tasks F → Type 0 where
    no_more : (m : Tasks F) → Runs 0 m m
    one_more : (n : ℕ) (m m' m'' : Tasks F) → Works m m' → Runs n m' m'' → Runs (suc n) m m''

  -- Every step of a task leaves less to do.
  Works-less : (m m' : Tasks F) → Works m m' → work_left m' < work_left m
  unfolding enter leave keep_error finish
  Works-less _ _ (entered m run h k) =
      omega (arith, total-put steps_left run inside waiting m.tasks h)
  Works-less _ _ (returned m run h) = omega (arith, total-put steps_left run done inside m.tasks h)
  Works-less _ _ (raised m run e h) =
      omega (arith, total-put steps_left run recording inside m.tasks h)
  Works-less _ _ (recorded m run h) =
      omega (arith, total-put steps_left run done recording m.tasks h)

  Works-Distinct : (m m' : Tasks F) → Works m m' → Distinct m.tasks → Distinct m'.tasks
  unfolding enter leave keep_error finish
  Works-Distinct _ _ (entered m run h k) d = put-Distinct run inside m.tasks d
  Works-Distinct _ _ (returned m run h) d = put-Distinct run done m.tasks d
  Works-Distinct _ _ (raised m run e h) d = put-Distinct run recording m.tasks d
  Works-Distinct _ _ (recorded m run h) d = put-Distinct run done m.tasks d

  cancel-Distinct :
      (m : Tasks F) (run : ℕ) (task : Task) → Distinct m.tasks → Distinct (cancel run task m).tasks
  unfolding cancel
  cancel-Distinct m run waiting d = put-Distinct run done m.tasks d
  cancel-Distinct m run inside d = put-Distinct run done m.tasks d
  cancel-Distinct m run recording d = put-Distinct run done m.tasks d
  cancel-Distinct m run done d = put-Distinct run done m.tasks d

  Reachable-Distinct : (m : Tasks F) → Reachable m → Distinct m.tasks
  unfolding publish
  Reachable-Distinct m (new n _ h) = subst Distinct (sym (manager_lem n m h).0) tt
  Reachable-Distinct _ (started m run r h) =
      put-Distinct run waiting m.tasks (Reachable-Distinct m r)
  Reachable-Distinct _ (works m m' r w) = Works-Distinct m m' w (Reachable-Distinct m r)
  Reachable-Distinct _ (stopped m run task r h k) =
      cancel-Distinct m run task (Reachable-Distinct m r)

  -- A task has called the engine: it is inside the semaphore or records an exception.
  abbrev pub IsInEngine : Tasks F → Type 0
  IsInEngine m =
      (run : ℕ) × ((lookup_id run m.tasks ≡ some inside) ⊎ (lookup_id run m.tasks ≡ some recording))

  -- The semaphore has a permit for a waiting task.
  abbrev pub IsAdmitting : Tasks F → Type 0
  IsAdmitting m = (run : ℕ) × (lookup_id run m.tasks ≡ some waiting) × (0 < m.value)

  -- Where permits are given, a task is inside.
  holder : (m : Tasks F) → Distinct m.tasks → 0 < in_use m → IsInEngine m
  holder m d h =
      let (run, t, at_run, holds) = total_find permits m.tasks d h in
      (run, inl (at_run ∙ ap some (permitted t holds)))

  -- What a task that is not done waits for.
  awaited :
      (m : Tasks F) (run : ℕ) (t : Task)
      → Distinct m.tasks
      → IsBalanced m
      → lookup_id run m.tasks ≡ some t
      → 0 < steps_left t
      → IsInEngine m ⊎ IsAdmitting m
  awaited m run waiting d (b, p) h k = elim (Bool-cases (ltb 0 m.value)) [
    | inl free ↦ inr (run, h, ground arith)
    | inr full ↦ let none_left : m.value ≡ 0 = ground arith in inl (holder m d (omega arith))
  ]
  awaited m run inside d b h k = inl (run, inl h)
  awaited m run recording d b h k = inl (run, inr h)
  awaited m run done d b h k = absurd (omega arith)

  work_done : (m : Tasks F) → work_left m ≡ 0 → (run : ℕ) → is_active run m ≡ false
  unfolding is_active
  work_done m h run = elim (Bool-cases (task_is_active (lookup_id run m.tasks))) [
    | inr idle ↦ idle
    | inl busy ↦
        let (t, at_run, positive) = active_steps (lookup_id run m.tasks) busy in
        absurd (omega (arith, total_ge steps_left run t m.tasks at_run))
  ]

  Reachable-awaited :
      (m : Tasks F)
      → Reachable m
      → ((run : ℕ) → is_active run m ≡ false) ⊎ IsInEngine m ⊎ IsAdmitting m
  Reachable-awaited m r = elim (Bool-cases (ltb 0 (work_left m))) [
    | inr over ↦ inl (work_done m (ground arith))
    | inl more ↦
        let d = Reachable-Distinct m r in
        let (run, t, at_run, positive) = total_find steps_left m.tasks d (ground arith) in
        inr (awaited m run t d (Reachable-IsBalanced m r) at_run positive)
  ]

  -- From every state that a manager reaches, the steps that its tasks take one after the other,
  -- without a new `start`, are at most three for a waiting task, two for a task inside and one for a
  -- task that records an exception. In each state on the way no run is active, or a task awaits a call
  -- of the engine, or the semaphore has a permit for a task that waits for it: the tasks do not block
  -- each other.
  pub Runs-drain :
      (n : ℕ) (m m' : Tasks F)
      → Reachable m
      → Runs n m m'
      → (n + work_left m' ≤ work_left m)
        × (((run : ℕ) → is_active run m' ≡ false) ⊎ IsInEngine m' ⊎ IsAdmitting m')
  Runs-drain _ m _ r (no_more _) = (omega arith, Reachable-awaited m r)
  Runs-drain _ m m' r (one_more n _ k _ w s) =
      let (bound, next) = Runs-drain n k m' (works m k r w) s in
      (omega (arith, Works-less m k w), next)
