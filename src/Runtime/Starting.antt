-- ===== src/Runtime/Starting.antt =====
-- `RunTaskManager.start` of src/loopgraph_supervisor/application/tasks.py: what it refuses, and the
-- step of the task manager that it is.
use loopgraph_supervisor.Prelude.{
  ◌≡◌, refl, sym, subst, ==_iff, ap, ℕ, true, false, none, lookup-put_same, lookup-put_other, ◌==◌,
  if◌then◌else◌, Bool-cases, inl, inr,
}
use loopgraph_supervisor.Floats.{Floats}
use loopgraph_supervisor.Engine.Exec.{raised, Result, ok, err, Result-cases}
use loopgraph_supervisor.Engine.Runs.{get_run, replayed}
use loopgraph_supervisor.EventStore.{load}
use loopgraph_supervisor.Tasks.{Tasks, waiting, cannot_start, is_active, publish}
use loopgraph_supervisor.Tasks.Steps.{Reachable, started}
use loopgraph_supervisor.Runtime.{Runtime, with_table, start}

module _ {F : Type 0} ⦃fl : Floats F⦄ where
  abbrev refusal : Result F (Unit {0})
  refusal = err (raised "RunAlreadyActiveError")

  -- A `start` that returns has found the run inactive, and has created its task.
  start_publishes :
      (run : ℕ) (s s' : Runtime F)
      → start run s ≡ (ok tt, s')
      → (is_active run s.tasks ≡ false) × (s' ≡ record s { tasks = publish run s.tasks })
  unfolding start with_table get_run
  start_publishes run s s' h = elim (Bool-cases (is_active run s.tasks)) [
    | inl busy ↦ absurd (cc (rw (start, busy) at h))
    | inr idle ↦ elim (Result-cases (replayed (load s.table run 0 none))) [
      | inr (e, bad) ↦ absurd (cc (rw (start, idle, bad) at h))
      | inl (snapshot, good) ↦ elim (Bool-cases (cannot_start snapshot.status)) [
        | inl blocked ↦ absurd (cc (rw (start, idle, good, blocked) at h))
        | inr free ↦ (idle, cc (rw (start, idle, good, free) at h))
      ]
    ]
  ]

  published_active : (run : ℕ) (m : Tasks F) → is_active run (publish run m) ≡ true
  unfolding publish is_active
  published_active run m = rw (lookup-put_same run waiting m.tasks) refl

  published_other :
      (run other : ℕ) (m : Tasks F)
      → (run == other) ≡ false
      → is_active other (publish run m) ≡ is_active other m
  unfolding publish is_active
  published_other run other m h = rw (lookup-put_other run other waiting m.tasks h) refl

  refused : (run : ℕ) (s : Runtime F) → is_active run s.tasks ≡ true → start run s ≡ (refusal, s)
  unfolding start
  refused run s h = rw (start, h) refl

  -- After a `start` that returns, a second `start` of the same run is refused and changes nothing;
  -- whether another run is active, and the event table, are as before; and a state that the task
  -- manager reaches is followed by one.
  pub start_once :
      (run : ℕ) (s s' : Runtime F)
      → Reachable s.tasks
      → start run s ≡ (ok tt, s')
      → (start run s' ≡ (refusal, s'))
        × ((other : ℕ)
            → is_active other s'.tasks ≡ (if run == other then true else is_active other s.tasks))
        × (s'.table ≡ s.table)
        × Reachable s'.tasks
  start_once run s s' r h =
      let (idle, e) = start_publishes run s s' h in
      let active : is_active run s'.tasks ≡ true = rw e (published_active run s.tasks) in
      (
        refused run s' active,
        λ other. elim (Bool-cases (run == other)) [
          | inl same ↦
              rw same (subst (λ k. is_active k s'.tasks ≡ true) ((==_iff run other).0 same) active)
          | inr apart ↦ rw (apart, e) (published_other run other s.tasks apart)
        ],
        ap (λ x. x.table) e,
        subst (λ x. Reachable x.tasks) (sym e) (started s.tasks run r idle),
      )
