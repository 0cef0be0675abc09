-- ===== src/Engine/Attempt/Bounded.antt =====
-- `run_until_blocked`: a number of rounds that depends on the retry limit alone is enough.
use loopgraph_supervisor.Prelude.{
  ℕ, zero, suc, ◌==◌, ==_iff, keep_sound, ◌+◌, ◌≤◌, ◌≡◌, sym, ◌∙◌, subst, true, false, Option, some,
  refl, arith, Bool-cases, inl, inr,
}
use loopgraph_supervisor.Floats.{Floats}
use loopgraph_supervisor.Domain.Runs.{RunStatus, created, retry_scheduled}
use loopgraph_supervisor.Domain.Events.{StoredEvent}
use loopgraph_supervisor.Domain.Snapshot.{RunSnapshot}
use loopgraph_supervisor.Domain.Snapshot.Laws.{replay-IsReplay}
use loopgraph_supervisor.Domain.Snapshot.Shows.{Shows, replay-Shows, Shows-append}
use loopgraph_supervisor.EventStore.{Table}
use loopgraph_supervisor.EventStore.Streams.{IsNumbered, view}
use loopgraph_supervisor.Engine.Exec.{Exception, Result, ok, err, Result-cases}
use loopgraph_supervisor.Engine.Config.{Supervisor}
use loopgraph_supervisor.Engine.Runs.{get_run}
use loopgraph_supervisor.Engine.Runs.Reads.{get_run-IsRun}
use loopgraph_supervisor.Engine.Emit.Quiet.{HandlerIsQuiet}
use loopgraph_supervisor.Engine.Attempt.{is_runnable, execute_attempt, run_until_blocked}
use loopgraph_supervisor.Engine.Attempt.Settled.{Settled, Ends}
use loopgraph_supervisor.Engine.Attempt.Outcome.{execute_attempt-Ends}

module _ {F : Type 0} ⦃fl : Floats F⦄ where
  get_run-Shows :
      (t : Table F) (run : ℕ) (x : RunSnapshot F)
      → IsNumbered t
      → (get_run run t).0 ≡ ok x
      → Shows (view t run) x
  get_run-Shows t run x w h =
      let r = get_run-IsRun t run x w h in rw r.split (replay-Shows r.first r.rest x r.replayed)

  run_id-get_run :
      (t : Table F) (run : ℕ) (x : RunSnapshot F)
      → IsNumbered t
      → (get_run run t).0 ≡ ok x
      → x.run_id ≡ run
  run_id-get_run t run x w h =
      let r = get_run-IsRun t run x w h in
      let (mine, _) = rw r.split at (keep_sound (λ (e : StoredEvent F). e.run_id == run) t) in
      (replay-IsReplay r.first r.rest x r.replayed).run_id ∙ (==_iff r.first.run_id run).0 mine

  -- What is read after an attempt that returned.
  next-get_run :
      (t t' : Table F) (run : ℕ) (x x' : RunSnapshot F) (m max_retries : ℕ)
      → IsNumbered t
      → (get_run run t).0 ≡ ok x
      → (e : Ends run t x.status x.attempt t' m max_retries) → (get_run run t').0 ≡ ok x'
      → (x'.status ≡ e.status) × (x'.attempt ≡ m) × (x'.definition ≡ x.definition)
  next-get_run t t' run x x' m max_retries w h e h' =
      let before = get_run-Shows t run x w h in
      let after = get_run-Shows t' run x' e.phase.numbered h' in
      let (s, n, d) =
        Shows-append (view t run) e.phase.new x x' before
          (subst (λ l. Shows l x') e.phase.grown after) in
      (s ∙ e.phase.status, n ∙ e.phase.attempt, d)

-- Rounds that are enough for a run: one to see that it is blocked, and one for each attempt that may
-- still start.
abbrev pub Enough : {F : Type 0} → ℕ → RunSnapshot F → Type 0
Enough fuel x =
    (1 ≤ fuel)
    × (is_runnable x.status ≡ true
        → (2 ≤ fuel) × (x.definition.supervisor_policy.max_retries + 2 ≤ fuel + x.attempt))

Settled-Enough :
    (fuel attempt max_retries : ℕ) (s : RunStatus)
    → Settled attempt max_retries s
    → 1 ≤ fuel
    → max_retries + 2 ≤ fuel + attempt
    → is_runnable s ≡ true
    → (2 ≤ fuel) × (max_retries + 2 ≤ fuel + attempt)
unfolding is_runnable
Settled-Enough fuel attempt max_retries retry_scheduled h one enough r = (omega arith, enough)
Settled-Enough fuel attempt max_retries created h one enough r = absurd h
Settled-Enough fuel attempt max_retries _ h one enough r = cc

module _ {F : Type 0} ⦃fl : Floats F⦄ where
  -- How the loop stops: with an exception, or with a snapshot that is current and cannot go on.
  pub data Stops (run : ℕ) : Option (Result F (RunSnapshot F)) × Table F → Type 0 where
    with_exception : (e : Exception F) (t : Table F) → Stops run (some (err e), t)
    with_snapshot :
        (x : RunSnapshot F) (t : Table F)
        → is_runnable x.status ≡ false
        → (get_run run t).0 ≡ ok x
        → Stops run (some (ok x), t)

module _ {F : Type 0} ⦃fl : Floats F⦄ (c : Supervisor F) (run : ℕ)
    (quiet : HandlerIsQuiet run c.action_handler) where
  Reads : Table F → ℕ → Type 0
  Reads t fuel = (x : RunSnapshot F) → (get_run run t).0 ≡ ok x → Enough fuel x

  step-Reads :
      (fuel : ℕ) (t : Table F) (x : RunSnapshot F)
      → IsNumbered t
      → (get_run run t).0 ≡ ok x
      → is_runnable x.status ≡ true
      → Enough (suc fuel) x
      → (execute_attempt c x t).0 ≡ ok tt
      → IsNumbered (execute_attempt c x t).1 × Reads (execute_attempt c x t).1 fuel
  unfolding Reads
  step-Reads fuel t x w h r enough e =
      let mine = run_id-get_run t run x w h in
      let ends =
        subst
          (λ i.
            Ends i t x.status x.attempt (execute_attempt c x t).1 (x.attempt + 1)
              x.definition.supervisor_policy.max_retries)
          mine
          (execute_attempt-Ends c x t
            (subst (λ i. HandlerIsQuiet i c.action_handler) (sym mine) quiet) w e) in
      let (two, rounds) = enough.1 r in
      let one : 1 ≤ fuel = omega arith in
      (
        ends.phase.numbered,
        λ x' h'.
            let (s, n, d) =
              next-get_run t (execute_attempt c x t).1 run x x' (x.attempt + 1) _ w h ends h' in
            (
              one,
              λ r'.
                  rw (n, d)
                    (Settled-Enough fuel (x.attempt + 1) x.definition.supervisor_policy.max_retries
                      ends.status ends.settled one (omega arith) (rw s at r')),
            ),
      )

  -- One round of the loop.
  run_until_blocked-again :
      (fuel : ℕ) (t : Table F) (x : RunSnapshot F)
      → (get_run run t).0 ≡ ok x
      → is_runnable x.status ≡ true
      → (execute_attempt c x t).0 ≡ ok tt
      → run_until_blocked c (suc fuel) run t
        ≡ run_until_blocked c fuel run (execute_attempt c x t).1
  unfolding run_until_blocked
  run_until_blocked-again fuel t x h runs returned = rw (run_until_blocked, h, runs, returned) refl

  loop-Stops :
      (fuel : ℕ) (t : Table F)
      → IsNumbered t
      → 1 ≤ fuel
      → Reads t fuel
      → Stops run (run_until_blocked c fuel run t)
  unfolding run_until_blocked Reads
  loop-Stops zero t w one reads = absurd (omega arith)
  loop-Stops (suc fuel) t w one reads = elim (Result-cases (get_run run t).0) [
    | inr (e, h) ↦ rw (run_until_blocked, h) (with_exception e t)
    | inl (x, h) ↦ elim (Bool-cases (is_runnable x.status)) [
      | inr blocked ↦ rw (run_until_blocked, h, blocked) (with_snapshot x t blocked h)
      | inl runs ↦ elim (Result-cases (execute_attempt c x t).0) [
        | inr (e, raised) ↦
            rw (run_until_blocked, h, runs, raised) (with_exception e (execute_attempt c x t).1)
        | inl (_, returned) ↦
            let (w', reads') = step-Reads fuel t x w h runs (reads x h) returned in
            subst (Stops run) (sym (run_until_blocked-again fuel t x h runs returned)) (
              loop-Stops fuel (execute_attempt c x t).1 w' (omega (arith, (reads x h).1 runs))
                reads')
      ]
    ]
  ]

  -- The loop ends: on a table whose streams are numbered without gaps, with an action handler that
  -- only adds quiet events to the run, `max_retries + 2` rounds are enough whatever the harness, the
  -- graders and the advisor do. It ends with an exception, or with the run's current snapshot in a
  -- status in which no attempt starts.
  pub run_until_blocked-Stops :
      (t : Table F) (x : RunSnapshot F) (fuel : ℕ)
      → IsNumbered t
      → (get_run run t).0 ≡ ok x
      → x.definition.supervisor_policy.max_retries + 2 ≤ fuel
      → Stops run (run_until_blocked c fuel run t)
  unfolding Reads
  run_until_blocked-Stops t x fuel w h enough =
      loop-Stops fuel t w (omega arith) λ x' h'.
        let same : x ≡ x' = cc in (omega arith, λ r. rw (← same) (omega arith, omega arith))
