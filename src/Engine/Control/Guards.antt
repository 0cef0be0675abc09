-- ===== src/Engine/Control/Guards.antt =====
-- The operator's operations, on every branch: the guards refuse and change nothing, and what passes
-- them is recorded and read back.
use loopgraph_supervisor.Prelude.{
  ℕ, ◌+◌, ◌≡◌, sym, ◌∙◌, ap, true, ◌||◌, String, List, [], ◌∷◌, ◌++◌, length, some, if◌then◌else◌,
  Bool-cases, inl, inr,
}
use loopgraph_supervisor.Floats.{Floats}
use loopgraph_supervisor.Domain.Runs.{paused, retry_scheduled, succeeded, failed}
use loopgraph_supervisor.Domain.Events.{
  HumanDecision, approve, reject, retry, run_succeeded, run_failed, NewEvent, hitl_resolved,
  run_pause_requested, run_paused, run_resumed, run_recovered, run_retry_scheduled,
}
use loopgraph_supervisor.Domain.Snapshot.{RunSnapshot, step, steps, in_bounds}
use loopgraph_supervisor.Domain.Snapshot.Laws.{with_version, replay-IsReplay}
use loopgraph_supervisor.Security.Redaction.{redact_text}
use loopgraph_supervisor.Security.Payload.{redact_event}
use loopgraph_supervisor.EventStore.{Table, version, stamp}
use loopgraph_supervisor.EventStore.Streams.{IsNumbered}
use loopgraph_supervisor.Engine.Exec.{value_error, ok, err, ◌>>◌}
use loopgraph_supervisor.Engine.Config.{Supervisor}
use loopgraph_supervisor.Engine.Runs.{append, get_run}
use loopgraph_supervisor.Engine.Runs.Reads.{
  append-eq, redacted, get_run-IsRun, get_run-grown, version-get_run,
}
use loopgraph_supervisor.Engine.Control.{
  pause, resume, recover_incomplete, resolve_human, is_blocked, is_in_progress, is_paused,
  is_waiting, resolution,
}

module _ {F : Type 0} ⦃fl : Floats F⦄ (s : Supervisor F) where
  in_bounds-get_run :
      (t : Table F) (run : ℕ) (snapshot : RunSnapshot F)
      → IsNumbered t
      → (get_run run t).0 ≡ ok snapshot
      → in_bounds snapshot ≡ true
  in_bounds-get_run t run snapshot w h =
      let r = get_run-IsRun t run snapshot w h in
      (replay-IsReplay r.first r.rest snapshot r.replayed).in_bounds

  -- The table with the redacted events added to a run.
  abbrev pub recorded : Table F → ℕ → List (NewEvent F) → Table F
  recorded t run events = t ++ stamp run (version t run) (redacted s events)

  get_run-eq :
      (t : Table F) (run : ℕ) (snapshot : RunSnapshot F)
      → (get_run run t).0 ≡ ok snapshot
      → get_run run t ≡ (ok snapshot, t)
  unfolding get_run
  get_run-eq t run snapshot h = rw h

  -- Events are recorded, and the run is read again.
  act_lem :
      (t : Table F) (run : ℕ) (events : List (NewEvent F)) (snapshot : RunSnapshot F)
      → IsNumbered t
      → (get_run run t).0 ≡ ok snapshot
      → in_bounds (steps snapshot (stamp run (version t run) (redacted s events))) ≡ true
      → (append s run events >> get_run run) t ≡ (
        ok (
            with_version
              (steps snapshot (stamp run (version t run) (redacted s events)))
              (snapshot.version + length (redacted s events))),
        recorded t run events,
      )
  act_lem t run events snapshot w h bounds =
      let after = steps snapshot (stamp run (version t run) (redacted s events)) in
      let n = length (redacted s events) in
      rw (append-eq s run events t) (
        get_run-eq (recorded t run events) run (with_version after (version t run + n))
          (get_run-grown t run (redacted s events) snapshot w h bounds)
        ∙ ap (λ v. (ok (with_version after (v + n)), recorded t run events))
            (sym (version-get_run t run snapshot w h)))

  -- For a run that is read as `snapshot`: a pause is refused with no change in every status but
  -- `created` and `retry_scheduled`; otherwise it records the request and the pause, and returns the
  -- snapshot with the status `paused`, two versions on and with nothing else changed.
  pub pause_lem :
      (t : Table F) (run : ℕ) (actor reason : String) (snapshot : RunSnapshot F)
      → IsNumbered t
      → (get_run run t).0 ≡ ok snapshot
      → pause s run actor reason t ≡ (
          if is_blocked snapshot.status || is_in_progress snapshot.status
          then (err value_error, t)
          else (
            ok (record snapshot { status = paused; version = snapshot.version + 2 }),
            recorded t run
                (run_pause_requested actor reason snapshot.status ∷ run_paused reason ∷ []),
          ))
  unfolding pause
  pause_lem t run actor reason snapshot w h =
      rw (get_run-eq t run snapshot h) (elim (Bool-cases (is_blocked snapshot.status)) [
        | inl blocked ↦ rw blocked
        | inr free ↦ rw free (elim (Bool-cases (is_in_progress snapshot.status)) [
          | inl busy ↦ rw busy
          | inr idle ↦ rw idle (
              unfold step steps stamp redact_event in
              act_lem t run
                (run_pause_requested actor reason snapshot.status ∷ run_paused reason ∷ []) snapshot
                w h (unfold in_bounds in in_bounds-get_run t run snapshot w h))
        ])
      ])

  -- For a run that is read as `snapshot`: a resumption is refused with no change unless the run is
  -- paused; otherwise it is recorded, and the run is scheduled for a retry, one version on and with
  -- nothing else changed.
  pub resume_lem :
      (t : Table F) (run : ℕ) (actor reason : String) (snapshot : RunSnapshot F)
      → IsNumbered t
      → (get_run run t).0 ≡ ok snapshot
      → resume s run actor reason t ≡ (
          if is_paused snapshot.status
          then (
            ok (record snapshot { status = retry_scheduled; version = snapshot.version + 1 }),
            recorded t run (run_resumed actor reason (snapshot.attempt + 1) ∷ []),
          )
          else (err value_error, t))
  unfolding resume
  resume_lem t run actor reason snapshot w h =
      rw (get_run-eq t run snapshot h) (elim (Bool-cases (is_paused snapshot.status)) [
        | inl held ↦ rw held (
            unfold step steps stamp redact_event in
            act_lem t run (run_resumed actor reason (snapshot.attempt + 1) ∷ []) snapshot w h
              (unfold in_bounds in in_bounds-get_run t run snapshot w h))
        | inr free ↦ rw free
      ])

  -- For a run that is read as `snapshot`: a recovery returns the snapshot and changes nothing unless
  -- the run is running or evaluating; then it records the crash and schedules a new attempt, two
  -- versions on and with nothing else changed.
  pub recover_incomplete_lem :
      (t : Table F) (run : ℕ) (actor : String) (snapshot : RunSnapshot F)
      → IsNumbered t
      → (get_run run t).0 ≡ ok snapshot
      → recover_incomplete s run actor t ≡ (
          if is_in_progress snapshot.status
          then (
            ok (record snapshot { status = retry_scheduled; version = snapshot.version + 2 }),
            recorded t run (
                run_recovered actor snapshot.status snapshot.attempt
                ∷ run_retry_scheduled (snapshot.attempt + 1)
                ∷ []),
          )
          else (ok snapshot, t))
  unfolding recover_incomplete
  recover_incomplete_lem t run actor snapshot w h =
      rw (get_run-eq t run snapshot h) (elim (Bool-cases (is_in_progress snapshot.status)) [
        | inl busy ↦ rw busy (
            unfold step steps stamp redact_event in
            act_lem t run
              (run_recovered actor snapshot.status snapshot.attempt
                ∷ run_retry_scheduled (snapshot.attempt + 1)
                ∷ [])
              snapshot w h (unfold in_bounds in in_bounds-get_run t run snapshot w h))
        | inr idle ↦ rw idle
      ])

  -- The snapshot after a decision of a human.
  abbrev pub resolved : HumanDecision → String → RunSnapshot F → RunSnapshot F
  resolved approve reason snapshot = record snapshot {
    status = succeeded;
    human_override = true;
    version = snapshot.version + 2;
  }
  resolved reject reason snapshot = record snapshot {
    status = failed;
    error = some (redact_text s.redaction_policy reason);
    version = snapshot.version + 2;
  }
  resolved retry reason snapshot = record snapshot {
    status = retry_scheduled;
    version = snapshot.version + 2;
  }

  resolve_waiting :
      (t : Table F) (run : ℕ) (decision : HumanDecision) (actor reason : String)
      (snapshot : RunSnapshot F)
      → IsNumbered t
      → (get_run run t).0 ≡ ok snapshot
      → (append s run
              (hitl_resolved decision actor reason ∷ resolution decision reason snapshot.attempt)
            >> get_run run)
          t
        ≡ (
          ok (resolved decision reason snapshot),
          recorded t run
              (hitl_resolved decision actor reason ∷ resolution decision reason snapshot.attempt),
        )
  unfolding step steps stamp redact_event resolution in_bounds
  resolve_waiting t run approve actor reason snapshot w h =
      act_lem t run (hitl_resolved approve actor reason ∷ run_succeeded true ∷ []) snapshot w h
        (in_bounds-get_run t run snapshot w h)
  resolve_waiting t run reject actor reason snapshot w h =
      act_lem t run (hitl_resolved reject actor reason ∷ run_failed reason ∷ []) snapshot w h
        (in_bounds-get_run t run snapshot w h)
  resolve_waiting t run retry actor reason snapshot w h =
      act_lem t run
        (hitl_resolved retry actor reason ∷ run_retry_scheduled (snapshot.attempt + 1) ∷ [])
        snapshot w h (in_bounds-get_run t run snapshot w h)

  -- For a run that is read as `snapshot`: a decision is refused with no change unless the run waits
  -- for a human; otherwise it is recorded with its consequence, and the run has succeeded by a human
  -- override, failed with the redacted reason, or is scheduled for a retry, two versions on and with
  -- nothing else changed.
  pub resolve_human_lem :
      (t : Table F) (run : ℕ) (decision : HumanDecision) (actor reason : String)
      (snapshot : RunSnapshot F)
      → IsNumbered t
      → (get_run run t).0 ≡ ok snapshot
      → resolve_human s run decision actor reason t ≡ (
          if is_waiting snapshot.status
          then (
            ok (resolved decision reason snapshot),
            recorded t run
                (hitl_resolved decision actor reason ∷ resolution decision reason snapshot.attempt),
          )
          else (err value_error, t))
  unfolding resolve_human
  resolve_human_lem t run decision actor reason snapshot w h =
      rw (get_run-eq t run snapshot h) (elim (Bool-cases (is_waiting snapshot.status)) [
        | inl waits ↦ rw waits (resolve_waiting t run decision actor reason snapshot w h)
        | inr free ↦ rw free
      ])
