-- ===== src/Engine/Runs/Reads.antt =====
-- What `_append` does to a run's stream, and what `get_run` reads of it.
use loopgraph_supervisor.Prelude.{
  ℕ, suc, ◌+◌, ◌≡◌, refl, ◌∙◌, ap, true, none, some, List, [], ◌∷◌, ◌++◌, map, arith, append-nil,
  length,
}
use loopgraph_supervisor.Floats.{Floats}
use loopgraph_supervisor.Domain.Events.{EventData, NewEvent, StoredEvent}
use loopgraph_supervisor.Domain.Snapshot.{
  RunSnapshot, steps, validate, in_bounds, last_sequence, replay,
}
use loopgraph_supervisor.Domain.Snapshot.Laws.{with_version, replay-append, replay-IsReplay}
use loopgraph_supervisor.Security.Payload.{redact_event}
use loopgraph_supervisor.EventStore
use loopgraph_supervisor.EventStore.{Table, stored, version, stamp, load, limited}
use loopgraph_supervisor.EventStore.Rows.{rows, Numbered, load_lem, version-eq-length}
use loopgraph_supervisor.EventStore.Streams.{
  IsNumbered, append-ok, rows-append_self, version-grown, IsNumbered-grown,
}
use loopgraph_supervisor.Engine.Exec.{ok}
use loopgraph_supervisor.Engine.Config.{Supervisor}
use loopgraph_supervisor.Engine.Runs.{append, to_result, replayed, get_run}

module _ {F : Type 0} (s : Supervisor F) where
  abbrev pub redacted : List (NewEvent F) → List (NewEvent F)
  redacted = map (redact_event s.redaction_policy)

  -- `_append` never raises where no one else writes between its read and its write, and adds the
  -- redacted events at the end of the run's stream.
  pub append-eq :
      (run : ℕ) (events : List (NewEvent F)) (t : Table F)
      → append s run events t ≡ (ok tt, t ++ stamp run (version t run) (redacted events))
  unfolding append to_result stamp EventStore.append
  append-eq run [] t = rw (append-nil t)
  append-eq run (e ∷ es) t = rw (append-ok t run (redact_event s.redaction_policy e) (redacted es))

module _ {F : Type 0} ⦃fl : Floats F⦄ where
  -- A run that can be read: its rows, and what they replay to.
  pub record IsRun (t : Table F) (run : ℕ) (snapshot : RunSnapshot F) : Type 0 where
    pub first : StoredEvent F
    pub rest : List (StoredEvent F)
    pub split : rows t run ≡ first ∷ rest
    pub replayed : replay (first ∷ rest) ≡ some snapshot

  pub load-rows : (t : Table F) (run : ℕ) → IsNumbered t → load t run 0 none ≡ rows t run
  unfolding limited
  load-rows t run w = load_lem t run 0 none (w.at_run run)

  replayed-ok :
      (es : List (StoredEvent F)) (snapshot : RunSnapshot F)
      → replayed es ≡ ok snapshot
      → (e : StoredEvent F) × (rest : List (StoredEvent F)) × (es ≡ e ∷ rest)
        × (replay (e ∷ rest) ≡ some snapshot)
  unfolding replayed
  replayed-ok [] snapshot h = cc
  replayed-ok (e ∷ es) snapshot h = (e, es, refl, ground arith)

  pub get_run-IsRun :
      (t : Table F) (run : ℕ) (snapshot : RunSnapshot F)
      → IsNumbered t
      → (get_run run t).0 ≡ ok snapshot
      → IsRun t run snapshot
  unfolding get_run
  get_run-IsRun t run snapshot w h =
      let found : replayed (rows t run) ≡ ok snapshot = rw (load-rows t run w) at h in
      let (e, es, split, result) = replayed-ok (rows t run) snapshot found in
      record { first = e; rest = es; split = split; replayed = result }

  last_sequence-Numbered :
      (n : ℕ) (e : StoredEvent F) (es : List (StoredEvent F))
      → Numbered n (e ∷ es)
      → last_sequence e es ≡ n + length (e ∷ es)
  unfolding last_sequence
  last_sequence-Numbered n e [] h = omega arith
  last_sequence-Numbered n e (f ∷ es) h = omega (arith, last_sequence-Numbered (suc n) f es h.1)

  -- The version of a snapshot that is read is the version of the run's stream.
  pub version-get_run :
      (t : Table F) (run : ℕ) (snapshot : RunSnapshot F)
      → IsNumbered t
      → (get_run run t).0 ≡ ok snapshot
      → snapshot.version ≡ version t run
  version-get_run t run snapshot w h =
      let r = get_run-IsRun t run snapshot w h in
      let n = rw r.split at (w.at_run run) in
      omega (
        arith,
        (replay-IsReplay r.first r.rest snapshot r.replayed).version,
        last_sequence-Numbered 0 r.first r.rest n,
        version-eq-length t run (w.at_run run),
        ap length r.split,
      )

  pub replayed-some :
      (e : StoredEvent F) (es : List (StoredEvent F)) (x : RunSnapshot F)
      → replay (e ∷ es) ≡ some x
      → replayed (e ∷ es) ≡ ok x
  unfolding replayed
  replayed-some e es x h = ground arith

  validate-some :
      (x : RunSnapshot F) (n : ℕ)
      → in_bounds x ≡ true
      → validate (with_version x n) ≡ some (with_version x n)
  unfolding validate in_bounds
  validate-some x n h = rw h

  -- What is read after events were added, if it is in bounds.
  pub get_run-grown :
      (t : Table F) (run : ℕ) (new : List (EventData F)) (snapshot : RunSnapshot F)
      → IsNumbered t
      → (get_run run t).0 ≡ ok snapshot
      → in_bounds (steps snapshot (stamp run (version t run) new)) ≡ true
      → (get_run run (t ++ stamp run (version t run) new)).0
        ≡ ok (
            with_version
              (steps snapshot (stamp run (version t run) new))
              (version t run + length new))
  unfolding get_run
  get_run-grown t run new snapshot w h bounds =
      let r = get_run-IsRun t run snapshot w h in
      let added = stamp run (version t run) new in
      let w' = IsNumbered-grown t run new w in
      let split : rows (t ++ added) run ≡ r.first ∷ (r.rest ++ added) =
        rows-append_self t run (version t run) new ∙ ap (λ l. l ++ added) r.split in
      let last : last_sequence r.first (r.rest ++ added) ≡ version t run + length new = omega (
        arith,
        last_sequence-Numbered 0 r.first (r.rest ++ added) (rw split at (w'.at_run run)),
        version-eq-length (t ++ added) run (w'.at_run run),
        ap length split,
        version-grown t run new w,
      ) in
      rw (load-rows (t ++ added) run w', split)
        (replayed-some r.first (r.rest ++ added) _ (
          replay-append r.first r.rest added snapshot r.replayed
          ∙ rw last (validate-some (steps snapshot added) (version t run + length new) bounds)))
