-- ===== src/EventStore/Streams.antt =====
-- What the event store promises: each run has an append-only stream, numbered from 1, which grows
-- only at the version that the writer expects.
use loopgraph_supervisor.Prelude.{
  ℕ, suc, ◌+◌, ◌≡◌, refl, subst, false, ◌&&◌, none, List, [], ◌∷◌, ◌++◌, map, arith, ◌==◌, ==_refl,
  ==_iff, Bool-cases, inl, inr, if◌then◌else◌, keep-append, length, append-nil, ap, length-map,
  length-append, ◌∙◌, sym, some, take-append-drop, drop-drop, drop,
}
use mathlib.Core.List.{map-append}
use native.Mathlib.Nat.{le_refl}
use loopgraph_supervisor.Domain.Events.{EventData, NewEvent}
use loopgraph_supervisor.EventStore.{
  Table, stored, concurrency_error, version, stamp, append, load, limited,
}
use loopgraph_supervisor.EventStore.Rows.{
  rows, Numbered, Numbered-append, stamp-Numbered, rows-stamp_self, rows-stamp_ne,
  version-eq-length, load_lem, stamp-fits,
}

-- Each run's rows are numbered from 1 in the order of insertion.
pub record IsNumbered {F : Type 0} (t : Table F) : Type 0 where
  pub at_run : (run : ℕ) → Numbered 0 (rows t run)

-- The abstract store: a stream of events for each run.
abbrev pub view : {F : Type 0} → Table F → ℕ → List (EventData F)
view t run = map (λ e. e.event) (rows t run)

module _ {F : Type 0} where
  -- An append at the current version writes.
  pub append-ok :
      (t : Table F) (run : ℕ) (e : NewEvent F) (es : List (NewEvent F))
      → append t run (version t run) (e ∷ es)
        ≡ (stored (stamp run (version t run) (e ∷ es)), t ++ stamp run (version t run) (e ∷ es))
  unfolding append
  append-ok t run e es =
      let fits = stamp-fits t run (version t run) (e ∷ es) (le_refl _) in
      rw (==_refl (version t run), fits)

  pub append-stale :
      (t : Table F) (run expected : ℕ) (e : NewEvent F) (es : List (NewEvent F))
      → (version t run == expected) ≡ false
      → append t run expected (e ∷ es) ≡ (concurrency_error run expected (version t run), t)
  unfolding append
  append-stale t run expected e es h = rw h

  pub rows-append_self :
      (t : Table F) (run n : ℕ) (es : List (NewEvent F))
      → rows (t ++ stamp run n es) run ≡ rows t run ++ stamp run n es
  rows-append_self t run n es = rw (keep-append _ t _, rows-stamp_self run n es)

  pub rows-append_ne :
      (t : Table F) (run n : ℕ) (es : List (NewEvent F)) (other : ℕ)
      → (run == other) ≡ false
      → rows (t ++ stamp run n es) other ≡ rows t other
  rows-append_ne t run n es other h =
      rw (keep-append _ t _, rows-stamp_ne run other n es h, append-nil)

  pub map-stamp : (run n : ℕ) (es : List (NewEvent F)) → map (λ e. e.event) (stamp run n es) ≡ es
  unfolding stamp
  map-stamp run n [] = refl
  map-stamp run n (e ∷ es) = rw (map-stamp run (suc n) es)

  view_grown :
      (t : Table F) (run n : ℕ) (es : List (NewEvent F)) (other : ℕ)
      → view (t ++ stamp run n es) other
        ≡ (if run == other then view t other ++ es else view t other)
  view_grown t run n es other = elim (Bool-cases (run == other)) [
    | inl same ↦ rw same (
        subst (λ o. view (t ++ stamp run n es) o ≡ view t o ++ es) ((==_iff run other).0 same)
          (rw (rows-append_self t run n es, map-append, map-stamp run n es)))
    | inr ne ↦ rw (ne, rows-append_ne t run n es other ne)
  ]

  -- The table after an append: with the new rows if the version is as expected, else as it was.
  pub table-append :
      (t : Table F) (run expected : ℕ) (e : NewEvent F) (es : List (NewEvent F))
      → (append t run expected (e ∷ es)).1
        ≡ (if version t run == expected then t ++ stamp run expected (e ∷ es) else t)
  table-append t run expected e es = elim (Bool-cases (version t run == expected)) [
    | inl same ↦ rw same (
        subst (λ v. (append t run v (e ∷ es)).1 ≡ t ++ stamp run v (e ∷ es)) ((==_iff _ _).0 same)
          (rw (append-ok t run e es)))
    | inr other ↦ rw (append-stale t run expected e es other, other)
  ]

  pub version-view : (t : Table F) (run : ℕ) → IsNumbered t → length (view t run) ≡ version t run
  version-view t run w = length-map _ _ ∙ sym (version-eq-length t run (w.at_run run))

  -- For every table whose runs are numbered, every run, expected version and events, and on every
  -- branch: an append adds the events at the end of the run's stream if the stream's length is the
  -- expected version, and otherwise changes no stream; the stream of any other run is the same.
  pub view-append :
      (t : Table F) (run expected : ℕ) (es : List (NewEvent F)) (other : ℕ)
      → IsNumbered t
      → view (append t run expected es).1 other ≡ (
          if run == other && length (view t run) == expected
          then view t other ++ es
          else view t other)
  unfolding append
  view-append t run expected [] other w = ground (arith, append-nil (view t other))
  view-append t run expected (e ∷ es) other w =
      rw (version-view t run w, table-append t run expected e es)
        (elim (Bool-cases (version t run == expected)) [
          | inl same ↦ rw same (rw (view_grown t run expected (e ∷ es) other) (ground arith))
          | inr ne ↦ rw ne (ground arith)
        ])

  grown-Numbered :
      (t : Table F) (run n : ℕ) (es : List (NewEvent F)) (other : ℕ)
      → IsNumbered t
      → n ≡ version t run
      → Numbered 0 (rows (t ++ stamp run n es) other)
  grown-Numbered t run n es other w e = elim (Bool-cases (run == other)) [
    | inl same ↦
        subst (λ o. Numbered 0 (rows (t ++ stamp run n es) o)) ((==_iff run other).0 same)
          (rw (rows-append_self t run n es) (
            Numbered-append 0 n (rows t run) (stamp run n es) (w.at_run run)
              (omega (arith, version-eq-length t run (w.at_run run))) (stamp-Numbered run n es)))
    | inr ne ↦ rw (rows-append_ne t run n es other ne) (w.at_run other)
  ]

  -- Every append, accepted or refused, keeps every run numbered from 1 without a gap.
  pub append-IsNumbered :
      (t : Table F) (run expected : ℕ) (es : List (NewEvent F))
      → IsNumbered t
      → IsNumbered (append t run expected es).1
  unfolding append
  append-IsNumbered t run expected [] w = w
  append-IsNumbered t run expected (e ∷ es) w =
      rw (table-append t run expected e es) (elim (Bool-cases (version t run == expected)) [
        | inl same ↦ rw same (record {
          at_run =
              λ other. grown-Numbered t run expected (e ∷ es) other w (sym ((==_iff _ _).0 same));
        })
        | inr ne ↦ rw ne w
      ])

  pub IsNumbered-grown :
      (t : Table F) (run : ℕ) (es : List (NewEvent F))
      → IsNumbered t
      → IsNumbered (t ++ stamp run (version t run) es)
  IsNumbered-grown t run es w = record {
    at_run = λ other. grown-Numbered t run (version t run) es other w refl;
  }

  pub view-grown :
      (t : Table F) (run n : ℕ) (es : List (NewEvent F))
      → view (t ++ stamp run n es) run ≡ view t run ++ es
  view-grown t run n es = rw (rows-append_self t run n es, map-append, map-stamp run n es)

  length-stamp : (run n : ℕ) (es : List (NewEvent F)) → length (stamp run n es) ≡ length es
  unfolding stamp
  length-stamp run n [] = refl
  length-stamp run n (e ∷ es) = ap suc (length-stamp run (suc n) es)

  pub version-grown :
      (t : Table F) (run : ℕ) (es : List (NewEvent F))
      → IsNumbered t
      → version (t ++ stamp run (version t run) es) run ≡ version t run + length es
  version-grown t run es w =
      let n = version t run in
      let new = stamp run n es in
      omega (
        arith,
        version-eq-length (t ++ new) run (grown-Numbered t run n es run w refl),
        version-eq-length t run (w.at_run run),
        ap length (rows-append_self t run n es),
        length-append (rows t run) new,
        length-stamp run n es,
      )

  -- Where the runs are numbered and two writers read the version of a run before either has
  -- written, the writer that comes second is refused: it gets the version after the first write,
  -- and the table holds the first write alone.
  pub append_race :
      (t : Table F) (run : ℕ) (e : NewEvent F) (es : List (NewEvent F)) (f : NewEvent F)
      (fs : List (NewEvent F))
      → IsNumbered t
      → append (append t run (version t run) (e ∷ es)).1 run (version t run) (f ∷ fs) ≡ (
        concurrency_error run (version t run) (version t run + length (e ∷ es)),
        t ++ stamp run (version t run) (e ∷ es),
      )
  append_race t run e es f fs w =
      let later = version-grown t run (e ∷ es) w in
      rw (append-ok t run e es) (
        rw
          (append-stale (t ++ stamp run (version t run) (e ∷ es)) run (version t run) f fs
            (ground (arith, later)))
          (rw later))

  -- Where the runs are numbered, the events read after an append at the current version are those
  -- read before it, then the new ones, numbered on from the version.
  pub load-append :
      (t : Table F) (run : ℕ) (es : List (NewEvent F))
      → IsNumbered t
      → load (append t run (version t run) es).1 run 0 none
        ≡ load t run 0 none ++ stamp run (version t run) es
  unfolding append limited load stamp
  load-append t run [] w = rw (append-nil (load t run 0 none))
  load-append t run (e ∷ es) w =
      let n = version t run in
      rw (append-ok t run e es) (
        rw
          (
            load_lem (t ++ stamp run n (e ∷ es)) run 0 none
                (grown-Numbered t run n (e ∷ es) run w refl),
            load_lem t run 0 none (w.at_run run),
          )
          (rows-append_self t run n (e ∷ es)))

  -- Where the runs are numbered, a page of at most `n` events behind sequence `a`, followed by what
  -- stands behind sequence `a + n`, is all that stands behind `a`: paging loses and repeats nothing.
  pub load_pages :
      (t : Table F) (run a n : ℕ)
      → IsNumbered t
      → load t run a (some n) ++ load t run (a + n) none ≡ load t run a none
  unfolding limited
  load_pages t run a n w =
      let h = w.at_run run in
      rw (load_lem t run a (some n) h, load_lem t run (a + n) none h, load_lem t run a none h)
        (rw (← drop-drop a n (rows t run)) (take-append-drop n (drop a (rows t run))))
