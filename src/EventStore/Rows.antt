-- ===== src/EventStore/Rows.antt =====
-- The rows of one run, and what the queries make of them when they are numbered from 1.
use loopgraph_supervisor.Prelude.{
  ℕ, zero, suc, ◌+◌, ◌≤◌, ◌<◌, ◌≡◌, refl, false, ◌&&◌, Option, List, [], ◌∷◌, ◌++◌, arith, ltb,
  ◌==◌, keep, any, length, drop, max, ◌∙◌, add-zero,
}
use loopgraph_supervisor.Domain.Events.{NewEvent, StoredEvent}
use loopgraph_supervisor.EventStore.{
  Table, version, stamp, violates, same_key, order_by_sequence, limited, load,
}

module _ {F : Type 0} where
  -- The rows of a run in the order of insertion.
  abbrev pub rows : Table F → ℕ → List (StoredEvent F)
  rows t run = keep (λ e. e.run_id == run) t

  -- The sequences are n + 1, n + 2, …
  abbrev pub Numbered : ℕ → List (StoredEvent F) → Type 0
  Numbered n [] = Unit
  Numbered n (e ∷ es) = (e.sequence ≡ suc n) × Numbered (suc n) es

  pub Numbered-append :
      (n m : ℕ) (xs ys : List (StoredEvent F))
      → Numbered n xs
      → m ≡ n + length xs
      → Numbered m ys
      → Numbered n (xs ++ ys)
  Numbered-append n m [] ys h e k = let same : m ≡ n = omega arith in rw same at k
  Numbered-append n m (x ∷ xs) ys h e k = (h.0, Numbered-append (suc n) m xs ys h.1 (omega arith) k)

  pub stamp-Numbered : (run n : ℕ) (es : List (NewEvent F)) → Numbered n (stamp run n es)
  unfolding stamp
  stamp-Numbered run n [] = tt
  stamp-Numbered run n (e ∷ es) = (refl, stamp-Numbered run (suc n) es)

  pub rows-stamp_self :
      (run n : ℕ) (es : List (NewEvent F)) → rows (stamp run n es) run ≡ stamp run n es
  unfolding stamp
  rows-stamp_self run n [] = refl
  rows-stamp_self run n (e ∷ es) = ground (arith, rows-stamp_self run (suc n) es)

  pub rows-stamp_ne :
      (run other n : ℕ) (es : List (NewEvent F))
      → (run == other) ≡ false
      → rows (stamp run n es) other ≡ []
  unfolding stamp
  rows-stamp_ne run other n [] h = refl
  rows-stamp_ne run other n (e ∷ es) h = ground (arith, rows-stamp_ne run other (suc n) es)

  -- The greatest sequence, 0 without rows.
  top : List (StoredEvent F) → ℕ
  top [] = 0
  top (e ∷ es) = max e.sequence (top es)

  version-eq-top : (run : ℕ) (t : Table F) → version t run ≡ top (rows t run)
  unfolding version top
  version-eq-top run [] = refl
  version-eq-top run (e ∷ t) = ground (arith, version-eq-top run t)

  top_bounds : (n : ℕ) (es : List (StoredEvent F)) → Numbered n es → top es ≤ n + length es
  unfolding top
  top_bounds n [] h = omega arith
  top_bounds n (e ∷ es) h = omega (arith, top_bounds (suc n) es h.1)

  top_of_Numbered :
      (n : ℕ) (e : StoredEvent F) (es : List (StoredEvent F))
      → Numbered n (e ∷ es)
      → top (e ∷ es) ≡ n + length (e ∷ es)
  unfolding top
  top_of_Numbered n e [] h = omega arith
  top_of_Numbered n e (f ∷ es) h =
      omega (arith, top_of_Numbered (suc n) f es h.1, top_bounds (suc n) (f ∷ es) h.1)

  top-eq-length : (es : List (StoredEvent F)) → Numbered 0 es → top es ≡ length es
  unfolding top
  top-eq-length [] h = refl
  top-eq-length (e ∷ es) h = omega (arith, top_of_Numbered 0 e es h)

  -- A run's version is the number of its rows.
  pub version-eq-length :
      (t : Table F) (run : ℕ) → Numbered 0 (rows t run) → version t run ≡ length (rows t run)
  version-eq-length t run h = version-eq-top run t ∙ top-eq-length (rows t run) h

  -- Rows that are numbered are in order.
  order_by_sequence_lem :
      (n : ℕ) (es : List (StoredEvent F)) → Numbered n es → order_by_sequence es ≡ es
  unfolding order_by_sequence
  order_by_sequence_lem n [] h = refl
  order_by_sequence_lem n (e ∷ []) h = refl
  order_by_sequence_lem n (e ∷ f ∷ es) h =
      rw (order_by_sequence_lem (suc n) (f ∷ es) h.1) (ground arith)

  keep_both :
      (run after : ℕ) (t : Table F)
      → keep (λ e. e.run_id == run && ltb after e.sequence) t
        ≡ keep (λ e. ltb after e.sequence) (rows t run)
  keep_both run after [] = refl
  keep_both run after (e ∷ t) = ground (arith, keep_both run after t)

  keep_all :
      (n after : ℕ) (es : List (StoredEvent F))
      → Numbered n es
      → after ≤ n
      → keep (λ e. ltb after e.sequence) es ≡ es
  keep_all n after [] h le = refl
  keep_all n after (e ∷ es) h le = ground (arith, keep_all (suc n) after es h.1)

  -- A page starts behind the first `after` rows.
  keep_after :
      (n after k : ℕ) (es : List (StoredEvent F))
      → Numbered n es
      → after ≡ n + k
      → keep (λ e. ltb after e.sequence) es ≡ drop k es
  keep_after n after zero es h e = keep_all n after es h (omega arith)
  keep_after n after (suc k) [] h e = refl
  keep_after n after (suc k) (x ∷ es) h e = ground (arith, keep_after (suc n) after k es h.1)

  Numbered-drop :
      (n k : ℕ) (es : List (StoredEvent F)) → Numbered n es → Numbered (n + k) (drop k es)
  Numbered-drop n zero es h = rw add-zero h
  Numbered-drop n (suc k) [] h = tt
  Numbered-drop n (suc k) (e ∷ es) h =
      let same : n + suc k ≡ suc n + k = omega arith in rw same (Numbered-drop (suc n) k es h.1)

  -- A read gives the run's rows behind the first `after_sequence`, in order, up to the limit.
  pub load_lem :
      (t : Table F) (run after : ℕ) (limit : Option ℕ)
      → Numbered 0 (rows t run)
      → load t run after limit ≡ limited limit (drop after (rows t run))
  unfolding load
  load_lem t run after limit h =
      let sorted =
        order_by_sequence_lem (0 + after) (drop after (rows t run))
          (Numbered-drop 0 after (rows t run) h) in
      rw (keep_both run after t, keep_after 0 after after (rows t run) h (omega arith), sorted)

  -- No stored sequence is as high as the next one.
  fresh_rows :
      (n : ℕ) (e : StoredEvent F) (t : Table F)
      → version t e.run_id ≤ n
      → n < e.sequence
      → any (same_key e) t ≡ false
  unfolding version same_key
  fresh_rows n e [] h k = refl
  fresh_rows n e (x ∷ t) h k = ground (arith, fresh_rows n e t)

  -- The unique constraint never refuses what `append` inserts.
  pub stamp-fits :
      (t : Table F) (run n : ℕ) (es : List (NewEvent F))
      → version t run ≤ n
      → violates t (stamp run n es) ≡ false
  unfolding violates stamp
  stamp-fits t run n [] h = refl
  stamp-fits t run n (e ∷ es) h = ground (
    arith,
    fresh_rows n (record { run_id = run; sequence = suc n; event = e }) t,
    stamp-fits t run (suc n) es,
  )
