-- ===== src/Prelude/Ids.antt =====
-- A dict whose keys are ids, as the list of its items in the order of their first insertion.
use Prim.Native.Nat.{ℕ, suc, ◌+◌, ◌≤◌, ◌<◌}
use mathlib.Core.Path.{◌≡◌, refl, ap, ◌∙◌}
use mathlib.Core.Logic.{inl, inr}
use mathlib.Core.Bool.{false, not}
use mathlib.Core.Option.{Option, none, some}
use mathlib.Core.List.{List, [], ◌∷◌}
use native.Mathlib.Omega.{arith}
use loopgraph_supervisor.Prelude.Tests.{ltb, ◌==◌, ==_iff, ==_refl, if◌then◌else◌, Bool-cases}
use loopgraph_supervisor.Prelude.Lists.{length, keep}

module _ {ℓ} {V : Type ℓ} where
  -- `d.get(id)`
  abbrev pub lookup_id : ℕ → List (ℕ × V) → Option V
  lookup_id i [] = none
  lookup_id i ((j, v) ∷ d) = let rest = lookup_id i d in if j == i then some v else rest

  -- `d[id] = value`: a key that is there keeps its place.
  abbrev pub put_id : ℕ → V → List (ℕ × V) → List (ℕ × V)
  put_id i v [] = (i, v) ∷ []
  put_id i v ((j, w) ∷ d) = let rest = put_id i v d in if j == i then (j, v) ∷ d else (j, w) ∷ rest

  -- `d.pop(id, None)`
  abbrev pub pop_id : ℕ → List (ℕ × V) → List (ℕ × V)
  pop_id i d = keep (λ e. not (e.0 == i)) d

  pub lookup-put_same : (i : ℕ) (v : V) (d : List (ℕ × V)) → lookup_id i (put_id i v d) ≡ some v
  lookup-put_same i v [] = ground arith
  lookup-put_same i v ((j, w) ∷ d) = ground (arith, lookup-put_same i v d)

  pub lookup-put_other :
      (i k : ℕ) (v : V) (d : List (ℕ × V))
      → (i == k) ≡ false
      → lookup_id k (put_id i v d) ≡ lookup_id k d
  lookup-put_other i k v [] h = ground arith
  lookup-put_other i k v ((j, w) ∷ d) h = ground (arith, lookup-put_other i k v d h)

  pub length-put_le : (i : ℕ) (v : V) (d : List (ℕ × V)) → length (put_id i v d) ≤ suc (length d)
  length-put_le i v [] = omega arith
  length-put_le i v ((j, w) ∷ d) = ground (arith, length-put_le i v d)

  -- A key that is there leaves the number of items as it is.
  pub length-put_known :
      (i : ℕ) (v w : V) (d : List (ℕ × V))
      → lookup_id i d ≡ some w
      → length (put_id i v d) ≡ length d
  length-put_known i v w [] h = cc
  length-put_known i v w ((j, u) ∷ d) h = ground (arith, length-put_known i v w d)

  -- The weight of the items, of which one is replaced.
  abbrev pub total : (V → ℕ) → List (ℕ × V) → ℕ
  total f [] = 0
  total f ((j, v) ∷ d) = f v + total f d

  pub total-put :
      (f : V → ℕ) (i : ℕ) (v w : V) (d : List (ℕ × V))
      → lookup_id i d ≡ some w
      → total f (put_id i v d) + f w ≡ total f d + f v
  total-put f i v w [] h = cc
  total-put f i v w ((j, u) ∷ d) h = elim (Bool-cases (j == i)) [
    | inl same ↦ let e : u ≡ w = cc (rw same at h) in rw same (omega (arith, ap f e))
    | inr other ↦ rw other (ground (arith, total-put f i v w d (rw other at h)))
  ]

  pub total-put_new :
      (f : V → ℕ) (i : ℕ) (v : V) (d : List (ℕ × V))
      → lookup_id i d ≡ none
      → total f (put_id i v d) ≡ total f d + f v
  total-put_new f i v [] h = omega arith
  total-put_new f i v ((j, u) ∷ d) h = ground (arith, total-put_new f i v d)

  -- No key stands twice.
  abbrev pub Distinct : List (ℕ × V) → Type ℓ
  Distinct [] = Unit
  Distinct ((j, v) ∷ d) = (lookup_id j d ≡ none) × Distinct d

  pub put-Distinct : (i : ℕ) (v : V) (d : List (ℕ × V)) → Distinct d → Distinct (put_id i v d)
  put-Distinct i v [] h = (refl, tt)
  put-Distinct i v ((j, w) ∷ d) h = elim (Bool-cases (j == i)) [
    | inl same ↦ rw same h
    | inr other ↦ rw other (lookup-put_other i j v d (ground arith) ∙ h.0, put-Distinct i v d h.1)
  ]

  -- A positive total comes from an item with a positive weight.
  pub total_find :
      (f : V → ℕ) (d : List (ℕ × V))
      → Distinct d
      → 0 < total f d
      → (i : ℕ) × (v : V) × (lookup_id i d ≡ some v) × (0 < f v)
  total_find f [] h k = absurd (omega arith)
  total_find f ((j, v) ∷ d) h k = elim (Bool-cases (ltb 0 (f v))) [
    | inl here ↦ (j, v, rw (==_refl j) refl, ground arith)
    | inr not_here ↦
        let (i, w, at_i, positive) = total_find f d h.1 (ground arith) in
        (
          i,
          w,
          elim (Bool-cases (j == i)) [
            | inl same ↦ absurd (cc (h.0, at_i, ap (λ k. lookup_id k d) ((==_iff j i).0 same)))
            | inr other ↦ rw other at_i
          ],
          positive,
        )
  ]

  pub total_ge :
      (f : V → ℕ) (i : ℕ) (v : V) (d : List (ℕ × V)) → lookup_id i d ≡ some v → f v ≤ total f d
  total_ge f i v [] h = cc
  total_ge f i v ((j, u) ∷ d) h = elim (Bool-cases (j == i)) [
    | inl same ↦ let e : u ≡ v = cc (rw same at h) in omega (arith, ap f e)
    | inr other ↦ omega (arith, total_ge f i v d (rw other at h))
  ]
