-- ===== src/Prelude/Sort.antt =====
-- `ORDER BY` an integer column: a stable insertion sort.
use Prim.Native.Nat.{ℕ}
use mathlib.Core.List.{List, [], ◌∷◌}
use mathlib.Core.Logic.{inl, inr}
use loopgraph_supervisor.Prelude.Tests.{leb, Bool-cases, if◌then◌else◌}
use loopgraph_supervisor.Prelude.Lists.{All}

module _ {A : Type 0} (key : A → ℕ) where
  insert_by : A → List A → List A
  insert_by e [] = e ∷ []
  insert_by e (f ∷ es) =
      let rest = insert_by e es in if leb (key e) (key f) then e ∷ f ∷ es else f ∷ rest

  unfoldable pub order_by : List A → List A
  unfolding insert_by
  order_by [] = []
  order_by (e ∷ es) = insert_by e (order_by es)

  All-insert_by : (P : A → Type 0) (e : A) (es : List A) → P e → All P es → All P (insert_by e es)
  unfolding insert_by
  All-insert_by P e [] h k = (h, k)
  All-insert_by P e (f ∷ es) h k = elim (Bool-cases (leb (key e) (key f))) [
    | inl first ↦ rw first (h, k)
    | inr later ↦ rw later (k.0, All-insert_by P e es h k.1)
  ]

  pub All-order_by : (P : A → Type 0) (es : List A) → All P es → All P (order_by es)
  unfolding order_by
  All-order_by P [] h = h
  All-order_by P (e ∷ es) h = All-insert_by P e (order_by es) h.0 (All-order_by P es h.1)
