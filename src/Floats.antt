-- ===== src/Floats.antt =====
-- Python's `float` and the built-in `sum`, which the program uses and does not implement: a
-- parameter of the model. The laws are those of rounded arithmetic on finite values; NaN and the
-- infinities are left out.
pub mod Fixed
use loopgraph_supervisor.Prelude.{◌≡◌, Bool, true, false, not, List, [], ◌∷◌, all}

pub record Floats (F : Type 0) : Type 0 where
  pub zero : F
  pub one : F
  pub add : F → F → F
  pub mul : F → F → F
  pub div : F → F → F
  pub sum : List F → F
  pub lt : F → F → Bool
  pub lt_irrefl : (a : F) → lt a a ≡ false
  -- `not (a < b)` is `a >= b`, a preorder.
  pub ge_trans : (a b c : F) → lt a b ≡ false → lt b c ≡ false → lt a c ≡ false
  -- A factor in the unit interval does not enlarge, also after rounding.
  pub mul_unit :
      (s w : F)
      → lt s zero ≡ false
      → lt one s ≡ false
      → lt w zero ≡ false
      → (lt (mul s w) zero ≡ false) × (lt w (mul s w) ≡ false)
  pub div_unit :
      (x t : F)
      → lt zero t ≡ true
      → lt x zero ≡ false
      → lt t x ≡ false
      → (lt (div x t) zero ≡ false) × (lt one (div x t) ≡ false)
  pub div_ge_zero : (x t : F) → lt zero t ≡ true → lt x zero ≡ false → lt (div x t) zero ≡ false
  -- The sum of one number is that number. Of a longer sum only the sign is known: since Python 3.12
  -- `sum` compensates for rounding, and is not monotone.
  pub sum_one : (x : F) → (lt x (sum (x ∷ [])) ≡ false) × (lt (sum (x ∷ [])) x ≡ false)
  pub sum_ge_zero : (xs : List F) → all (λ x. not (lt x zero)) xs ≡ true → lt (sum xs) zero ≡ false

-- Python's comparisons, with the interface found by its type.
module _ {F : Type 0} ⦃fl : Floats F⦄ where
  abbrev pub flt : F → F → Bool
  flt a b = fl.lt a b

  abbrev pub fle : F → F → Bool
  fle a b = not (fl.lt b a)

  -- The range check `ge=0.0, le=1.0` of a model field.
  abbrev pub is_unit : F → Bool
  is_unit x = elim (fl.lt x fl.zero) [ true ↦ false | false ↦ not (fl.lt fl.one x) ]
