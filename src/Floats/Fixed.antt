-- ===== src/Floats/Fixed.antt =====
-- Fixed-point numbers in thousandths, rounded down: they meet the laws asked of floats, and
-- concrete runs use them.
use loopgraph_supervisor.Floats.{Floats}
use loopgraph_supervisor.Prelude.{
  ℕ, ◌+◌, ◌*◌, ◌/◌, ◌≤◌, ◌≡◌, true, false, not, List, [], ◌∷◌, arith, ltb, all,
}

abbrev pub add : ℕ → ℕ → ℕ
add a b = a + b

abbrev pub mul : ℕ → ℕ → ℕ
mul a b = a * b / 1000

abbrev pub div : ℕ → ℕ → ℕ
div a b = a * 1000 / b

abbrev pub sum : List ℕ → ℕ
sum [] = 0
sum (x ∷ xs) = x + sum xs

pub ltb_irrefl : (a : ℕ) → ltb a a ≡ false
ltb_irrefl a = ground arith

pub geb_trans : (a b c : ℕ) → ltb a b ≡ false → ltb b c ≡ false → ltb a c ≡ false
geb_trans a b c h k = ground arith

mul-le : (s w : ℕ) → s ≤ 1000 → s * w / 1000 ≤ w
mul-le s w h = grind arith

div-le : (x t : ℕ) → 1 ≤ t → x ≤ t → x * 1000 / t ≤ 1000
div-le x t h k = grind arith

pub mul_unit :
    (s w : ℕ)
    → ltb s 0 ≡ false
    → ltb 1000 s ≡ false
    → ltb w 0 ≡ false
    → (ltb (mul s w) 0 ≡ false) × (ltb w (mul s w) ≡ false)
mul_unit s w a b c = (ground arith, ground (arith, mul-le s w))

pub div_unit :
    (x t : ℕ)
    → ltb 0 t ≡ true
    → ltb x 0 ≡ false
    → ltb t x ≡ false
    → (ltb (div x t) 0 ≡ false) × (ltb 1000 (div x t) ≡ false)
div_unit x t a b c = (ground arith, ground (arith, div-le x t))

pub sum_one : (x : ℕ) → (ltb x (sum (x ∷ [])) ≡ false) × (ltb (sum (x ∷ [])) x ≡ false)
sum_one x = (ground arith, ground arith)

pub div_ge_zero : (x t : ℕ) → ltb 0 t ≡ true → ltb x 0 ≡ false → ltb (div x t) 0 ≡ false
div_ge_zero x t h k = ground arith

pub sum_ge_zero : (xs : List ℕ) → all (λ x. not (ltb x 0)) xs ≡ true → ltb (sum xs) 0 ≡ false
sum_ge_zero xs h = ground arith

instance abbrev pub thousandths : Floats ℕ
thousandths = record {
  zero = 0;
  one = 1000;
  add = add;
  mul = mul;
  div = div;
  sum = sum;
  lt = ltb;
  lt_irrefl = ltb_irrefl;
  ge_trans = geb_trans;
  mul_unit = mul_unit;
  div_unit = div_unit;
  sum_one = sum_one;
  div_ge_zero = div_ge_zero;
  sum_ge_zero = sum_ge_zero;
}
