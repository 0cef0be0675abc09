-- ===== src/Versions/Rows.antt =====
-- The queries by primary key after the updates of the tables.
use loopgraph_supervisor.Prelude.{
  ℕ, subst, keep, is_empty, ◌≡◌, refl, sym, ◌∙◌, Bool, true, false, String, str_eq, eq_iff, none,
  some, List, [], ◌∷◌, ◌++◌, ◌==◌, lookup, arith, if◌then◌else◌, Bool-cases, inl, inr,
}
use loopgraph_supervisor.Versions.Tables.{AgentVersion, find_version, alter, repoint}

module _ {F : Type 0} where
  pub find-id :
      (i : ℕ) (vs : List (AgentVersion F)) (v : AgentVersion F)
      → find_version i vs ≡ some v
      → v.id ≡ i
  find-id i [] v h = cc
  find-id i (x ∷ vs) v h = elim (Bool-cases (x.id == i)) [
    | inl here ↦ ground (arith, rw here at h)
    | inr there ↦ find-id i vs v (rw there at h)
  ]

  pub find_own :
      (i : ℕ) (vs : List (AgentVersion F)) (v : AgentVersion F)
      → find_version i vs ≡ some v
      → find_version v.id vs ≡ some v
  find_own i vs v h = subst (λ k. find_version k vs ≡ some v) (sym (find-id i vs v h)) h

  -- A row that is found and passes a test is kept by the test.
  pub keep-found :
      (p : AgentVersion F → Bool) (i : ℕ) (vs : List (AgentVersion F)) (v : AgentVersion F)
      → find_version i vs ≡ some v
      → p v ≡ true
      → is_empty (keep p vs) ≡ false
  keep-found p i [] v h k = cc
  keep-found p i (x ∷ vs) v h k = elim (Bool-cases (p x)) [
    | inl good ↦ rw good refl
    | inr bad ↦ elim (Bool-cases (x.id == i)) [
      | inl here ↦ absurd (cc (rw here at h, bad, k))
      | inr there ↦ rw bad (keep-found p i vs v (rw there at h) k)
    ]
  ]

  -- A new row is found where no row had its key.
  pub find-add :
      (j : ℕ) (vs : List (AgentVersion F)) (v : AgentVersion F)
      → find_version v.id vs ≡ none
      → find_version j (vs ++ v ∷ []) ≡ (if v.id == j then some v else find_version j vs)
  find-add j [] v h = refl
  find-add j (x ∷ vs) v h = elim (Bool-cases (x.id == v.id)) [
    | inl same ↦ absurd (ground (arith, rw same at h))
    | inr other ↦ rw (find-add j vs v (rw other at h)) (ground arith)
  ]

  -- A changed row is found where the row was.
  pub find-alter :
      (i j : ℕ) (f : AgentVersion F → AgentVersion F) (vs : List (AgentVersion F))
      (v : AgentVersion F)
      → find_version i vs ≡ some v
      → (f v).id ≡ i
      → find_version j (alter i f vs) ≡ (if i == j then some (f v) else find_version j vs)
  find-alter i j f [] v h k = cc
  find-alter i j f (x ∷ vs) v h k = elim (Bool-cases (x.id == i)) [
    | inl here ↦ let same : x ≡ v = cc (rw here at h) in rw (here, same) (ground (arith, k))
    | inr there ↦ rw there (rw (find-alter i j f vs v (rw there at h) k) (ground arith))
  ]

pub str_eq_refl : (s : String) → str_eq s s ≡ true
str_eq_refl s = (eq_iff s s).1 refl

-- Two different names are not both a third.
pub str_eq_apart : (k m n : String) → str_eq k m ≡ false → str_eq k n ≡ true → str_eq m n ≡ false
str_eq_apart k m n apart same = elim (Bool-cases (str_eq m n)) [
  | inr other ↦ other
  | inl both ↦
      let k_n : k ≡ n = (eq_iff k n).0 same in
      let m_n : m ≡ n = (eq_iff m n).0 both in absurd (cc ((eq_iff k m).1 (k_n ∙ sym m_n), apart))
]

if_apart :
    {A : Type 0} (p q : Bool) (x y z : A)
    → (p ≡ true → q ≡ false)
    → (if p then x else if q then y else z) ≡ (if q then y else if p then x else z)
if_apart true true x y z h = absurd (cc (h refl))
if_apart true false x y z h = refl
if_apart false q x y z h = refl

if_same :
    {A : Type 0} (b : Bool) (x y z : A)
    → (if b then x else z) ≡ (if b then x else if b then y else z)
if_same true x y z = refl
if_same false x y z = refl

pub lookup-add :
    (n m : String) (i : ℕ) (rows : List (String × ℕ))
    → lookup m rows ≡ none
    → lookup n (rows ++ (m, i) ∷ []) ≡ (if str_eq m n then some i else lookup n rows)
lookup-add n m i [] h = refl
lookup-add n m i ((k, x) ∷ rows) h = elim (Bool-cases (str_eq k m)) [
  | inl same ↦ absurd (cc (rw same at h))
  | inr other ↦ rw (lookup-add n m i rows (rw other at h)) (
      if_apart (str_eq k n) (str_eq m n) (some x) (some i) (lookup n rows)
        (str_eq_apart k m n other))
]

-- A pointer that is at the expected version moves, and no other.
pub repoint_lem :
    (name : String) (expected new : ℕ) (rows : List (String × ℕ))
    → lookup name rows ≡ some expected
    → ((repoint name expected new rows).0 ≡ 1)
      × ((n : String)
          → lookup n (repoint name expected new rows).1
            ≡ (if str_eq name n then some new else lookup n rows))
repoint_lem name expected new [] h = cc
repoint_lem name expected new ((k, x) ∷ rows) h = elim (Bool-cases (str_eq k name)) [
  | inl here ↦
      let at_expected : (x == expected) ≡ true = ground (arith, rw here at h) in
      rw (here, at_expected, (eq_iff k name).0 here)
        (refl, λ n. if_same (str_eq name n) (some new) (some x) (lookup n rows))
  | inr there ↦
      let (one, after) = repoint_lem name expected new rows (rw there at h) in
      rw there (
        one,
        λ n. rw (after n) (
            if_apart (str_eq k n) (str_eq name n) (some x) (some new) (lookup n rows)
              (str_eq_apart k name n there)),
      )
]
