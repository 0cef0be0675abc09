-- ===== src/Engine/Exec.antt =====
-- Methods that write to the store and may raise. What was written before a raise stays written.
use loopgraph_supervisor.Prelude.{
  ℕ, String, Bool, true, false, not, if◌then◌else◌, ◌≡◌, refl, ap, inl, inr, ◌⊎◌,
}
use loopgraph_supervisor.Domain.Directives.{SupervisorDirective}
use loopgraph_supervisor.Domain.Events.{Budget, ErrorRecord}

-- `BudgetExceededError`, `SupervisorControlSignal`, `EventStoreConcurrencyError`, the built-in
-- exceptions that the engine raises, and an exception of a component, by the name of its type.
pub data Exception (F : Type 0) : Type 0 where
  key_error value_error runtime_error : Exception F
  concurrency_error : (run_id expected_version actual_version : ℕ) → Exception F
  budget_exceeded : Budget F → Exception F
  control_signal : SupervisorDirective F → Exception F
  raised : (type : String) → Exception F

-- `type(error).__name__`
unfoldable pub type_name : {F : Type 0} → Exception F → String
type_name key_error = "KeyError"
type_name value_error = "ValueError"
type_name runtime_error = "RuntimeError"
type_name (concurrency_error _ _ _) = "EventStoreConcurrencyError"
type_name (budget_exceeded _) = "BudgetExceededError"
type_name (control_signal _) = "SupervisorControlSignal"
type_name (raised type) = type

-- `_safe_error`
unfoldable pub safe_error : {F : Type 0} → Exception F → ErrorRecord
unfolding type_name
safe_error e = record { type = type_name e }

pub data Result (F A : Type 0) : Type 0 where
  ok : A → Result F A
  err : Exception F → Result F A

pub Result-cases :
    {F A : Type 0} (r : Result F A) → ((a : A) × (r ≡ ok a)) ⊎ ((e : Exception F) × (r ≡ err e))
Result-cases (ok a) = inl (a, refl)
Result-cases (err e) = inr (e, refl)

pub ok_same : {F A : Type 0} (r : Result F A) (x y : A) → r ≡ ok x → r ≡ ok y → x ≡ y
ok_same r x y h k = cc (h, k)

pub err_same : {F A : Type 0} (r : Result F A) (e x : Exception F) → r ≡ err e → r ≡ err x → e ≡ x
err_same r e x h k = cc (h, k)

abbrev pub Exec : Type 0 → Type 0 → Type 0 → Type 0
Exec F S A = S → Result F A × S

module _ {F S A : Type 0} where
  abbrev pub pure : A → Exec F S A
  pure a s = (ok a, s)

  abbrev pub raise : Exception F → Exec F S A
  raise e s = (err e, s)

  abbrev pub lift : Result F A → Exec F S A
  lift r s = (r, s)

module _ {F S A B : Type 0} where
  abbrev pub resume : Result F A → (A → Exec F S B) → Exec F S B
  resume (ok a) f s = f a s
  resume (err e) f s = (err e, s)

  infixl 10 ◌>>=◌ ◌>>◌
  abbrev pub ◌>>=◌ : Exec F S A → (A → Exec F S B) → Exec F S B
  ◌>>=◌ m f s = let (r, s') = m s in resume r f s'

  abbrev pub ◌>>◌ : Exec F S A → Exec F S B → Exec F S B
  m >> n = m >>= λ _. n

  -- `try: …` / `except Exception as error: …`, with what follows where nothing is raised
  abbrev pub settle : Result F A → (A → Exec F S B) → (Exception F → Exec F S B) → Exec F S B
  settle (ok a) f g s = f a s
  settle (err e) f g s = g e s

module _ {F S : Type 0} where
  abbrev pub get : Exec F S S
  get s = (ok s, s)

  abbrev pub modify : (S → S) → Exec F S (Unit {0})
  modify f s = (ok tt, f s)

  abbrev pub when : Bool → Exec F S (Unit {0}) → Exec F S (Unit {0})
  when true m = m
  when false m = pure tt

-- What returns behind a guard that raises has passed the guard.
pub unless_raised :
    {F S A : Type 0} (b : Bool) (e : Exception F) (m : Exec F S A) (st st' : S) (a : A)
    → (if not b then raise e else m) st ≡ (ok a, st')
    → (b ≡ true) × (m st ≡ (ok a, st'))
unless_raised true e m st st' a h = (refl, h)
unless_raised false e m st st' a h = absurd (cc h)

module _ {F S A B : Type 0} where
  pub bind_lem :
      (m : Exec F S A) (f : A → Exec F S B) (st : S) (x : Result F A × S)
      → m st ≡ x
      → (m >>= f) st ≡ resume x.0 f x.1
  bind_lem m f st x h = ap (λ y. resume y.0 f y.1) h

  pub map-state : (m : Exec F S A) (g : A → B) (st : S) → ((m >>= λ a. pure (g a)) st).1 ≡ (m st).1
  map-state m g st = elim (Result-cases (m st).0) [
    | inl (a, good) ↦ rw good refl
    | inr (e, bad) ↦ rw bad refl
  ]

  -- A sequence that returns has returned in its parts.
  pub bind_returns :
      (m : Exec F S A) (f : A → Exec F S B) (st st' : S) (b : B)
      → (m >>= f) st ≡ (ok b, st')
      → (a : A) × ((m st).0 ≡ ok a) × (f a (m st).1 ≡ (ok b, st'))
  bind_returns m f st st' b h = elim (Result-cases (m st).0) [
    | inl (a, good) ↦ (a, good, rw good at h)
    | inr (e, bad) ↦ absurd (cc (rw bad at h))
  ]

  -- What stands last in a chain and writes nothing leaves the state as the chain has left it.
  pub then_pure-state : (m : Exec F S A) (b : B) (st : S) → ((m >> pure b) st).1 ≡ (m st).1
  then_pure-state m b st = elim (Result-cases (m st).0) [
    | inl (a, good) ↦ rw good refl
    | inr (e, bad) ↦ rw bad refl
  ]

pub then_raise-state :
    {F S A : Type 0} (B : Type 0) (m : Exec F S A) (e : Exception F) (st : S)
    → ((m >> raise {A = B} e) st).1 ≡ (m st).1
then_raise-state B m e st = elim (Result-cases (m st).0) [
  | inl (a, good) ↦ rw good refl
  | inr (x, bad) ↦ rw bad refl
]
