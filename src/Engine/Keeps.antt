-- ===== src/Engine/Keeps.antt =====
-- Invariants of methods that write and may raise: a rule for each way to build one.
use loopgraph_supervisor.Prelude.{◌≡◌, Bool, true, false, if◌then◌else◌}
use loopgraph_supervisor.Engine.Exec.{
  Exception, Result, ok, err, Exec, pure, raise, lift, get, modify, when, settle, resume, ◌>>=◌,
}

-- The method keeps the predicate of its state, also where it raises.
pub record Keeps {F S A : Type 0} (P : S → Type 0) (m : Exec F S A) : Type 0 where
  pub at : (st : S) → P st → P (m st).1

module _ {F S A : Type 0} {P : S → Type 0} where
  pub Keeps-pure : (a : A) → Keeps {F = F} P (pure a)
  Keeps-pure a = record { at = λ st h. h }

  pub Keeps-raise : (e : Exception F) → Keeps {A = A} P (raise e)
  Keeps-raise e = record { at = λ st h. h }

  pub Keeps-lift : (r : Result F A) → Keeps P (lift r)
  Keeps-lift r = record { at = λ st h. h }

module _ {F S A B : Type 0} {P : S → Type 0} where
  -- After a method that keeps the predicate comes one that keeps it for each result.
  pub Keeps-bind :
      (m : Exec F S A) (f : A → Exec F S B)
      → Keeps P m
      → ((a : A) → Keeps P (f a))
      → Keeps P (m >>= f)
  Keeps-bind m f km kf = record { at = λ st h. let (r, st') = m st in after r st' (km.at st h) }
    where
      after : (r : Result F A) (st : S) → P st → P (resume r f st).1
      after (ok a) st h = (kf a).at st h
      after (err e) st h = h

  pub Keeps-settle :
      (r : Result F A) (f : A → Exec F S B) (g : Exception F → Exec F S B)
      → ((a : A) → Keeps P (f a))
      → ((e : Exception F) → Keeps P (g e))
      → Keeps P (settle r f g)
  Keeps-settle (ok a) f g kf kg = record { at = (kf a).at }
  Keeps-settle (err e) f g kf kg = record { at = (kg e).at }

module _ {F S : Type 0} {P : S → Type 0} where
  pub Keeps-get : Keeps {F = F} P get
  Keeps-get = record { at = λ st h. h }

  pub Keeps-modify : (f : S → S) → ((st : S) → P st → P (f st)) → Keeps {F = F} P (modify f)
  Keeps-modify f kf = record { at = kf }

  pub Keeps-when : (b : Bool) (m : Exec F S (Unit {0})) → Keeps P m → Keeps P (when b m)
  Keeps-when true m km = km
  Keeps-when false m km = Keeps-pure tt

module _ {F S A : Type 0} {P : S → Type 0} where
  pub Keeps-if :
      (b : Bool) (m m' : Exec F S A) → Keeps P m → Keeps P m' → Keeps P (if b then m else m')
  Keeps-if true m m' k k' = k
  Keeps-if false m m' k k' = k'

-- The method leads from one predicate of its state to another, whether it returns or raises.
pub record Moves {F S A : Type 0} (P Q : S → Type 0) (m : Exec F S A) : Type 0 where
  pub at : (st : S) → P st → Q (m st).1

-- The same, where it returns.
pub record Concludes {F S A : Type 0} (P Q : S → Type 0) (m : Exec F S A) : Type 0 where
  pub at : (st : S) (a : A) → P st → (m st).0 ≡ ok a → Q (m st).1

module _ {F S A B : Type 0} {P Q R : S → Type 0} where
  pub Concludes-bind :
      (m : Exec F S A) (f : A → Exec F S B)
      → Moves P Q m
      → ((a : A) → Concludes Q R (f a))
      → Concludes P R (m >>= f)
  Concludes-bind m f km kf = record {
    at = λ st b h e. let (r, st') = m st in after r st' b (km.at st h) e;
  }
    where
      after :
          (r : Result F A) (st : S) (b : B) → Q st → (resume r f st).0 ≡ ok b → R (resume r f st).1
      after (ok a) st b h e = (kf a).at st b h e
      after (err x) st b h e = cc

module _ {F S A : Type 0} {P : S → Type 0} where
  pub Moves-keep : (m : Exec F S A) → Keeps P m → Moves P P m
  Moves-keep m k = record { at = k.at }
