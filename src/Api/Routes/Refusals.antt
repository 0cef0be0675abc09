-- ===== src/Api/Routes/Refusals.antt =====
-- A route of src/loopgraph_supervisor/api/app.py that refuses or only reads: how it is composed.
use loopgraph_supervisor.Prelude.{ℕ, Bool, true, false, some, if◌then◌else◌}
use loopgraph_supervisor.Memory
use loopgraph_supervisor.Memory.{
  MemoryKind, MemoryStatus, experimental, MemoryRecord, MemoryResult, Memories, WriteCalls, write,
  set_status, for_context,
}
use loopgraph_supervisor.Versions.Records.{VersionCalls, same_id}
use loopgraph_supervisor.Engine.Exec.{
  Exception, key_error, value_error, raised, Result, err, Exec, pure, raise, lift, ◌>>=◌,
}
use loopgraph_supervisor.Runtime.{Runtime}
use loopgraph_supervisor.Api.Routes.{error_status, named_status, memory_result}
use loopgraph_supervisor.Prelude.{◌≡◌, refl, ◌∙◌, subst, inl, inr}
use loopgraph_supervisor.Engine.Exec.{Result-cases, err_same}
use loopgraph_supervisor.Versions.Records
use loopgraph_supervisor.Versions.Records.{VersionResult, versions_for_agent}
use loopgraph_supervisor.Runtime.{version_result}

-- An exception that has a handler.
abbrev pub IsAnswered : {F : Type 0} → Exception F → Type 0
IsAnswered e = (code : ℕ) × (error_status e ≡ some code)

module _ {F A : Type 0} where
  -- Where the method raises, the exception has a handler and the state is what it was.
  pub record Refuses (m : Exec F (Runtime F) A) : Type 0 where
    pub at : (st : Runtime F) (e : Exception F) → (m st).0 ≡ err e → IsAnswered e × ((m st).1 ≡ st)

  -- The method never changes the state.
  pub record Looks (m : Exec F (Runtime F) A) : Type 0 where
    pub same : (st : Runtime F) → (m st).1 ≡ st
    pub answered : (st : Runtime F) (e : Exception F) → (m st).0 ≡ err e → IsAnswered e

  pub Refuses-raise : (e : Exception F) → IsAnswered e → Refuses (raise {A = A} e)
  Refuses-raise e a = record { at = λ st x h. (subst IsAnswered (err_same _ e x refl h) a, refl) }

  pub Refuses-if :
      (b : Bool) (m m' : Exec F (Runtime F) A)
      → Refuses m
      → Refuses m'
      → Refuses (if b then m else m')
  Refuses-if true m m' k k' = k
  Refuses-if false m m' k k' = k'

module _ {F A B : Type 0} where
  pub Refuses-bind :
      (m : Exec F (Runtime F) A) (f : A → Exec F (Runtime F) B)
      → Looks m
      → ((a : A) → Refuses (f a))
      → Refuses (m >>= f)
  Refuses-bind m f l k = record {
    at = λ st e h. elim (Result-cases (m st).0) [
      | inl (a, good) ↦
          let (answered, same) = (k a).at (m st).1 e (rw good at h) in
          rw good (answered, same ∙ l.same st)
      | inr (x, bad) ↦
          let e' = err_same _ x e refl (rw bad at h) in
          rw bad (subst IsAnswered e' (l.answered st x bad), l.same st)
    ];
  }

module _ {F A : Type 0} where
  pub Looks-lift :
      (r : Result F A) → ((e : Exception F) → r ≡ err e → IsAnswered e) → Looks (lift r)
  Looks-lift r a = record { same = λ st. refl; answered = λ st e h. a e h }

  Looks-Refuses : (m : Exec F (Runtime F) A) → Looks m → Refuses m
  Looks-Refuses m l = record { at = λ st e h. (l.answered st e h, l.same st) }

  -- The errors of the stores have handlers.
  pub version_result-IsAnswered :
      (r : VersionResult A) (e : Exception F) → version_result r ≡ err e → IsAnswered e
  unfolding version_result error_status named_status
  version_result-IsAnswered (Records.ok a) e h = absurd (cc h)
  version_result-IsAnswered Records.key_error e h =
      subst IsAnswered (err_same _ key_error e refl h) (404, refl)
  version_result-IsAnswered Records.value_error e h =
      subst IsAnswered (err_same _ value_error e refl h) (409, refl)
  version_result-IsAnswered Records.duplicate_bundle e h =
      subst IsAnswered (err_same _ (raised "DuplicateBundleError") e refl h) (409, refl)
  version_result-IsAnswered Records.version_conflict e h =
      subst IsAnswered (err_same _ (raised "VersionConflictError") e refl h) (409, refl)

  pub memory_result-IsAnswered :
      (r : MemoryResult A) (e : Exception F) → memory_result r ≡ err e → IsAnswered e
  unfolding memory_result error_status named_status
  memory_result-IsAnswered (Memory.ok a) e h = absurd (cc h)
  memory_result-IsAnswered Memory.value_error e h =
      subst IsAnswered (err_same _ value_error e refl h) (409, refl)
  memory_result-IsAnswered Memory.key_error e h =
      subst IsAnswered (err_same _ key_error e refl h) (404, refl)
  memory_result-IsAnswered Memory.transition_error e h =
      subst IsAnswered (err_same _ (raised "MemoryTransitionError") e refl h) (409, refl)

  pub Looks-raise : (e : Exception F) → IsAnswered e → Looks (raise {A = A} e)
  Looks-raise e a = record {
    same = λ st. refl;
    answered = λ st x h. subst IsAnswered (err_same _ e x refl h) a;
  }

  pub Looks-pure : (a : A) → Looks {F = F} (pure a)
  Looks-pure a = record { same = λ st. refl; answered = λ st x h. absurd (cc h) }

  pub Looks-if :
      (b : Bool) (m m' : Exec F (Runtime F) A) → Looks m → Looks m' → Looks (if b then m else m')
  Looks-if true m m' k k' = k
  Looks-if false m m' k k' = k'

module _ {F A B : Type 0} where
  pub Looks-bind :
      (m : Exec F (Runtime F) A) (f : A → Exec F (Runtime F) B)
      → Looks m
      → ((a : A) → Looks (f a))
      → Looks (m >>= f)
  Looks-bind m f l k = record {
    same = λ st. elim (Result-cases (m st).0) [
      | inl (a, good) ↦ rw good ((k a).same (m st).1 ∙ l.same st)
      | inr (x, bad) ↦ rw bad (l.same st)
    ];
    answered = λ st e h. elim (Result-cases (m st).0) [
      | inl (a, good) ↦ (k a).answered (m st).1 e (rw good at h)
      | inr (x, bad) ↦ subst IsAnswered (err_same _ x e refl (rw bad at h)) (l.answered st x bad)
    ];
  }

pub value_error-IsAnswered : (F : Type 0) → IsAnswered {F = F} value_error
unfolding error_status
value_error-IsAnswered F = (409, refl)
