-- ===== src/Grading/Rules/Judging.antt =====
-- What the loop of `RuleGrader.evaluate` of src/loopgraph_supervisor/grading/rules.py records.
use loopgraph_supervisor.Prelude.{
  Bool, true, false, not, ◌&&◌, ◌||◌, String, str_eq, eq_iff, some, List, [], ◌∷◌, map, lookup,
  contains, if◌then◌else◌, ◌≡◌, refl, arith, sym, ◌∙◌, ap, subst, inl, inr, Bool-cases, All,
}
use loopgraph_supervisor.Domain.Json.{Fields}
use loopgraph_supervisor.Domain.Runs.{unique}
use loopgraph_supervisor.Engine.Exec.{Exception, ok, err, Result-cases, ok_same, err_same}
use loopgraph_supervisor.Grading.Policy.Laws.{Some}
use loopgraph_supervisor.Grading.Rules.{
  OutputRule, OperatorCalls, Outcomes, rule_passes, put_key, note_outcome, judge, hard_passed,
}

lookup-put_same :
    (k : String) (b : Bool) (d : List (String × Bool)) → lookup k (put_key k b d) ≡ some b
unfolding put_key
lookup-put_same k b [] = rw ((eq_iff k k).1 refl) refl
lookup-put_same k b ((j, v) ∷ d) = elim (Bool-cases (str_eq j k)) [
  | inl same ↦ rw (same, same) refl
  | inr other ↦ rw (other, other) (lookup-put_same k b d)
]

lookup-put_other :
    (k j : String) (b : Bool) (d : List (String × Bool))
    → str_eq k j ≡ false
    → lookup j (put_key k b d) ≡ lookup j d
unfolding put_key
lookup-put_other k j b [] h = rw h refl
lookup-put_other k j b ((i, v) ∷ d) h = elim (Bool-cases (str_eq i k)) [
  | inl same ↦
      let apart : str_eq i j ≡ false =
        subst (λ t. str_eq t j ≡ false) (sym ((eq_iff i k).0 same)) h in
      rw (same, apart) refl
  | inr other ↦ rw other (ap (λ r. if str_eq i j then some v else r) (lookup-put_other k j b d h))
]

-- Every value of a dict is true.
pub all_true-lookup :
    (d : List (String × Bool)) (k : String) (b : Bool)
    → hard_passed d ≡ true
    → lookup k d ≡ some b
    → b ≡ true
unfolding hard_passed
all_true-lookup [] k b h at_k = absurd (cc at_k)
all_true-lookup ((j, true) ∷ d) k b h at_k = elim (Bool-cases (str_eq j k)) [
  | inl same ↦ cc (rw same at at_k)
  | inr other ↦ all_true-lookup d k b h (rw other at at_k)
]
all_true-lookup ((j, false) ∷ d) k b h at_k = absurd (cc h)

hard_passed-put :
    (k : String) (d : List (String × Bool))
    → hard_passed d ≡ true
    → hard_passed (put_key k true d) ≡ true
unfolding hard_passed put_key
hard_passed-put k [] h = refl
hard_passed-put k ((j, true) ∷ d) h = elim (Bool-cases (str_eq j k)) [
  | inl same ↦ rw same h
  | inr other ↦ rw other (hard_passed-put k d h)
]
hard_passed-put k ((j, false) ∷ d) h = absurd (cc h)

or-false : (a b : Bool) → (a || b) ≡ false → (a ≡ false) × (b ≡ false)
or-false a b h = ground arith

not_and-true : (a b : Bool) → (not a && b) ≡ true → (a ≡ false) × (b ≡ true)
not_and-true a b h = ground arith

module _ {F : Type 0} (calls : OperatorCalls F) (output : Fields F) where
  abbrev pub ids : List (OutputRule F) → List String
  ids rules = map (λ rule. rule.id) rules

  -- The rule was decided, and a hard constraint is recorded with the decision.
  abbrev pub IsNoted : Outcomes → OutputRule F → Type 0
  IsNoted o rule =
      (b : Bool) × (rule_passes calls output rule ≡ ok b)
      × (rule.hard_constraint ≡ true → lookup rule.id o.hard_constraints ≡ some b)

  note-other :
      (rule : OutputRule F) (b : Bool) (o : Outcomes) (key : String)
      → str_eq rule.id key ≡ false
      → lookup key (note_outcome calls rule b o).hard_constraints ≡ lookup key o.hard_constraints
  unfolding note_outcome
  note-other rule b o key h = elim (Bool-cases rule.hard_constraint) [
    | inl hard ↦ rw hard (lookup-put_other rule.id key b o.hard_constraints h)
    | inr soft ↦ rw soft refl
  ]

  note-own :
      (rule : OutputRule F) (b : Bool) (o : Outcomes)
      → rule.hard_constraint ≡ true
      → lookup rule.id (note_outcome calls rule b o).hard_constraints ≡ some b
  unfolding note_outcome
  note-own rule b o hard = rw hard (lookup-put_same rule.id b o.hard_constraints)

  note-hard_passed :
      (rule : OutputRule F) (b : Bool) (o : Outcomes)
      → (rule.hard_constraint ≡ true → b ≡ true)
      → hard_passed o.hard_constraints ≡ true
      → hard_passed (note_outcome calls rule b o).hard_constraints ≡ true
  unfolding note_outcome
  note-hard_passed rule b o met start = elim (Bool-cases rule.hard_constraint) [
    | inl hard ↦ rw (hard, met hard) (hard_passed-put rule.id o.hard_constraints start)
    | inr soft ↦ rw soft start
  ]

  judge-other :
      (rules : List (OutputRule F)) (o o' : Outcomes) (key : String)
      → judge calls output rules o ≡ ok o'
      → contains key (ids rules) ≡ false
      → lookup key o'.hard_constraints ≡ lookup key o.hard_constraints
  unfolding judge
  judge-other [] o o' key h fresh = cc
  judge-other (rule ∷ rules) o o' key h fresh =
      let (apart, rest) = or-false (str_eq rule.id key) (contains key (ids rules)) fresh in
      elim (Result-cases (rule_passes calls output rule)) [
        | inl (b, good) ↦
            judge-other rules (note_outcome calls rule b o) o' key (rw (judge, good) at h) rest
            ∙ note-other rule b o key apart
        | inr (e, bad) ↦ absurd (cc (rw (judge, bad) at h))
      ]

  pub judge-IsNoted :
      (rules : List (OutputRule F)) (o o' : Outcomes)
      → judge calls output rules o ≡ ok o'
      → unique (ids rules) ≡ true
      → All (IsNoted o') rules
  unfolding judge unique
  judge-IsNoted [] o o' h distinct = tt
  judge-IsNoted (rule ∷ rules) o o' h distinct =
      let (fresh, rest) =
        not_and-true (contains rule.id (ids rules)) (unique (ids rules)) distinct in
      elim (Result-cases (rule_passes calls output rule)) [
        | inl (b, good) ↦
            let later = rw (judge, good) at h in
            (
              (
                b,
                good,
                λ hard.
                    judge-other rules (note_outcome calls rule b o) o' rule.id later fresh
                    ∙ note-own rule b o hard,
              ),
              judge-IsNoted rules (note_outcome calls rule b o) o' later rest,
            )
        | inr (e, bad) ↦ absurd (cc (rw (judge, bad) at h))
      ]

  -- Where each hard constraint is met, the dict of hard constraints stays true throughout.
  pub judge-hard_passed :
      (rules : List (OutputRule F)) (o o' : Outcomes)
      → judge calls output rules o ≡ ok o'
      → All (λ rule. rule.hard_constraint ≡ true → rule_passes calls output rule ≡ ok true) rules
      → hard_passed o.hard_constraints ≡ true
      → hard_passed o'.hard_constraints ≡ true
  unfolding judge
  judge-hard_passed [] o o' h met start = cc
  judge-hard_passed (rule ∷ rules) o o' h (first, met) start =
      elim (Result-cases (rule_passes calls output rule)) [
        | inl (b, good) ↦
            judge-hard_passed rules (note_outcome calls rule b o) o' (rw (judge, good) at h) met
              (note-hard_passed rule b o (λ hard. ok_same _ b true good (first hard)) start)
        | inr (e, bad) ↦ absurd (cc (rw (judge, bad) at h))
      ]

  pub judge-raises :
      (rules : List (OutputRule F)) (o : Outcomes) (e : Exception F)
      → judge calls output rules o ≡ err e
      → Some (λ rule. rule_passes calls output rule ≡ err e) rules
  unfolding judge
  judge-raises [] o e h = absurd (cc h)
  judge-raises (rule ∷ rules) o e h = elim (Result-cases (rule_passes calls output rule)) [
    | inl (b, good) ↦
        inr (judge-raises rules (note_outcome calls rule b o) e (rw (judge, good) at h))
    | inr (x, bad) ↦ inl (bad ∙ ap err (err_same _ x e refl (rw (judge, bad) at h)))
  ]
