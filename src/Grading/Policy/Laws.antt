-- ===== src/Grading/Policy/Laws.antt =====
-- What an aggregated decision says.
use loopgraph_supervisor.Prelude.{
  ◌≡◌, refl, sym, subst, ◌≢◌, ◌↔◌, ◌⊎◌, inl, inr, Bool, true, false, not, String, some, List, [],
  ◌∷◌, arith, all, keep, is_empty, lookup, All, Bool-cases, Option-cases,
}
use loopgraph_supervisor.Floats.{Floats, fle}
use loopgraph_supervisor.Domain.Models.{EvaluationResult}
use loopgraph_supervisor.Domain.Runs.{GradingPolicy}
use loopgraph_supervisor.Grading.Policy.{
  GradingDecision, decided, reported, constraint_passed, decide_results, aggregate,
}

-- Some item meets the predicate.
abbrev pub Some {ℓ} : {A : Type ℓ} → (A → Type 0) → List A → Type 0
Some P [] = ⊥
Some P (x ∷ xs) = P x ⊎ Some P xs

module _ {F : Type 0} where
  -- A required constraint holds: some grader reports it, and no grader reports it as failed.
  abbrev pub Holds : List (EvaluationResult F) → String → Type 0
  Holds rs c =
      Some (λ r. lookup c r.hard_constraints ≡ some true) rs
      × All (λ r. lookup c r.hard_constraints ≢ some false) rs

  all→reported :
      (c : String) (rs : List (EvaluationResult F))
      → all (λ b. b) (reported c rs) ≡ true
      → All (λ r. lookup c r.hard_constraints ≢ some false) rs
  unfolding reported
  all→reported c [] h = tt
  all→reported c (r ∷ rs) h = elim (Option-cases (lookup c r.hard_constraints)) [
    | inl absent ↦ ((λ e. cc), all→reported c rs (ground arith))
    | inr (b, found) ↦ ((λ e. ground arith), all→reported c rs (ground arith))
  ]

  reported→all :
      (c : String) (rs : List (EvaluationResult F))
      → All (λ r. lookup c r.hard_constraints ≢ some false) rs
      → all (λ b. b) (reported c rs) ≡ true
  unfolding reported
  reported→all c [] h = refl
  reported→all c (r ∷ rs) h = ground (arith, reported→all c rs h.1, h.0)

  reported-some :
      (c : String) (rs : List (EvaluationResult F))
      → is_empty (reported c rs) ≡ false
      → all (λ b. b) (reported c rs) ≡ true
      → Some (λ r. lookup c r.hard_constraints ≡ some true) rs
  unfolding reported
  reported-some c [] h k = cc
  reported-some c (r ∷ rs) h k = elim (Option-cases (lookup c r.hard_constraints)) [
    | inl absent ↦ inr (reported-some c rs (ground arith) (ground arith))
    | inr (b, found) ↦ inl (ground arith)
  ]

  some→reported :
      (c : String) (rs : List (EvaluationResult F))
      → Some (λ r. lookup c r.hard_constraints ≡ some true) rs
      → is_empty (reported c rs) ≡ false
  unfolding reported
  some→reported c [] h = elim h [ ]
  some→reported c (r ∷ rs) (inl here) = ground arith
  some→reported c (r ∷ rs) (inr later) = ground (arith, some→reported c rs later)

  -- A required constraint passes exactly if it holds.
  pub constraint_passed_iff :
      (c : String) (rs : List (EvaluationResult F)) → (constraint_passed c rs ≡ true) ↔ Holds rs c
  unfolding constraint_passed
  constraint_passed_iff c rs = (
    λ h. (reported-some c rs (ground arith) (ground arith), all→reported c rs (ground arith)),
    λ h. ground (arith, some→reported c rs h.0, reported→all c rs h.1),
  )

module _ {A : Type 0} (P : A → Type 0) (p : A → Bool) (iff : (a : A) → (p a ≡ true) ↔ P a) where
  -- No item fails a test exactly if all meet its predicate.
  pub none_fails : (xs : List A) → (is_empty (keep (λ a. not (p a)) xs) ≡ true) ↔ All P xs
  none_fails [] = ((λ h. tt), (λ h. refl))
  none_fails (x ∷ xs) = elim (Bool-cases (p x)) [
    | inl good ↦ (
      (λ h. ((iff x).0 good, (none_fails xs).0 (ground arith))),
      (λ h. ground (arith, (none_fails xs).1 h.1)),
    )
    | inr bad ↦ ((λ h. ground arith), (λ h. ground (arith, (iff x).1 h.0)))
  ]

module _ {F : Type 0} ⦃fl : Floats F⦄ where
  decided-decide_results :
      (p : GradingPolicy F) (rs : List (EvaluationResult F)) (d : GradingDecision F)
      → aggregate p rs ≡ decided d
      → d ≡ decide_results p rs
  unfolding aggregate
  decided-decide_results p [] d h = cc
  decided-decide_results p (r ∷ rs) d h = ground arith

  decide_results-passed_iff :
      (p : GradingPolicy F) (rs : List (EvaluationResult F))
      → ((decide_results p rs).passed ≡ true) ↔ (
          (fle p.threshold (decide_results p rs).score ≡ true)
          × All (Holds rs) p.required_constraints)
  unfolding decide_results
  decide_results-passed_iff p rs =
      let required =
        none_fails (Holds rs) (λ c. constraint_passed c rs) (λ c. constraint_passed_iff c rs)
          p.required_constraints in
      (
        λ h. (ground arith, required.0 (ground arith)),
        λ h. let every = required.1 h.1 in ground arith,
      )

  -- A decision passes exactly if its score reaches the threshold and every required constraint is
  -- reported by some grader and reported as failed by none.
  pub aggregate-passed_iff :
      (p : GradingPolicy F) (rs : List (EvaluationResult F)) (d : GradingDecision F)
      → aggregate p rs ≡ decided d
      → (d.passed ≡ true)
        ↔ ((fle p.threshold d.score ≡ true) × All (Holds rs) p.required_constraints)
  aggregate-passed_iff p rs d h =
      subst
        (λ (x : GradingDecision F).
          (x.passed ≡ true)
          ↔ ((fle p.threshold x.score ≡ true) × All (Holds rs) p.required_constraints))
        (sym (decided-decide_results p rs d h)) (decide_results-passed_iff p rs)
