-- ===== src/Evolution/Promotion/Passing.antt =====
-- When `PromotionPolicy.evaluate` of src/loopgraph_supervisor/evolution/promotion.py passes.
use loopgraph_supervisor.Prelude.{
  ◌≡◌, ◌↔◌, refl, ℕ, ltb, ◌≤◌, Bool, true, false, not, String, Option, none, some, List, [], ◌∷◌,
  ◌++◌, map, keep, is_empty, All, if◌then◌else◌, arith, Bool-cases, inl, inr,
}
use loopgraph_supervisor.Floats.{Floats, flt}
use loopgraph_supervisor.Evolution.Promotion.{
  PromotionEvidence, Reason, PromotionPolicy, below_minimum, delta_below_minimum,
  too_many_regressions, hard_constraint_failed, cost_reason, reasons_for, evaluate,
}

module _ {F : Type 0} ⦃fl : Floats F⦄ where
  -- What a policy demands of the evidence, without its list of reasons.
  pub record MeetsPolicy (policy : PromotionPolicy F) (evidence : PromotionEvidence F) (delta : F)
      : Type 0 where
    pub score : fl.lt evidence.candidate_score policy.minimum_candidate_score ≡ false
    pub difference : fl.lt delta policy.minimum_score_delta ≡ false
    pub regressions : evidence.regressions ≤ policy.maximum_regressions
    pub constraints : All (λ c. c.1 ≡ true) evidence.hard_constraints
    pub cost :
        (m b c : F)
        → policy.maximum_cost_multiplier ≡ some m
        → evidence.baseline_cost ≡ some b
        → evidence.candidate_cost ≡ some c
        → fl.lt fl.zero b ≡ true
        → fl.lt (fl.mul b m) c ≡ false

empty_split :
    {A : Type 0} (xs ys : List A)
    → (is_empty (xs ++ ys) ≡ true) ↔ ((is_empty xs ≡ true) × (is_empty ys ≡ true))
empty_split [] ys = (λ h. (refl, h), λ h. h.1)
empty_split (x ∷ xs) ys = (λ h. absurd (cc h), λ h. absurd (cc (h.0)))

-- A reason that depends on a condition.
unless_empty :
    {A : Type 0} (b : Bool) (x : A) → (is_empty (if b then x ∷ [] else []) ≡ true) ↔ (b ≡ false)
unless_empty true x = (λ h. absurd (cc h), λ h. absurd (cc h))
unless_empty false x = (λ h. refl, λ h. refl)

constraint_reasons : (F : Type 0) → List (String × Bool) → List (Reason F)
constraint_reasons F cs = map (λ c. hard_constraint_failed c.0) (keep (λ c. not c.1) cs)

constraints_empty :
    (F : Type 0) (cs : List (String × Bool))
    → (is_empty (constraint_reasons F cs) ≡ true) ↔ All (λ c. c.1 ≡ true) cs
unfolding constraint_reasons
constraints_empty F [] = (λ h. tt, λ h. refl)
constraints_empty F ((name, true) ∷ cs) =
    let rest = constraints_empty F cs in (λ h. (refl, rest.0 h), λ h. rest.1 h.1)
constraints_empty F ((name, false) ∷ cs) = (λ h. absurd (cc h), λ h. absurd (cc (h.0)))

regressions_le : (most n : ℕ) → ltb most n ≡ false → n ≤ most
regressions_le most n h = ground arith

regressions_lt : (most n : ℕ) → n ≤ most → ltb most n ≡ false
regressions_lt most n h = ground arith

module _ {F : Type 0} ⦃fl : Floats F⦄ where
  CostAllowed : Option F → Option F → Option F → Type 0
  CostAllowed multiplier baseline candidate =
      (m b c : F)
      → multiplier ≡ some m
      → baseline ≡ some b
      → candidate ≡ some c
      → fl.lt fl.zero b ≡ true
      → fl.lt (fl.mul b m) c ≡ false

  cost_empty :
      (multiplier baseline candidate : Option F)
      → (is_empty (cost_reason multiplier baseline candidate) ≡ true)
        ↔ CostAllowed multiplier baseline candidate
  unfolding cost_reason CostAllowed
  cost_empty none baseline candidate = (λ _ m b c h. absurd (cc h), λ _. refl)
  cost_empty (some m) none candidate = (λ _ _ b c _ h. absurd (cc h), λ _. refl)
  cost_empty (some m) (some b) none = (λ _ _ _ c _ _ h. absurd (cc h), λ _. refl)
  cost_empty (some m) (some b) (some c) = elim (Bool-cases (flt fl.zero b)) [
    | inr free ↦ (λ _ m' b' c' _ eb _ pos. absurd (cc (free, eb, pos)), λ _. rw free refl)
    | inl costs ↦ elim (Bool-cases (flt (fl.mul b m) c)) [
      | inl more ↦ (
        λ h. absurd (cc (rw (costs, more) at h)),
        λ h. absurd (cc (h m b c refl refl refl costs, more)),
      )
      | inr less ↦ (λ _ m' b' c' em eb ec _. cc (em, eb, ec, less), λ _. rw (costs, less) refl)
    ]
  ]

  -- The policy passes the evidence exactly if it demands nothing that the evidence does not meet: the
  -- candidate's score and its difference to the baseline's, rounded by the given function, reach the
  -- minimum, the regressions do not exceed the maximum, every hard constraint holds, and, where the
  -- multiplier and both costs are given and the baseline's is positive, the candidate's cost is at
  -- most their product.
  pub evaluate-MeetsPolicy :
      (rounded_difference : F → F → F) (policy : PromotionPolicy F) (evidence : PromotionEvidence F)
      → ((evaluate rounded_difference policy evidence).passed ≡ true)
        ↔ MeetsPolicy policy evidence
            (rounded_difference evidence.candidate_score evidence.baseline_score)
  unfolding CostAllowed constraint_reasons evaluate reasons_for
  evaluate-MeetsPolicy rounded_difference policy evidence =
      let low =
        unless_empty (flt evidence.candidate_score policy.minimum_candidate_score)
          (below_minimum evidence.candidate_score policy.minimum_candidate_score) in
      let delta = rounded_difference evidence.candidate_score evidence.baseline_score in
      let close =
        unless_empty (flt delta policy.minimum_score_delta)
          (delta_below_minimum delta policy.minimum_score_delta) in
      let worse =
        unless_empty (ltb policy.maximum_regressions evidence.regressions)
          (too_many_regressions evidence.regressions policy.maximum_regressions) in
      let hard = constraints_empty F evidence.hard_constraints in
      let cost =
        cost_empty policy.maximum_cost_multiplier evidence.baseline_cost evidence.candidate_cost in
      (
        λ h.
            let (abcd, e) = (empty_split _ _).0 h in
            let (abc, d) = (empty_split _ _).0 abcd in
            let (ab, c) = (empty_split _ _).0 abc in
            let (a, b) = (empty_split _ _).0 ab in
            record {
              score = low.0 a;
              difference = close.0 b;
              regressions = regressions_le _ _ (worse.0 c);
              constraints = hard.0 d;
              cost = cost.0 e;
            },
        λ m.
            let ab = (empty_split _ _).1 (low.1 m.score, close.1 m.difference) in
            let abc = (empty_split _ _).1 (ab, worse.1 (regressions_lt _ _ m.regressions)) in
            let abcd = (empty_split _ _).1 (abc, hard.1 m.constraints) in
            (empty_split _ _).1 (abcd, cost.1 m.cost),
      )
