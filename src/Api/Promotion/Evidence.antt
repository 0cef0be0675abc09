-- ===== src/Api/Promotion/Evidence.antt =====
-- What the evidence of src/loopgraph_supervisor/api/app.py has checked of the benchmark runs.
use loopgraph_supervisor.Prelude.{
  ℕ, Bool, true, false, ◌&&◌, String, str_eq, Option, none, some, List, [], ◌∷◌, lookup,
}
use loopgraph_supervisor.Domain.Runs.{RunStatus, succeeded, failed}
use loopgraph_supervisor.Domain.Snapshot.{RunSnapshot}
use loopgraph_supervisor.Engine.Exec.{ok}
use loopgraph_supervisor.Versions.Records.{same_id}
use loopgraph_supervisor.Evolution.Mutator.Dicts.{put}
use loopgraph_supervisor.Api.Promotion.{
  PromotionCalls, is_finished, same_texts, validate_benchmark_run, comparable, validate_pair,
  validate_pairs, is_passed, or_true, gather_constraints, gather_results,
}
use loopgraph_supervisor.Prelude.{
  ◌⊎◌, eq_iff, ◌≡◌, refl, ◌∙◌, ap, All, Bool-cases, Option-cases, inl, inr, ==_iff,
}
use loopgraph_supervisor.Engine.Exec.{Result-cases}

-- Two lists of one length, with a relation between the items at one place.
pub data Paired {A B : Type 0} (R : A → B → Type 0) : List A → List B → Type 0 where
  none_left : Paired R [] []
  pair :
      (x : A) (y : B) (xs : List A) (ys : List B)
      → R x y
      → Paired R xs ys
      → Paired R (x ∷ xs) (y ∷ ys)

same_id-some : (o : Option ℕ) (v : ℕ) → same_id o (some v) ≡ true → o ≡ some v
unfolding same_id
same_id-some none v h = absurd (cc h)
same_id-some (some a) v h = ap some ((==_iff a v).0 h)

both_true : (a b : Bool) → (a && b) ≡ true → (a ≡ true) × (b ≡ true)
both_true true b h = (refl, h)
both_true false b h = absurd (cc h)

same_texts_lem : (xs ys : List String) → same_texts xs ys ≡ true → xs ≡ ys
same_texts_lem [] [] h = refl
same_texts_lem [] (y ∷ ys) h = absurd (cc h)
same_texts_lem (x ∷ xs) [] h = absurd (cc h)
same_texts_lem (x ∷ xs) (y ∷ ys) h =
    let (first, rest) = both_true (str_eq x y) (same_texts xs ys) h in
    cc ((eq_iff x y).0 first, same_texts_lem xs ys rest)

is_finished_lem : (s : RunStatus) → is_finished s ≡ true → (s ≡ succeeded) ⊎ (s ≡ failed)
is_finished_lem succeeded h = inl refl
is_finished_lem failed h = inr refl
is_finished_lem _ h = absurd (cc h)

module _ {F : Type 0} where
  -- A run that counts as a benchmark of a version.
  pub record IsBenchmark (version : ℕ) (run : RunSnapshot F) : Type 0 where
    pub linked : run.definition.agent_version_id ≡ some version
    pub finished : (run.status ≡ succeeded) ⊎ (run.status ≡ failed)
    pub scored : (score : F) × (run.last_score ≡ some score)
    pub own : run.human_override ≡ false

  -- Two runs that may be compared.
  pub record IsComparable (calls : PromotionCalls F) (b c : ℕ) (x y : RunSnapshot F) : Type 0 where
    pub baseline : IsBenchmark b x
    pub candidate : IsBenchmark c y
    pub goal : x.definition.goal ≡ y.definition.goal
    pub graders : x.definition.grader_ids ≡ y.definition.grader_ids
    pub policy : calls.same_policy x.definition.grading_policy y.definition.grading_policy ≡ true

  validate-IsBenchmark :
      (run : RunSnapshot F) (v : ℕ) → validate_benchmark_run run v ≡ ok tt → IsBenchmark v run
  unfolding validate_benchmark_run
  validate-IsBenchmark run v h =
      elim (Bool-cases (same_id run.definition.agent_version_id (some v))) [
        | inr other ↦ absurd (cc (rw (validate_benchmark_run, other) at h))
        | inl linked ↦ elim (Bool-cases (is_finished run.status)) [
          | inr going ↦ absurd (cc (rw (validate_benchmark_run, linked, going) at h))
          | inl finished ↦ elim (Option-cases run.last_score) [
            | inl missing ↦
                absurd (cc (rw (validate_benchmark_run, linked, finished, missing) at h))
            | inr (score, scored) ↦ elim (Bool-cases run.human_override) [
              | inl human ↦
                  absurd (cc (rw (validate_benchmark_run, linked, finished, scored, human) at h))
              | inr own ↦ record {
                linked = same_id-some run.definition.agent_version_id v linked;
                finished = is_finished_lem run.status finished;
                scored = (score, scored);
                own = own;
              }
            ]
          ]
        ]
      ]

  comparable_lem :
      (calls : PromotionCalls F) (x y : RunSnapshot F)
      → comparable calls x y ≡ true
      → (x.definition.goal ≡ y.definition.goal)
        × (x.definition.grader_ids ≡ y.definition.grader_ids)
        × (calls.same_policy x.definition.grading_policy y.definition.grading_policy ≡ true)
  unfolding comparable
  comparable_lem calls x y h =
      let same_policy = calls.same_policy x.definition.grading_policy y.definition.grading_policy in
      let same_graders = same_texts x.definition.grader_ids y.definition.grader_ids in
      let same_goal = str_eq x.definition.goal y.definition.goal in
      let (rest, policy) = both_true (same_goal && same_graders) same_policy h in
      let (goal, graders) = both_true same_goal same_graders rest in
      (
        (eq_iff x.definition.goal y.definition.goal).0 goal,
        same_texts_lem x.definition.grader_ids y.definition.grader_ids graders,
        policy,
      )

  validate_pair-IsComparable :
      (calls : PromotionCalls F) (b c : ℕ) (x y : RunSnapshot F)
      → validate_pair calls b c x y ≡ ok tt
      → IsComparable calls b c x y
  unfolding validate_pair
  validate_pair-IsComparable calls b c x y h = elim (Result-cases (validate_benchmark_run x b)) [
    | inr (e, bad) ↦ absurd (cc (rw (validate_pair, bad) at h))
    | inl (_, first) ↦ elim (Result-cases (validate_benchmark_run y c)) [
      | inr (e, bad) ↦ absurd (cc (rw (validate_pair, first, bad) at h))
      | inl (_, second) ↦ elim (Bool-cases (comparable calls x y)) [
        | inr apart ↦ absurd (cc (rw (validate_pair, first, second, apart) at h))
        | inl same ↦ record {
          baseline = validate-IsBenchmark x b first;
          candidate = validate-IsBenchmark y c second;
          goal = (comparable_lem calls x y same).0;
          graders = (comparable_lem calls x y same).1;
          policy = (comparable_lem calls x y same).2;
        }
      ]
    ]
  ]

  pub validate_pairs-Paired :
      (calls : PromotionCalls F) (b c : ℕ) (xs ys : List (RunSnapshot F))
      → validate_pairs calls b c xs ys ≡ ok tt
      → Paired (IsComparable calls b c) xs ys
  unfolding validate_pairs
  validate_pairs-Paired calls b c [] [] h = none_left
  validate_pairs-Paired calls b c [] (y ∷ ys) h = absurd (cc h)
  validate_pairs-Paired calls b c (x ∷ xs) [] h = absurd (cc h)
  validate_pairs-Paired calls b c (x ∷ xs) (y ∷ ys) h =
      elim (Result-cases (validate_pair calls b c x y)) [
        | inr (e, bad) ↦ absurd (cc (rw (validate_pairs, bad) at h))
        | inl (_, good) ↦
            pair x y xs ys (validate_pair-IsComparable calls b c x y good)
              (validate_pairs-Paired calls b c xs ys (rw (validate_pairs, good) at h))
      ]

-- Every constraint holds.
abbrev pub Hold : List (String × Bool) → Type 0
Hold cs = All (λ c. c.1 ≡ true) cs

-- A result has no constraint that fails.
abbrev pub Passes : String → List (String × Option Bool) → Type 0
Passes replacement cs = All (λ c. is_passed replacement c.1 ≡ true) cs

put-Hold :
    (name : String) (passed : Bool) (o : Option Bool) (found : List (String × Bool))
    → lookup name found ≡ o
    → Hold (put name (or_true o && passed) found)
    → Hold found × (passed ≡ true)
unfolding put
put-Hold name passed o [] e h = (tt, (both_true (or_true o) passed h.0).1)
put-Hold name passed o ((k, v) ∷ d) e h = elim (Bool-cases (str_eq k name)) [
  | inl same ↦
      let now = rw same at h in
      let (left, right) = both_true (or_true o) passed now.0 in
      ((ap or_true (rw same at e) ∙ left, now.1), right)
  | inr other ↦
      let now = rw other at h in
      let (rest, right) = put-Hold name passed o d (rw other at e) now.1 in ((now.0, rest), right)
]

gather_constraints-Hold :
    (replacement : String) (found : List (String × Bool)) (cs : List (String × Option Bool))
    → Hold (gather_constraints replacement found cs)
    → Hold found × Passes replacement cs
unfolding gather_constraints
gather_constraints-Hold replacement found [] h = (h, tt)
gather_constraints-Hold replacement found ((name, passed) ∷ rest) h =
    let (now, later) =
      gather_constraints-Hold replacement
        (put name (or_true (lookup name found) && is_passed replacement passed) found) rest h in
    let (before, here) =
      put-Hold name (is_passed replacement passed) (lookup name found) found refl now in
    (before, (here, later))

pub gather_results-Hold :
    (replacement : String) (found : List (String × Bool)) (rs : List (List (String × Option Bool)))
    → Hold (gather_results replacement found rs)
    → Hold found × All (Passes replacement) rs
unfolding gather_results
gather_results-Hold replacement found [] h = (h, tt)
gather_results-Hold replacement found (r ∷ rs) h =
    let (now, later) =
      gather_results-Hold replacement (gather_constraints replacement found r) rs h in
    let (before, here) = gather_constraints-Hold replacement found r now in (before, (here, later))
