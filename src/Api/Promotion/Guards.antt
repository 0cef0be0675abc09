-- ===== src/Api/Promotion/Guards.antt =====
-- The guards of `promote_version` of src/loopgraph_supervisor/api/app.py: what a promotion that is
-- carried out has checked.
use loopgraph_supervisor.Prelude.{ℕ, Bool, true, String, none, some, List, [], ◌∷◌, ◌++◌, map}
use loopgraph_supervisor.Floats.{Floats, flt}
use loopgraph_supervisor.Domain.Events.{EventData, evaluation_completed, StoredDecision}
use loopgraph_supervisor.Domain.Snapshot.{RunSnapshot}
use loopgraph_supervisor.Domain.Snapshot.Summary.{collect, last_or}
use loopgraph_supervisor.Prelude.{Option, false, any, ◌==◌, ==_iff, ◌≢◌}
use loopgraph_supervisor.EventStore.{Table, load}
use loopgraph_supervisor.Engine.Exec.{ok}
use loopgraph_supervisor.Engine.Runs.{get_run}
use loopgraph_supervisor.Evolution.Promotion.{PromotionEvidence}
use loopgraph_supervisor.Api.Promotion.{
  PromotionRequest, PromotionCalls, benchmark_score, benchmark_scores, count_regressions,
  validate_pairs, last_evaluation, gather_results, hard_constraints, read_runs, unique_ids,
  evidence_of,
}
use loopgraph_supervisor.Prelude.{
  ◌≡◌, refl, sym, ◌∙◌, ap, subst, arith, All, Option-cases, Bool-cases, count, inl, inr,
}
use loopgraph_supervisor.Engine.Exec.{Result-cases, bind_returns, ok_same}
use loopgraph_supervisor.Api.Promotion.Evidence.{
  Paired, none_left, pair, IsComparable, validate_pairs-Paired, Hold, Passes, gather_results-Hold,
}

module _ {F : Type 0} where
  abbrev pub decision_in : EventData F → Option (StoredDecision F)
  decision_in (evaluation_completed d) = some d
  decision_in _ = none

  last_evaluation_lem :
      (found : Option (StoredDecision F)) (es : List (EventData F))
      → last_evaluation found es ≡ last_or found (map some (collect decision_in es))
  unfolding last_evaluation
  last_evaluation_lem found [] = refl
  last_evaluation_lem found (evaluation_completed d ∷ es) = last_evaluation_lem (some d) es
  last_evaluation_lem found (_ ∷ es) = last_evaluation_lem found es

-- No id stands twice.
abbrev pub Apart : List ℕ → Type 0
Apart [] = Unit
Apart (i ∷ is) = All (λ j. j ≢ i) is × Apart is

others_differ : (i : ℕ) (is : List ℕ) → any (λ j. j == i) is ≡ false → All (λ j. j ≢ i) is
others_differ i [] h = tt
others_differ i (j ∷ is) h = elim (Bool-cases (j == i)) [
  | inl same ↦ absurd (cc (rw same at h))
  | inr other ↦
      (λ equal. absurd (cc ((==_iff j i).1 equal, other)), others_differ i is (rw other at h))
]

unique_ids-Apart : (is : List ℕ) → unique_ids is ≡ true → Apart is
unfolding unique_ids
unique_ids-Apart [] h = tt
unique_ids-Apart (i ∷ is) h = elim (Bool-cases (any (λ j. j == i) is)) [
  | inl twice ↦ absurd (cc (rw twice at h))
  | inr once ↦ (others_differ i is once, unique_ids-Apart is (rw once at h))
]

module _ {F : Type 0} (replacement : String) (t : Table F) where
  -- The last evaluation of a run, of which no result has a constraint that fails.
  pub record Passed (run : ℕ) : Type 0 where
    pub decision : StoredDecision F
    pub last :
        last_or none (map some (collect decision_in (map (λ e. e.event) (load t run 0 none))))
        ≡ some decision
    pub holds : All (Passes replacement) decision.hard_constraints

  pub hard_constraints-Passed :
      (found cs : List (String × Bool)) (runs : List ℕ)
      → hard_constraints replacement t found runs ≡ ok cs
      → Hold cs
      → Hold found × All Passed runs
  unfolding hard_constraints
  hard_constraints-Passed found cs [] h good =
      (subst Hold (sym (ok_same (ok found) found cs refl h)) good, tt)
  hard_constraints-Passed found cs (run ∷ runs) h good =
      elim (Option-cases (last_evaluation none (map (λ e. e.event) (load t run 0 none)))) [
        | inl missing ↦ absurd (cc (rw (hard_constraints, missing) at h))
        | inr (d, last) ↦
            let (now, rest) =
              hard_constraints-Passed (gather_results replacement found d.hard_constraints) cs runs
                (rw (hard_constraints, last) at h) good in
            let (before, here) = gather_results-Hold replacement found d.hard_constraints now in
            (
              before,
              (
                record {
                  decision = d;
                  last =
                      sym (last_evaluation_lem none (map (λ e. e.event) (load t run 0 none)))
                      ∙ last;
                  holds = here;
                },
                rest,
              ),
            )
      ]

module _ {F : Type 0} ⦃fl : Floats F⦄ where
  -- The runs of the ids, each read.
  pub Reads : Table F → List ℕ → List (RunSnapshot F) → Type 0
  Reads t = Paired (λ run snapshot. (get_run run t).0 ≡ ok snapshot)

  pub read_runs-Reads :
      (ids : List ℕ) (t t' : Table F) (runs : List (RunSnapshot F))
      → read_runs ids t ≡ (ok runs, t')
      → Reads t ids runs × (t ≡ t')
  unfolding read_runs Reads get_run
  read_runs-Reads [] t t' runs h = (
    subst (Reads t []) (ok_same (ok []) [] runs refl (ap (λ x. x.0) h)) none_left,
    ap (λ x. x.1) h,
  )
  read_runs-Reads (id ∷ ids) t t' runs h =
      let (x, got, next) = bind_returns (get_run id) _ t t' runs h in
      let (rest, more, ends) = bind_returns (read_runs ids) _ t t' runs next in
      let (read, same) =
        read_runs-Reads ids t (read_runs ids t).1 rest (ap (λ r. (r, (read_runs ids t).1)) more) in
      (
        subst (Reads t (id ∷ ids))
            (ok_same (ok (x ∷ rest)) (x ∷ rest) runs refl (ap (λ x. x.0) ends))
            (pair id x ids rest got read),
        same ∙ ap (λ x. x.1) ends,
      )

  -- The last score of each run.
  pub Scored : List (RunSnapshot F) → List F → Type 0
  Scored = Paired (λ run score. run.last_score ≡ some score)

  benchmark_scores-Scored :
      (runs : List (RunSnapshot F)) (scores : List F)
      → benchmark_scores runs ≡ ok scores
      → Scored runs scores
  unfolding benchmark_scores benchmark_score Scored
  benchmark_scores-Scored [] scores h =
      subst (Scored []) (ok_same (ok []) [] scores refl h) none_left
  benchmark_scores-Scored (run ∷ runs) scores h = elim (Option-cases run.last_score) [
    | inl missing ↦ absurd (cc (rw (benchmark_scores, missing) at h))
    | inr (score, scored) ↦ elim (Result-cases (benchmark_scores runs)) [
      | inr (e, bad) ↦ absurd (cc (rw (benchmark_scores, scored, bad) at h))
      | inl (rest, good) ↦
          subst (Scored (run ∷ runs))
            (ok_same _ (score ∷ rest) scores refl (rw (benchmark_scores, scored, good) at h))
            (pair run score runs rest scored (benchmark_scores-Scored runs rest good))
    ]
  ]

  -- `zip`
  abbrev pub zipped : List F → List F → List (F × F)
  zipped (x ∷ xs) (y ∷ ys) = (x, y) ∷ zipped xs ys
  zipped _ _ = []

  count_regressions_lem :
      (xs ys : List F) → count_regressions xs ys ≡ count (λ p. flt p.1 p.0) (zipped xs ys)
  unfolding count_regressions
  count_regressions_lem [] ys = refl
  count_regressions_lem (x ∷ xs) [] = refl
  count_regressions_lem (x ∷ xs) (y ∷ ys) = elim (Bool-cases (flt y x)) [
    | inl lower ↦ rw lower (omega (arith, count_regressions_lem xs ys))
    | inr other ↦ rw (other, count_regressions_lem xs ys) refl
  ]

  -- What the evidence has checked.
  pub record IsEvidence (calls : PromotionCalls F) (b c : ℕ) (body : PromotionRequest) (t : Table F)
      (evidence : PromotionEvidence F) : Type 0 where
    pub apart : Apart (body.baseline_run_ids ++ body.candidate_run_ids)
    pub baseline_runs : List (RunSnapshot F)
    pub candidate_runs : List (RunSnapshot F)
    pub baseline : Reads t body.baseline_run_ids baseline_runs
    pub candidate : Reads t body.candidate_run_ids candidate_runs
    pub pairs : Paired (IsComparable calls b c) baseline_runs candidate_runs
    pub constraints :
        hard_constraints calls.replacement t ([]) body.candidate_run_ids
        ≡ ok evidence.hard_constraints
    pub baseline_scores : List F
    pub candidate_scores : List F
    pub baseline_scored : Scored baseline_runs baseline_scores
    pub candidate_scored : Scored candidate_runs candidate_scores
    pub baseline_mean : evidence.baseline_score ≡ calls.fmean baseline_scores
    pub candidate_mean : evidence.candidate_score ≡ calls.fmean candidate_scores
    pub regressions :
        evidence.regressions ≡ count (λ p. flt p.1 p.0) (zipped baseline_scores candidate_scores)
    pub baseline_cost :
        evidence.baseline_cost ≡ some (calls.fmean (map (λ r. r.total_cost) baseline_runs))
    pub candidate_cost :
        evidence.candidate_cost ≡ some (calls.fmean (map (λ r. r.total_cost) candidate_runs))
    pub run_ids : evidence.benchmark_run_ids ≡ body.baseline_run_ids ++ body.candidate_run_ids

  pub evidence_of-IsEvidence :
      (calls : PromotionCalls F) (b c : ℕ) (body : PromotionRequest) (t : Table F)
      (xs ys : List (RunSnapshot F)) (evidence : PromotionEvidence F)
      → unique_ids (body.baseline_run_ids ++ body.candidate_run_ids) ≡ true
      → Reads t body.baseline_run_ids xs
      → Reads t body.candidate_run_ids ys
      → evidence_of calls b c body t xs ys ≡ ok evidence
      → IsEvidence calls b c body t evidence
  unfolding evidence_of
  evidence_of-IsEvidence calls b c body t xs ys evidence apart rx ry h =
      elim (Result-cases (validate_pairs calls b c xs ys)) [
        | inr (e, bad) ↦ absurd (cc (rw (evidence_of, bad) at h))
        | inl (_, valid) ↦
            elim (Result-cases (hard_constraints calls.replacement t ([]) body.candidate_run_ids)) [
              | inr (e, bad) ↦ absurd (cc (rw (evidence_of, valid, bad) at h))
              | inl (cs, found) ↦ elim (Result-cases (benchmark_scores xs)) [
                | inr (e, bad) ↦ absurd (cc (rw (evidence_of, valid, found, bad) at h))
                | inl (bs, first) ↦ elim (Result-cases (benchmark_scores ys)) [
                  | inr (e, bad) ↦ absurd (cc (rw (evidence_of, valid, found, first, bad) at h))
                  | inl (ds, second) ↦
                      let e =
                        ok_same _ _ evidence refl
                          (rw (evidence_of, valid, found, first, second) at h) in
                      record {
                        apart = unique_ids-Apart _ apart;
                        baseline_runs = xs;
                        candidate_runs = ys;
                        baseline = rx;
                        candidate = ry;
                        pairs = validate_pairs-Paired calls b c xs ys valid;
                        constraints = found ∙ ap (λ v. ok v.hard_constraints) e;
                        baseline_scores = bs;
                        candidate_scores = ds;
                        baseline_scored = benchmark_scores-Scored xs bs first;
                        candidate_scored = benchmark_scores-Scored ys ds second;
                        baseline_mean = ap (λ v. v.baseline_score) (sym e);
                        candidate_mean = ap (λ v. v.candidate_score) (sym e);
                        regressions = ap (λ v. v.regressions) (sym e) ∙ count_regressions_lem bs ds;
                        baseline_cost = ap (λ v. v.baseline_cost) (sym e);
                        candidate_cost = ap (λ v. v.candidate_cost) (sym e);
                        run_ids = ap (λ v. v.benchmark_run_ids) (sym e);
                      }
                ]
              ]
            ]
      ]
