-- ===== src/Api/Promotion.antt =====
-- The route that promotes a candidate, `promote_version` of src/loopgraph_supervisor/api/app.py, and
-- the evidence that it derives from benchmark runs.
pub mod Evidence
pub mod Guards
pub mod Promoting
use loopgraph_supervisor.Prelude.{
  ℕ, ◌+◌, Bool, true, false, not, ◌&&◌, ◌||◌, String, str_eq, Option, none, some, List, [], ◌∷◌,
  ◌++◌, map, any, count, length, lookup, ◌==◌, is_empty, if◌then◌else◌,
}
use loopgraph_supervisor.Floats.{Floats, flt}
use loopgraph_supervisor.Domain.Json.{Fields}
use loopgraph_supervisor.Domain.Runs.{RunStatus, succeeded, failed, GradingPolicy}
use loopgraph_supervisor.Domain.Events.{EventData, evaluation_completed, StoredDecision}
use loopgraph_supervisor.Domain.Snapshot.{RunSnapshot}
use loopgraph_supervisor.EventStore.{Table, load}
use loopgraph_supervisor.Engine.Exec.{
  Exception, value_error, Result, ok, err, Exec, pure, raise, lift, get, ◌>>=◌, ◌>>◌,
}
use loopgraph_supervisor.Engine.Runs.{get_run}
use loopgraph_supervisor.Versions
use loopgraph_supervisor.Versions.{promote}
use loopgraph_supervisor.Versions.Tables.{AgentVersion}
use loopgraph_supervisor.Versions.Records.{same_id}
use loopgraph_supervisor.Evolution.Mutator.Dicts.{put}
use loopgraph_supervisor.Evolution.Promotion.{
  PromotionEvidence, PromotionDecision, PromotionPolicy, evaluate,
}
use loopgraph_supervisor.Runtime.{Runtime, with_table, with_versions}

pub record PromotionRequest : Type 0 where
  pub expected_active_id : Option ℕ
  pub actor : String
  pub reason : String
  pub baseline_run_ids : List ℕ
  pub candidate_run_ids : List ℕ

-- What the route calls: `fmean`, `round(a - b, 12)`, the models' `==` and `model_dump`, and the text
-- that redaction puts for a value.
pub record PromotionCalls (F : Type 0) : Type 0 where
  pub fmean : List F → F
  pub rounded_difference : F → F → F
  pub same_policy : GradingPolicy F → GradingPolicy F → Bool
  pub summary : PromotionEvidence F → PromotionDecision F → Fields F
  pub replacement : String

abbrev pub is_finished : RunStatus → Bool
is_finished succeeded = true
is_finished failed = true
is_finished _ = false

-- `==` of two tuples of texts.
abbrev pub same_texts : List String → List String → Bool
same_texts [] [] = true
same_texts (x ∷ xs) (y ∷ ys) = str_eq x y && same_texts xs ys
same_texts _ _ = false

-- `len(set(all_ids)) == len(all_ids)`
unfoldable pub unique_ids : List ℕ → Bool
unique_ids [] = true
unique_ids (i ∷ is) = not (any (λ j. j == i) is) && unique_ids is

module _ {F : Type 0} where
  -- `_validate_benchmark_run`
  unfoldable pub validate_benchmark_run : RunSnapshot F → ℕ → Result F (Unit {0})
  unfolding same_id
  validate_benchmark_run run expected =
      if not (same_id run.definition.agent_version_id (some expected))
      then err value_error
      else if not (is_finished run.status)
      then err value_error
      else elim run.last_score [
        | none ↦ err value_error
        | some score ↦ if run.human_override then err value_error else ok tt
      ]

  -- `_benchmark_score`
  unfoldable pub benchmark_score : RunSnapshot F → Result F F
  benchmark_score run = elim run.last_score [ none ↦ err value_error | some score ↦ ok score ]

  unfoldable pub benchmark_scores : List (RunSnapshot F) → Result F (List F)
  unfolding benchmark_score
  benchmark_scores [] = ok []
  benchmark_scores (run ∷ runs) = elim (benchmark_score run) [
    | err e ↦ err e
    | ok score ↦ elim (benchmark_scores runs) [ err e ↦ err e | ok scores ↦ ok (score ∷ scores) ]
  ]

  -- The checks of the loop over the pairs, after the two of `_validate_benchmark_run`.
  unfoldable pub comparable : PromotionCalls F → RunSnapshot F → RunSnapshot F → Bool
  comparable calls baseline candidate =
      str_eq baseline.definition.goal candidate.definition.goal
      && same_texts baseline.definition.grader_ids candidate.definition.grader_ids
      && calls.same_policy baseline.definition.grading_policy candidate.definition.grading_policy

  unfoldable pub validate_pair :
      PromotionCalls F
      → (baseline_version candidate_version : ℕ) → RunSnapshot F
      → RunSnapshot F
      → Result F (Unit {0})
  unfolding validate_benchmark_run comparable
  validate_pair calls baseline_version candidate_version baseline candidate =
      elim (validate_benchmark_run baseline baseline_version) [
        | err e ↦ err e
        | ok _ ↦ elim (validate_benchmark_run candidate candidate_version) [
          | err e ↦ err e
          | ok _ ↦ if comparable calls baseline candidate then ok tt else err value_error
        ]
      ]

  -- The loop; `zip(strict=True)` raises where the lengths differ.
  unfoldable pub validate_pairs :
      PromotionCalls F
      → (baseline_version candidate_version : ℕ) → List (RunSnapshot F)
      → List (RunSnapshot F)
      → Result F (Unit {0})
  unfolding validate_pair
  validate_pairs calls b c [] [] = ok tt
  validate_pairs calls b c (x ∷ xs) (y ∷ ys) = elim (validate_pair calls b c x y) [
    | err e ↦ err e
    | ok _ ↦ validate_pairs calls b c xs ys
  ]
  validate_pairs calls b c _ _ = err value_error

  -- `completed[-1]`, of the events whose type is `evaluation.completed`.
  unfoldable pub last_evaluation :
      Option (StoredDecision F) → List (EventData F) → Option (StoredDecision F)
  last_evaluation found [] = found
  last_evaluation found (evaluation_completed d ∷ es) = last_evaluation (some d) es
  last_evaluation found (_ ∷ es) = last_evaluation found es

-- `bool(passed)`: a value that redaction has replaced is a text.
abbrev pub is_passed : String → Option Bool → Bool
is_passed replacement none = not (str_eq replacement "")
is_passed replacement (some passed) = passed

abbrev pub or_true : Option Bool → Bool
or_true none = true
or_true (some b) = b

-- `hard_constraints[name] = hard_constraints.get(name, True) and bool(passed)`, for the constraints
-- of a result, and of each result.
unfoldable pub gather_constraints :
    String → List (String × Bool) → List (String × Option Bool) → List (String × Bool)
unfolding put
gather_constraints replacement found [] = found
gather_constraints replacement found ((name, passed) ∷ rest) =
    gather_constraints replacement
      (put name (or_true (lookup name found) && is_passed replacement passed) found) rest

unfoldable pub gather_results :
    String → List (String × Bool) → List (List (String × Option Bool)) → List (String × Bool)
unfolding gather_constraints
gather_results replacement found [] = found
gather_results replacement found (result ∷ results) =
    gather_results replacement (gather_constraints replacement found result) results

module _ {F : Type 0} where
  -- The loop over the candidate's runs.
  unfoldable pub hard_constraints :
      String → Table F → List (String × Bool) → List ℕ → Result F (List (String × Bool))
  unfolding last_evaluation gather_results
  hard_constraints replacement t found [] = ok found
  hard_constraints replacement t found (run ∷ runs) =
      elim (last_evaluation none (map (λ e. e.event) (load t run 0 none))) [
        | none ↦ err value_error
        | some d ↦
            hard_constraints replacement t (gather_results replacement found d.hard_constraints)
              runs
      ]

  -- `sum(candidate < baseline for …)`
  unfoldable pub count_regressions : ⦃fl : Floats F⦄ → List F → List F → ℕ
  count_regressions (b ∷ bs) (c ∷ cs) =
      let rest = count_regressions bs cs in if flt c b then 1 + rest else rest
  count_regressions _ _ = 0

module _ {F : Type 0} ⦃fl : Floats F⦄ where
  -- The runs, in the order of their ids.
  unfoldable pub read_runs : List ℕ → Exec F (Table F) (List (RunSnapshot F))
  read_runs [] = pure []
  read_runs (run ∷ runs) = do snapshot ← get_run run; rest ← read_runs runs; pure (snapshot ∷ rest)

  -- What follows the reads. The range checks of `PromotionEvidence` accept the means of the scores
  -- and the costs of snapshots.
  unfoldable pub evidence_of :
      PromotionCalls F
      → (baseline_version candidate_version : ℕ) → PromotionRequest
      → Table F
      → List (RunSnapshot F)
      → List (RunSnapshot F)
      → Result F (PromotionEvidence F)
  unfolding validate_pairs hard_constraints benchmark_scores count_regressions
  evidence_of calls b c body t baseline_runs candidate_runs =
      elim (validate_pairs calls b c baseline_runs candidate_runs) [
        | err e ↦ err e
        | ok _ ↦ elim (hard_constraints calls.replacement t ([]) body.candidate_run_ids) [
          | err e ↦ err e
          | ok constraints ↦ elim (benchmark_scores baseline_runs) [
            | err e ↦ err e
            | ok baseline_scores ↦ elim (benchmark_scores candidate_runs) [
              | err e ↦ err e
              | ok candidate_scores ↦ ok (record {
                baseline_score = calls.fmean baseline_scores;
                candidate_score = calls.fmean candidate_scores;
                regressions = count_regressions baseline_scores candidate_scores;
                hard_constraints = constraints;
                benchmark_run_ids = body.baseline_run_ids ++ body.candidate_run_ids;
                baseline_cost = some (calls.fmean (map (λ r. r.total_cost) baseline_runs));
                candidate_cost = some (calls.fmean (map (λ r. r.total_cost) candidate_runs));
              })
            ]
          ]
        ]
      ]

  -- `_derive_promotion_evidence`
  unfoldable pub derive_promotion_evidence :
      PromotionCalls F
      → (candidate_version : ℕ) → PromotionRequest
      → Option ℕ
      → Exec F (Table F) (PromotionEvidence F)
  unfolding unique_ids read_runs evidence_of
  derive_promotion_evidence calls c body none = raise value_error
  derive_promotion_evidence calls c body (some b) =
      if not (length body.baseline_run_ids == length body.candidate_run_ids)
      then raise value_error
      else if not (unique_ids (body.baseline_run_ids ++ body.candidate_run_ids))
      then raise value_error
      else do
        baseline_runs ← read_runs body.baseline_run_ids
        candidate_runs ← read_runs body.candidate_run_ids
        t ← get
        lift (evidence_of calls b c body t baseline_runs candidate_runs)

  -- The end of the route.
  unfoldable pub promote_on :
      PromotionCalls F
      → PromotionPolicy F
      → (version_id : ℕ) → PromotionRequest
      → PromotionEvidence F
      → Exec F (Runtime F) (AgentVersion F)
  unfolding evaluate with_versions promote
  promote_on calls policy version_id body evidence =
      let decision = evaluate calls.rounded_difference policy evidence in
      if not decision.passed
      then raise value_error
      else with_versions (
          promote version_id body.expected_active_id body.actor body.reason
            (calls.summary evidence decision))

  -- `promote_version`
  unfoldable pub promote_version :
      PromotionCalls F
      → PromotionPolicy F
      → (agent_name : String) (version_id : ℕ) → PromotionRequest
      → Exec F (Runtime F) (AgentVersion F)
  unfolding with_versions with_table Versions.get derive_promotion_evidence promote_on
  promote_version calls policy agent_name version_id body = do
    candidate ← with_versions (λ v. (Versions.get version_id v, v))
    if not (str_eq candidate.agent_name agent_name) then raise value_error else do
      evidence ←
          with_table (derive_promotion_evidence calls version_id body body.expected_active_id)
      promote_on calls policy version_id body evidence
