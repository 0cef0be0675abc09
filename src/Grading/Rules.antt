-- ===== src/Grading/Rules.antt =====
-- `RuleGrader` of src/loopgraph_supervisor/grading/rules.py
pub mod Judging
pub mod Passing
use loopgraph_supervisor.Prelude.{
  ℕ, Bool, true, false, not, ◌&&◌, ◌||◌, String, str_eq, Option, none, some, List, [], ◌∷◌, ◌++◌,
  map, all, is_empty, lookup, contains, if◌then◌else◌, zero, suc,
}
use loopgraph_supervisor.Floats.{Floats, flt, fle, is_unit}
use loopgraph_supervisor.Domain.Json.{Json, null, list, dict, Items, nil, item, Fields}
use loopgraph_supervisor.Domain.Models.{EvaluationResult}
use loopgraph_supervisor.Domain.Runs.{unique}
use loopgraph_supervisor.Observer.{get}
use loopgraph_supervisor.Engine.Exec.{Exception, value_error, raised, Result, ok, err}

pub data RuleOperator : Type 0 where
  equals not_equals exists not_exists has regex gt gte lt lte : RuleOperator

pub record OutputRule (F : Type 0) : Type 0 where
  pub id : String
  pub path : String
  pub operator : RuleOperator
  pub expected : Json F
  pub weight : F
  pub hard_constraint : Bool
  pub feedback : Option String

pub record RuleGrader (F : Type 0) : Type 0 where
  pub grader_id : String
  pub rules : List (OutputRule F)
  pub threshold : F

-- What Python does with texts and, for an operator, with the actual and the expected value: a
-- comparison may raise.
pub record OperatorCalls (F : Type 0) : Type 0 where
  pub split : String → List String
  pub isdigit : String → Bool
  pub to_int : String → Result F ℕ
  pub eq : Json F → Json F → Bool
  pub has : Json F → Json F → Result F Bool
  pub search : Json F → Json F → Result F Bool
  pub gt : Json F → Json F → Result F Bool
  pub gte : Json F → Json F → Result F Bool
  pub lt : Json F → Json F → Result F Bool
  pub lte : Json F → Json F → Result F Bool
  pub failure_text : OutputRule F → String

-- `outcomes`, `hard_constraints` and `feedback` of `evaluate`
pub record Outcomes : Type 0 where
  pub outcomes : List (String × Bool)
  pub hard_constraints : List (String × Bool)
  pub feedback : List String

module _ {F A B : Type 0} where
  abbrev pub and_then : Result F A → (A → Result F B) → Result F B
  and_then (ok a) f = f a
  and_then (err e) f = err e

abbrev pub is_null : {F : Type 0} → Json F → Bool
is_null null = true
is_null _ = false

abbrev pub is_existence : RuleOperator → Bool
is_existence exists = true
is_existence not_exists = true
is_existence _ = false

module _ {F : Type 0} where
  -- The validator of `OutputRule`: whether it accepts.
  unfoldable pub require_expected_value : OutputRule F → Bool
  require_expected_value rule = is_existence rule.operator || not (is_null rule.expected)

  unfoldable pub element : ℕ → Items F → Option (Json F)
  element n nil = none
  element zero (item x xs) = some x
  element (suc n) (item x xs) = element n xs

  -- One round of the loop of `_resolve`; `none` is `_MISSING`.
  unfoldable pub segment_of : OperatorCalls F → Json F → String → Result F (Option (Json F))
  unfolding get element
  segment_of calls (dict fields) segment = ok (get segment fields)
  segment_of calls (list items) segment =
      if calls.isdigit segment
      then and_then (calls.to_int segment) (λ index. ok (element index items))
      else ok none
  segment_of calls _ segment = ok none

  unfoldable pub resolve : OperatorCalls F → List String → Json F → Result F (Option (Json F))
  unfolding segment_of
  resolve calls [] current = ok (some current)
  resolve calls (segment ∷ path) current =
      and_then (segment_of calls current segment)
        λ found. elim found [ none ↦ ok none | some value ↦ resolve calls path value ]

  -- `except (TypeError, ValueError): return False`
  unfoldable pub or_false : Result F Bool → Result F Bool
  or_false (err value_error) = ok false
  or_false (err (raised type)) = if str_eq type "TypeError" then ok false else err (raised type)
  or_false r = r

  unfoldable pub compare :
      OperatorCalls F → RuleOperator → (actual expected : Json F) → Result F Bool
  compare calls equals actual expected = ok (calls.eq actual expected)
  compare calls not_equals actual expected = ok (not (calls.eq actual expected))
  compare calls has actual expected = calls.has actual expected
  compare calls regex actual expected = calls.search actual expected
  compare calls gt actual expected = calls.gt actual expected
  compare calls gte actual expected = calls.gte actual expected
  compare calls lt actual expected = calls.lt actual expected
  compare calls lte actual expected = calls.lte actual expected
  compare calls _ actual expected = ok false

  unfoldable pub matches : OperatorCalls F → OutputRule F → Option (Json F) → Result F Bool
  unfolding compare or_false
  matches calls rule actual = elim rule.operator [
    | exists ↦ elim actual [ none ↦ ok false | some value ↦ ok true ]
    | not_exists ↦ elim actual [ none ↦ ok true | some value ↦ ok false ]
    | operator ↦ elim actual [
      | none ↦ ok false
      | some value ↦ or_false (compare calls operator value rule.expected)
    ]
  ]

  -- `self._matches(rule, self._resolve(output, rule.path))`
  unfoldable pub rule_passes : OperatorCalls F → Fields F → OutputRule F → Result F Bool
  unfolding resolve matches
  rule_passes calls output rule =
      and_then (resolve calls (calls.split rule.path) (dict output)) (matches calls rule)

  -- `rule.feedback or …`
  unfoldable pub rule_feedback : OperatorCalls F → OutputRule F → String
  rule_feedback calls rule = elim rule.feedback [
    | none ↦ calls.failure_text rule
    | some text ↦ if str_eq text "" then calls.failure_text rule else text
  ]

-- `d[key] = value`: a key that is there keeps its place.
unfoldable pub put_key : String → Bool → List (String × Bool) → List (String × Bool)
put_key key value [] = (key, value) ∷ []
put_key key value ((k, v) ∷ d) =
    let rest = put_key key value d in if str_eq k key then (k, value) ∷ d else (k, v) ∷ rest

module _ {F : Type 0} where
  unfoldable pub note_outcome : OperatorCalls F → OutputRule F → Bool → Outcomes → Outcomes
  unfolding put_key rule_feedback
  note_outcome calls rule passed o = record {
    outcomes = put_key rule.id passed o.outcomes;
    hard_constraints =
        if rule.hard_constraint
        then put_key rule.id passed o.hard_constraints
        else o.hard_constraints;
    feedback = if passed then o.feedback else o.feedback ++ rule_feedback calls rule ∷ [];
  }

  -- The loop of `evaluate` over the rules.
  unfoldable pub judge :
      OperatorCalls F → Fields F → List (OutputRule F) → Outcomes → Result F Outcomes
  unfolding rule_passes note_outcome
  judge calls output [] o = ok o
  judge calls output (rule ∷ rules) o =
      and_then (rule_passes calls output rule)
        λ passed. judge calls output rules (note_outcome calls rule passed o)

  -- The weights of the rules with `outcomes[rule.id]`; every rule has an outcome by then.
  unfoldable pub passed_weights : List (String × Bool) → List (OutputRule F) → List F
  passed_weights outcomes [] = []
  passed_weights outcomes (rule ∷ rules) =
      let rest = passed_weights outcomes rules in
      elim (lookup rule.id outcomes) [
        | some true ↦ rule.weight ∷ rest
        | some false ↦ rest
        | none ↦ rest
      ]

abbrev pub no_outcomes : Outcomes
no_outcomes = record { outcomes = []; hard_constraints = []; feedback = [] }

-- `all(hard_constraints.values())`
unfoldable pub hard_passed : List (String × Bool) → Bool
hard_passed constraints = all (λ e. e.1) constraints

module _ {F : Type 0} ⦃fl : Floats F⦄ where
  -- The constructor.
  unfoldable pub new_grader : String → List (OutputRule F) → F → Result F (RuleGrader F)
  unfolding unique
  new_grader grader_id rules threshold =
      if str_eq grader_id "" || is_empty rules
      then err value_error
      else if not (is_unit threshold)
      then err value_error
      else if not (unique (map (λ rule. rule.id) rules))
      then err value_error
      else ok (record { grader_id = grader_id; rules = rules; threshold = threshold })

  unfoldable pub score_of : List (OutputRule F) → List (String × Bool) → F
  unfolding passed_weights
  score_of rules outcomes =
      fl.div (fl.sum (passed_weights outcomes rules)) (fl.sum (map (λ rule. rule.weight) rules))

  -- The result that `evaluate` builds.
  unfoldable pub result_of : RuleGrader F → Outcomes → EvaluationResult F
  unfolding score_of hard_passed
  result_of grader o =
      let score = score_of grader.rules o.outcomes in
      let hard = hard_passed o.hard_constraints in
      record {
        grader_id = grader.grader_id;
        score = score;
        passed = fle grader.threshold score && hard;
        dimensions = map (λ e. (e.0, if e.1 then fl.one else fl.zero)) o.outcomes;
        hard_constraints = o.hard_constraints;
        confidence = fl.one;
        evidence = [];
        feedback = o.feedback;
        retryable = not hard || flt score grader.threshold;
        suggested_action = none;
      }

  -- `EvaluationResult` refuses a score out of the unit interval.
  unfoldable pub evaluate :
      OperatorCalls F → RuleGrader F → Fields F → Result F (EvaluationResult F)
  unfolding judge result_of
  evaluate calls grader output =
      and_then (judge calls output grader.rules no_outcomes)
        λ o. if is_unit (result_of grader o).score then ok (result_of grader o) else err value_error
