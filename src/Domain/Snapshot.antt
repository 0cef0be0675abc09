-- ===== src/Domain/Snapshot.antt =====
-- `RunSnapshot` and its `replay` (src/loopgraph_supervisor/domain/runs.py).
pub mod Laws
pub mod Shows
pub mod Summary
use loopgraph_supervisor.Prelude.{
  ℕ, ◌+◌, ℤ, pos, ◌+ℤ◌, is_nonneg, Bool, true, false, ◌&&◌, ◌||◌, String, str_eq, Option, none,
  some, List, [], ◌∷◌, ◌++◌, contains, all, if◌then◌else◌,
}
use loopgraph_supervisor.Floats.{Floats, fle, is_unit}
use loopgraph_supervisor.Domain.Json.{Fields}
use loopgraph_supervisor.Domain.Models.{Hint, hint_fits}
use loopgraph_supervisor.Domain.Runs.{
  RunDefinition, RunStatus, created, running, evaluating, retry_scheduled, waiting_human, paused,
  succeeded, failed, cancelled,
}
use loopgraph_supervisor.Domain.Events.{
  EventData, StoredEvent, run_created, run_started, agent_event, agent_execution_completed,
  evaluation_started, evaluation_completed, hint_published, run_retry_scheduled, run_waiting_human,
  run_paused, run_resumed, run_recovered, run_succeeded, run_failed, run_cancelled,
}

pub record RunSnapshot (F : Type 0) : Type 0 where
  pub run_id : ℕ
  pub definition : RunDefinition F
  pub status : RunStatus
  pub version : ℕ
  pub attempt : ℕ
  pub last_output : Option (Fields F)
  pub last_score : Option F
  pub hints : List Hint
  pub human_override : Bool
  pub error : Option String
  pub total_steps : ℕ
  pub total_tokens : ℤ
  pub total_cost : F

-- `event.type in {"agent.step", "step/start", "dsh.step/start"}`
unfoldable pub is_step : String → Bool
is_step type = contains type ("agent.step" ∷ "step/start" ∷ "dsh.step/start" ∷ [])

module _ {F : Type 0} ⦃fl : Floats F⦄ where
  -- The `match event.type` of the loop. A hint that `Hint.model_validate` refuses is kept, and
  -- `in_bounds` refuses the snapshot.
  unfoldable pub step : RunSnapshot F → EventData F → RunSnapshot F
  step s (run_started attempt) = record s { status = running; attempt = attempt }
  step s (agent_execution_completed attempt result) = record s {
    last_output = some result.output;
    total_tokens = s.total_tokens +ℤ result.tokens;
    total_cost = fl.add s.total_cost result.cost;
  }
  step s (agent_event e) = record s {
    total_steps = if is_step e.type then s.total_steps + 1 else s.total_steps;
  }
  step s (evaluation_started attempt) = record s { status = evaluating }
  step s (evaluation_completed d) = record s { status = evaluating; last_score = some d.score }
  step s (hint_published hint) = record s { hints = s.hints ++ hint ∷ [] }
  step s (run_retry_scheduled n) = record s { status = retry_scheduled }
  step s (run_waiting_human reason) = record s { status = waiting_human }
  step s (run_paused reason) = record s { status = paused }
  step s (run_resumed actor reason n) = record s { status = retry_scheduled }
  step s (run_recovered actor status n) = record s { status = retry_scheduled }
  step s (run_succeeded human) = record s { status = succeeded; human_override = human }
  step s (run_failed reason) = record s { status = failed; error = some reason }
  step s run_cancelled = record s { status = cancelled }
  step s _ = s

  unfoldable pub steps : RunSnapshot F → List (StoredEvent F) → RunSnapshot F
  steps s [] = s
  steps s (e ∷ es) = steps (step s e.event) es

  unfoldable pub initial : StoredEvent F → RunDefinition F → ℕ → RunSnapshot F
  initial e definition version = record {
    run_id = e.run_id;
    definition = definition;
    status = created;
    version = version;
    attempt = 0;
    last_output = none;
    last_score = none;
    hints = [];
    human_override = false;
    error = none;
    total_steps = 0;
    total_tokens = pos 0;
    total_cost = fl.zero;
  }

  abbrev unit_or_none : Option F → Bool
  unit_or_none none = true
  unit_or_none (some x) = is_unit x

  -- What validation checks and the loop does not ensure: the bounds of `cls.model_validate(state)`,
  -- and those of each published hint. The source checks a hint within the loop, with
  -- `Hint.model_validate`; a refusal is the same `ValueError` there and here.
  unfoldable pub in_bounds : RunSnapshot F → Bool
  unfolding hint_fits
  in_bounds s =
      is_nonneg s.total_tokens
      && fle fl.zero s.total_cost
      && unit_or_none s.last_score
      && all hint_fits s.hints

  unfoldable pub validate : RunSnapshot F → Option (RunSnapshot F)
  validate s = if in_bounds s then some s else none

  -- `events[-1].sequence`
  unfoldable pub last_sequence : StoredEvent F → List (StoredEvent F) → ℕ
  last_sequence e [] = e.sequence
  last_sequence e (f ∷ es) = last_sequence f es

  pub replay_from : StoredEvent F → EventData F → List (StoredEvent F) → Option (RunSnapshot F)
  replay_from e (run_created definition) es =
      validate (steps (initial e definition (last_sequence e es)) es)
  replay_from e _ es = none

  -- `none`: a `ValueError`, of the stream's start or of a model's validation.
  unfoldable pub replay : List (StoredEvent F) → Option (RunSnapshot F)
  unfolding replay_from
  replay [] = none
  replay (e ∷ es) = replay_from e e.event es
