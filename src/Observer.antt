-- ===== src/Observer.antt =====
-- `ObservationPolicy` of src/loopgraph_supervisor/application/observer.py: the deterministic triggers
-- of a review.
use loopgraph_supervisor.Prelude.{
  ℕ, pos, ◌%◌, Bool, true, false, not, ◌&&◌, ◌||◌, String, str_eq, Option, none, some, List, [],
  ◌∷◌, ◌==◌, count, contains, is_missing, if◌then◌else◌,
}
use package.text.Mathlib.Text.{find?}
use loopgraph_supervisor.Floats.{Floats}
use loopgraph_supervisor.Domain.Json.{
  Json, null, bool, int, float, text, list, dict, nil, Fields, end, field,
}
use loopgraph_supervisor.Domain.Directives.{HarnessEvent}

pub record ObservationPolicy : Type 0 where
  pub after_tool_errors : Option ℕ
  pub every_model_calls : Option ℕ
  pub on_agent_complete : Bool
  pub event_window : ℕ

-- `data.get(key)`: a dict holds a key once.
unfoldable pub get : {F : Type 0} → String → Fields F → Option (Json F)
get key end = none
get key (field k v rest) = let other = get key rest in if str_eq k key then some v else other

module _ {F : Type 0} ⦃fl : Floats F⦄ where
  -- Python's truth value.
  unfoldable pub truthy : Json F → Bool
  truthy null = false
  truthy (bool b) = b
  truthy (int (pos n)) = not (n == 0)
  truthy (int _) = true
  truthy (float x) = fl.lt x fl.zero || fl.lt fl.zero x
  truthy (text s) = not (str_eq s "")
  truthy (list nil) = false
  truthy (list _) = true
  truthy (dict end) = false
  truthy (dict _) = true

  got_true : Option (Json F) → Bool
  unfolding truthy
  got_true none = false
  got_true (some v) = truthy v

  got_text : String → Option (Json F) → Bool
  got_text wanted (some (text s)) = str_eq s wanted
  got_text wanted _ = false

  unfoldable pub is_tool_error : HarnessEvent F → Bool
  unfolding get got_true got_text
  is_tool_error e =
      not (is_missing (find? e.type "tool"))
      && (got_true (get "is_error" e.content)
          || got_text "error" (get "status" e.content)
          || got_true (get "error" e.content))

  unfoldable pub is_model_completion : HarnessEvent F → Bool
  is_model_completion e =
      contains e.type ("model.call.completed" ∷ "assistant/message" ∷ "dsh.assistant/message" ∷ [])

  -- `if period and test(current)`, and the count of such events is a multiple of the period
  unfoldable pub at_period :
      Option ℕ → (HarnessEvent F → Bool) → List (HarnessEvent F) → HarnessEvent F → Bool
  at_period none test events current = false
  at_period (some period) test events current =
      not (period == 0) && test current && (count test events % period == 0)

  unfoldable pub should_review : ObservationPolicy → List (HarnessEvent F) → HarnessEvent F → Bool
  unfolding at_period is_tool_error is_model_completion
  should_review p events current =
      at_period p.after_tool_errors is_tool_error events current
      || at_period p.every_model_calls is_model_completion events current
      || p.on_agent_complete
        && contains current.type ("agent.completed" ∷ "turn/end" ∷ "dsh.turn/end" ∷ [])
