-- ===== src/Evolution/Mutator/Dicts.antt =====
-- Python's dicts, as the mutator of src/loopgraph_supervisor/evolution/mutator.py uses them, and its
-- `_deep_merge`.
use loopgraph_supervisor.Prelude.{
  not, String, str_eq, Option, some, List, [], ◌∷◌, contains, keep, if◌then◌else◌,
}
use loopgraph_supervisor.Domain.Json.{Json, dict, Fields, end, field}
use loopgraph_supervisor.Observer.{get}

module _ {V : Type 0} where
  -- `for name in names: d.pop(name, None)`
  unfoldable pub pop : List String → List (String × V) → List (String × V)
  pop names d = keep (λ e. not (contains e.0 names)) d

  -- `d[key] = value`: a key that is there keeps its place.
  unfoldable pub put : String → V → List (String × V) → List (String × V)
  put key value [] = (key, value) ∷ []
  put key value ((k, v) ∷ d) =
      let rest = put key value d in if str_eq k key then (k, value) ∷ d else (k, v) ∷ rest

  -- `d.update(other)`
  unfoldable pub update : List (String × V) → List (String × V) → List (String × V)
  unfolding put
  update d [] = d
  update d ((key, value) ∷ other) = update (put key value d) other

module _ {F : Type 0} where
  -- `merged[key] = value`
  unfoldable pub put_field : String → Json F → Fields F → Fields F
  put_field key value end = field key value end
  put_field key value (field k v d) =
      let rest = put_field key value d in if str_eq k key then field k value d else field k v rest

  -- The loop over the items of the patch. A value is merged where both sides are dicts.
  unfoldable mutual
    unfolding get put_field

    pub deep_merge : Fields F → Fields F → Fields F
    deep_merge merged end = merged
    deep_merge merged (field key value patch) =
        deep_merge (put_field key (merge_value (get key merged) value) merged) patch

    pub merge_value : Option (Json F) → Json F → Json F
    merge_value (some (dict old)) (dict new) = dict (deep_merge old new)
    merge_value old value = value
