-- ===== src/Evolution/Mutator/Merge.antt =====
-- `_deep_merge` of src/loopgraph_supervisor/evolution/mutator.py, key by key.
use loopgraph_supervisor.Prelude.{
  ◌≡◌, refl, ◌∙◌, true, String, str_eq, eq_iff, Option, none, some, if◌then◌else◌, arith,
  Bool-cases, inl, inr,
}
use loopgraph_supervisor.Domain.Json.{Json, dict, Fields, end, field}
use loopgraph_supervisor.Observer.{get}
use loopgraph_supervisor.Evolution.Mutator.Dicts.{put_field, deep_merge, merge_value}

str_eq_refl : (s : String) → str_eq s s ≡ true
str_eq_refl s = (eq_iff s s).1 refl

module _ {F : Type 0} where
  pub get-put_field :
      (key j : String) (value : Json F) (d : Fields F)
      → get j (put_field key value d) ≡ (if str_eq key j then some value else get j d)
  unfolding get put_field
  get-put_field key j value end = refl
  get-put_field key j value (field k v d) =
      ground (arith, eq_iff key j, eq_iff k key, eq_iff k j, get-put_field key j value d)

  -- A dict has each key once.
  unfoldable pub HasUniqueKeys : Fields F → Type 0
  HasUniqueKeys end = Unit
  HasUniqueKeys (field key value d) = (get key d ≡ none) × HasUniqueKeys d

  -- What a patch makes of the value under a key.
  abbrev pub patched : Option (Json F) → Option (Json F) → Option (Json F)
  patched old none = old
  patched (some (dict old)) (some (dict new)) = some (dict (deep_merge old new))
  patched old (some value) = some value

  merge_value-patched :
      (old : Option (Json F)) (value : Json F)
      → some (merge_value old value) ≡ patched old (some value)
  unfolding merge_value
  merge_value-patched (some (dict old)) (dict new) = refl
  merge_value-patched (some (dict old)) _ = refl
  merge_value-patched _ _ = refl

  get-deep_merge_lem :
      (patch : Fields F) (j : String) (base : Fields F)
      → HasUniqueKeys patch
      → get j (deep_merge base patch) ≡ patched (get j base) (get j patch)
  unfolding get deep_merge HasUniqueKeys
  get-deep_merge_lem end j base u = refl
  get-deep_merge_lem (field key value patch) j base u =
      let value' = merge_value (get key base) value in
      get-deep_merge_lem patch j (put_field key value' base) u.1
      ∙ elim (Bool-cases (str_eq key j)) [
        | inl same ↦ rw (← (eq_iff key j).0 same) (
            rw (get-put_field key key value' base, str_eq_refl key, u.0)
              (merge_value-patched (get key base) value))
        | inr other ↦ rw (get-put_field key j value' base, other) refl
      ]

  -- If the patch has each key once, the merged dict has under each key: the value of the base where
  -- the patch has none; the two dicts merged, where both sides have dicts; and otherwise the value of
  -- the patch.
  pub get-deep_merge :
      (base patch : Fields F) (j : String)
      → HasUniqueKeys patch
      → get j (deep_merge base patch) ≡ patched (get j base) (get j patch)
  get-deep_merge base patch j u = get-deep_merge_lem patch j base u
