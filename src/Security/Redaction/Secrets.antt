-- ===== src/Security/Redaction/Secrets.antt =====
-- What `RedactionPolicy.redact` leaves of a value: src/loopgraph_supervisor/security/redaction.py
use loopgraph_supervisor.Prelude.{◌≡◌, refl, ap, Bool, true, false, String, if◌then◌else◌}
use loopgraph_supervisor.Domain.Json.{
  Json, null, bool, int, float, text, list, dict, Items, nil, item, Fields, end, field,
}
use loopgraph_supervisor.Security.Redaction.{
  RedactionPolicy, is_sensitive, redact_text, redact, redact_items, redact_fields,
}

abbrev pub Selected : Bool → Type 0 → Type 0 → Type 0
Selected true P Q = P
Selected false P Q = Q

module _ {F : Type 0} (p : RedactionPolicy) where
  -- No text but what the patterns leave of one, and nothing but the replacement under a sensitive
  -- key, however deep.
  unfoldable mutual
    pub IsClean : Json F → Type 0
    IsClean (text s) = (t : String) × (s ≡ redact_text p t)
    IsClean (list xs) = IsCleanList xs
    IsClean (dict fs) = IsCleanDict fs
    IsClean null = Unit
    IsClean (bool b) = Unit
    IsClean (int n) = Unit
    IsClean (float x) = Unit

    pub IsCleanList : Items F → Type 0
    IsCleanList nil = Unit
    IsCleanList (item x xs) = IsClean x × IsCleanList xs

    pub IsCleanDict : Fields F → Type 0
    IsCleanDict end = Unit
    IsCleanDict (field key value rest) =
        Selected (is_sensitive p key) (value ≡ text p.replacement) (IsClean value)
        × IsCleanDict rest

  hidden_field :
      (b : Bool) (value : Json F)
      → IsClean (redact p value)
      → Selected b
          ((if b then text p.replacement else redact p value) ≡ text p.replacement)
          (IsClean (if b then text p.replacement else redact p value))
  hidden_field true value h = refl
  hidden_field false value h = h

  mutual
    unfolding redact redact_items redact_fields IsClean IsCleanList IsCleanDict

    clean : (x : Json F) → IsClean (redact p x)
    clean (text s) = (s, refl)
    clean (list xs) = clean_items xs
    clean (dict fs) = clean_fields fs
    clean null = tt
    clean (bool b) = tt
    clean (int n) = tt
    clean (float x) = tt

    clean_items : (xs : Items F) → IsCleanList (redact_items p xs)
    clean_items nil = tt
    clean_items (item x xs) = (clean x, clean_items xs)

    clean_fields : (fs : Fields F) → IsCleanDict (redact_fields p fs)
    clean_fields end = tt
    clean_fields (field key value rest) =
        (hidden_field (is_sensitive p key) value (clean value), clean_fields rest)

  -- What is redacted is clean: under a key that casefolds to a sensitive one stands the
  -- replacement, and every other text is a result of the patterns, at any depth.
  pub redact-IsClean : (x : Json F) → IsClean (redact p x)
  redact-IsClean x = clean x

module _ {F : Type 0} (p : RedactionPolicy)
    (again : (s : String) → redact_text p (redact_text p s) ≡ redact_text p s) where
  same_field :
      (b : Bool) (value : Json F)
      → redact p (redact p value) ≡ redact p value
      → (if b
          then text p.replacement
          else redact p (if b then text p.replacement else redact p value))
        ≡ (if b then text p.replacement else redact p value)
  same_field true value h = refl
  same_field false value h = h

  mutual
    unfolding redact redact_items redact_fields

    again_value : (x : Json F) → redact p (redact p x) ≡ redact p x
    again_value (text s) = ap text (again s)
    again_value (list xs) = ap list (again_items xs)
    again_value (dict fs) = ap dict (again_fields fs)
    again_value null = refl
    again_value (bool b) = refl
    again_value (int n) = refl
    again_value (float x) = refl

    again_items : (xs : Items F) → redact_items p (redact_items p xs) ≡ redact_items p xs
    again_items nil = refl
    again_items (item x xs) = rw (again_value x, again_items xs) refl

    again_fields : (fs : Fields F) → redact_fields p (redact_fields p fs) ≡ redact_fields p fs
    again_fields end = refl
    again_fields (field key value rest) =
        rw (same_field (is_sensitive p key) value (again_value value), again_fields rest) refl

  -- If redacting a text twice is redacting it once, then so it is for every value, fields with
  -- sensitive keys included.
  pub redact-redact : (x : Json F) → redact p (redact p x) ≡ redact p x
  redact-redact x = again_value x
