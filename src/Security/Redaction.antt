-- ===== src/Security/Redaction.antt =====
-- src/loopgraph_supervisor/security/redaction.py
pub mod Secrets
use Prim.Native.String.{◌++◌ as str_append}
use loopgraph_supervisor.Prelude.{Bool, String, List, contains, if◌then◌else◌}
use loopgraph_supervisor.Domain.Json.{
  Json, null, bool, int, float, text, list, dict, Items, nil, item, Fields, end, field,
}

-- What the policy takes from Python: `str.casefold`, and `re.sub` with each of the two secret
-- patterns, the replacement first.
pub record TextRules : Type 0 where
  pub casefold : String → String
  pub sub_bearer : String → String → String
  pub sub_key : String → String → String

pub record RedactionPolicy : Type 0 where
  pub rules : TextRules
  pub sensitive_keys : List String
  pub replacement : String

unfoldable pub is_sensitive : RedactionPolicy → String → Bool
is_sensitive p key = contains (p.rules.casefold key) p.sensitive_keys

-- `redact` on a `str`: the loop over the two patterns.
unfoldable pub redact_text : RedactionPolicy → String → String
redact_text p value =
    p.rules.sub_key p.replacement (p.rules.sub_bearer (str_append "Bearer " p.replacement) value)

module _ {F : Type 0} (p : RedactionPolicy) where
  unfoldable mutual
    pub redact : Json F → Json F
    redact (text s) = text (redact_text p s)
    redact (list xs) = list (redact_items xs)
    redact (dict fs) = dict (redact_fields fs)
    redact null = null
    redact (bool b) = bool b
    redact (int n) = int n
    redact (float x) = float x

    pub redact_items : Items F → Items F
    redact_items nil = nil
    redact_items (item x xs) = item (redact x) (redact_items xs)

    pub redact_fields : Fields F → Fields F
    redact_fields end = end
    redact_fields (field key value rest) =
        field key (if is_sensitive p key then text p.replacement else redact value)
          (redact_fields rest)
