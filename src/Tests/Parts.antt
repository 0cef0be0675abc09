-- ===== src/Tests/Parts.antt =====
-- The theorems on grading, memory, redaction and versions at small data.
use loopgraph_supervisor.Prelude.{
  ℕ, ◌≡◌, ◌≤◌, ◌↔◌, refl, true, false, String, none, some, List, [], ◌∷◌, order_by, All,
}
use loopgraph_supervisor.Floats.{fle}
use loopgraph_supervisor.Floats.Fixed.{thousandths}
use loopgraph_supervisor.Domain.Json.{Json, text, dict, field, end}
use loopgraph_supervisor.Domain.Models.{EvaluationResult}
use loopgraph_supervisor.Domain.Runs.{GradingPolicy}
use loopgraph_supervisor.Grading.Policy.{
  aggregate, decided, decide_results, weights_refused, weighted_score, weight,
}
use loopgraph_supervisor.Grading.Policy.Laws.{Holds, aggregate-passed_iff}
use loopgraph_supervisor.Memory.{
  Memories, MemoryRecord, MemoryStatus, ok, approved, experimental, rejected, episodic, for_context,
  set_status, selects, get,
}
use loopgraph_supervisor.Memory.Isolation.{IsVisible, for_context-IsVisible}
use loopgraph_supervisor.Memory.Review.{
  status_of, allowed, reviews, status_of-set_status, reviews-rejected,
}
use loopgraph_supervisor.Security.Redaction.{redact, redact_text}
use loopgraph_supervisor.Security.Redaction.Secrets.{IsClean, redact-IsClean, redact-redact}
use loopgraph_supervisor.Versions.Tables.{VersionStore}
use loopgraph_supervisor.Versions.Records.{VersionCalls}
use loopgraph_supervisor.Versions.{create_initial}
use loopgraph_supervisor.Versions.Consistency.{IsConsistent}
use loopgraph_supervisor.Versions.Consistency.Reachable.{
  empty, after, creates_initial, Reachable-IsConsistent,
}
use loopgraph_supervisor.Tests.Data.{demo_bundle, demo_definition, demo_result, demo_redaction}

abbrev policy : GradingPolicy ℕ
policy = demo_definition.grading_policy

abbrev results : List (EvaluationResult ℕ)
results = demo_result ∷ []

results-aggregate : aggregate policy results ≡ decided (decide_results policy results)
unfolding aggregate weights_refused weight weighted_score
results-aggregate = refl

aggregate-passed_iff_example :
    ((decide_results policy results).passed ≡ true)
    ↔ ((fle 800 (decide_results policy results).score ≡ true) × All (Holds results) ("cited" ∷ []))
aggregate-passed_iff_example =
    aggregate-passed_iff policy results (decide_results policy results) results-aggregate

abbrev memory : ℕ → MemoryStatus → MemoryRecord ℕ
memory id status = record {
  id = id;
  agent_name = "solver";
  version_id = 3;
  kind = episodic;
  content = "Cite the source.";
  status = status;
  source_run_id = none;
  tags = "style" ∷ [];
  metadata = end;
  created_at = id;
}

abbrev memories : Memories ℕ
memories = memory 1 approved ∷ memory 2 experimental ∷ memory 3 rejected ∷ []

memories-for_context : for_context memories "solver" 3 false none [] 5 ≡ ok (memory 1 approved ∷ [])
unfolding for_context order_by selects
memories-for_context = refl

for_context-IsVisible_example :
    All (IsVisible "solver" 3 false none []) (memory 1 approved ∷ []) × (1 ≤ 5)
for_context-IsVisible_example =
    for_context-IsVisible memories "solver" 3 false none [] 5 (memory 1 approved ∷ [])
      memories-for_context

status_of-set_status_example :
    status_of 3 (set_status memories 3 approved).1 ≡ allowed (status_of 3 memories) approved
status_of-set_status_example = status_of-set_status memories 3 approved 3

memory_3-rejected : status_of 3 memories ≡ some rejected
unfolding status_of get
memory_3-rejected = refl

reviews-rejected_example :
    status_of 3 (reviews memories ((3, approved) ∷ (1, rejected) ∷ [])) ≡ some rejected
reviews-rejected_example =
    reviews-rejected memories ((3, approved) ∷ (1, rejected) ∷ []) 3 memory_3-rejected

abbrev login : Json ℕ
login = dict (field "password" (text "hunter2") (field "user" (text "ada") end))

redact-IsClean_example : IsClean demo_redaction (redact demo_redaction login)
redact-IsClean_example = redact-IsClean demo_redaction login

redact_text_again :
    (s : String)
    → redact_text demo_redaction (redact_text demo_redaction s) ≡ redact_text demo_redaction s
unfolding redact_text
redact_text_again s = refl

redact-redact_example :
    redact demo_redaction (redact demo_redaction login) ≡ redact demo_redaction login
redact-redact_example = redact-redact demo_redaction redact_text_again login

abbrev calls : VersionCalls ℕ
calls = record { new_id = 11; fingerprint = λ bundle. "f" }

abbrev no_versions : VersionStore ℕ
no_versions = record { versions = []; pointers = []; history = [] }

Reachable-IsConsistent_example :
    IsConsistent (create_initial calls demo_bundle "ada" true no_versions).1
Reachable-IsConsistent_example =
    Reachable-IsConsistent (create_initial calls demo_bundle "ada" true no_versions).1
      (after empty (creates_initial calls demo_bundle "ada" true refl))
