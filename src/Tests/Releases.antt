-- ===== src/Tests/Releases.antt =====
-- The theorems on the version store at a release and its rollback.
use loopgraph_supervisor.Prelude.{ℕ, ◌||◌, ◌≡◌, refl, true, none, some, [], lookup}
use loopgraph_supervisor.Domain.Json.{end}
use loopgraph_supervisor.Domain.Models.{AgentBundle}
use loopgraph_supervisor.Versions.Tables.{
  VersionStatus, candidate, active, superseded, AgentVersion, VersionStore, find_version, is_status,
}
use loopgraph_supervisor.Versions.Records.{
  VersionCalls, ok, versions_for_agent, new_record, greatest, add_history, same_id, supersede,
  move_pointer,
}
use loopgraph_supervisor.Versions.{
  create_initial, candidate_of, create_candidate, promote_record, promote, rollback, get_active,
}
use loopgraph_supervisor.Versions.Consistency.{IsConsistent}
use loopgraph_supervisor.Versions.Consistency.Reachable.{
  Reachable, empty, after, creates_initial, creates_candidate, promotes, Reachable-IsConsistent,
}
use loopgraph_supervisor.Versions.Activation.{promote-get_active, rollback-get_active}
use loopgraph_supervisor.Tests.Data.{demo_bundle}

abbrev calls : ℕ → VersionCalls ℕ
calls id = record { new_id = id; fingerprint = λ bundle. bundle.system_prompt }

abbrev second_bundle : AgentBundle ℕ
second_bundle = record demo_bundle { system_prompt = "Solve the task and cite." }

abbrev no_versions : VersionStore ℕ
no_versions = record { versions = []; pointers = []; history = [] }

abbrev first_release : VersionStore ℕ
first_release = (create_initial (calls 11) demo_bundle "ada" true no_versions).1

abbrev proposed : VersionStore ℕ
proposed = (create_candidate (calls 12) 11 second_bundle "ada" "cite" first_release).1

abbrev second_release : VersionStore ℕ
second_release = (promote 12 (some 11) "ada" "better" end proposed).1

abbrev version_row : ℕ → ℕ → VersionStatus → AgentVersion ℕ
version_row id number status = record {
  id = id;
  agent_name = "solver";
  version = number;
  parent_id = none;
  bundle = demo_bundle;
  fingerprint = demo_bundle.system_prompt;
  status = status;
  created_by = "ada";
  change_summary = "Initial version";
  evaluation_summary = end;
}

abbrev second_row : VersionStatus → AgentVersion ℕ
second_row status = record (version_row 12 2 status) {
  parent_id = some 11;
  bundle = second_bundle;
  fingerprint = second_bundle.system_prompt;
  change_summary = "cite";
}

proposed-Reachable : Reachable proposed
unfolding create_initial new_record versions_for_agent add_history
proposed-Reachable =
    after (after empty (creates_initial (calls 11) demo_bundle "ada" true refl))
      (creates_candidate (calls 12) 11 second_bundle "ada" "cite" refl)

found_second : find_version 12 proposed.versions ≡ some (second_row candidate)
unfolding create_initial new_record versions_for_agent add_history create_candidate candidate_of
    greatest
found_second = refl

knows_first : same_id (lookup "solver" proposed.pointers) (some 11) ≡ true
unfolding create_initial new_record versions_for_agent add_history create_candidate candidate_of
    greatest same_id
knows_first = refl

is_candidate : is_status candidate candidate ≡ true
unfolding is_status
is_candidate = refl

promote-get_active_example :
    ((promote 12 (some 11) "ada" "better" end proposed).0 ≡ ok (second_row active))
    × (get_active "solver" second_release ≡ ok (second_row active))
promote-get_active_example =
    promote-get_active 12 (some 11) "ada" "better" end proposed (second_row candidate)
      (Reachable-IsConsistent proposed proposed-Reachable) found_second is_candidate knows_first

second_release-IsConsistent : IsConsistent second_release
second_release-IsConsistent =
    Reachable-IsConsistent second_release
      (after proposed-Reachable (promotes 12 (some 11) "ada" "better" end))

found_first : find_version 11 second_release.versions ≡ some (version_row 11 1 superseded)
unfolding create_initial new_record versions_for_agent add_history create_candidate candidate_of
    greatest promote promote_record same_id supersede move_pointer is_status
found_first = refl

points_second : lookup "solver" second_release.pointers ≡ some 12
unfolding create_initial new_record versions_for_agent add_history create_candidate candidate_of
    greatest promote promote_record same_id supersede move_pointer is_status
points_second = refl

was_active : (is_status superseded superseded || is_status active superseded) ≡ true
unfolding is_status
was_active = refl

rollback-get_active_example :
    ((rollback "solver" 11 12 "ada" "worse" second_release).0 ≡ ok (version_row 11 1 active))
    × (get_active "solver" (rollback "solver" 11 12 "ada" "worse" second_release).1
        ≡ ok (version_row 11 1 active))
rollback-get_active_example =
    rollback-get_active 11 12 "ada" "worse" second_release (version_row 11 1 superseded)
      second_release-IsConsistent found_first was_active points_second refl
