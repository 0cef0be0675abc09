-- ===== src/Api/Routes.antt =====
-- The routes of src/loopgraph_supervisor/api/app.py, without the promotion: a route is given what the
-- request's model has accepted, and returns the value that its response is made of. A memory store is
-- configured or not.
pub mod Refusals
pub mod Errors
pub mod Reviewed
use loopgraph_supervisor.Prelude.{
  ℕ, Bool, true, false, not, String, str_eq, Option, none, some, List, [], ◌∷◌, contains,
  is_missing, if◌then◌else◌,
}
use loopgraph_supervisor.Floats.{Floats}
use loopgraph_supervisor.Domain.Json.{Fields, text}
use loopgraph_supervisor.Domain.Models.{AgentBundle}
use loopgraph_supervisor.Domain.Runs.{RunDefinition, require_graders}
use loopgraph_supervisor.Domain.Events.{HumanDecision, approve, reject, retry, StoredEvent}
use loopgraph_supervisor.Domain.Snapshot.{RunSnapshot}
use loopgraph_supervisor.EventStore.{load}
use loopgraph_supervisor.Memory
use loopgraph_supervisor.Memory.{
  MemoryKind, MemoryStatus, experimental, MemoryRecord, MemoryResult, Memories, WriteCalls, write,
  set_status, for_context,
}
use loopgraph_supervisor.Versions
use loopgraph_supervisor.Versions.{create_candidate}
use loopgraph_supervisor.Versions.Tables.{AgentVersion}
use loopgraph_supervisor.Versions.Records.{VersionCalls, same_id}
use loopgraph_supervisor.Evolution.Mutator.{MutationPlan, apply}
use loopgraph_supervisor.Evolution.Mutator.Dicts.{put_field}
use loopgraph_supervisor.Engine.Exec.{
  Exception, key_error, value_error, runtime_error, concurrency_error, budget_exceeded,
  control_signal, raised, Result, ok, err, Exec, pure, raise, lift, get, ◌>>=◌, ◌>>◌,
}
use loopgraph_supervisor.Engine.Config.{Supervisor}
use loopgraph_supervisor.Engine.Runs.{create_run, get_run}
use loopgraph_supervisor.Engine.Control.{resolve_human, recover_incomplete}
use loopgraph_supervisor.Tasks.{is_active}
use loopgraph_supervisor.Actions.{mutation_result}
use loopgraph_supervisor.Runtime.{Runtime, with_table, with_versions}

-- The names of the exceptions of the program that are a `ValueError`.
abbrev pub value_errors : List String
value_errors = "DuplicateBundleError" ∷ "NoMutationError" ∷ "MemoryTransitionError" ∷ []

-- The handler of an exception's type: the status code; `none` is an exception without a handler.
unfoldable pub named_status : String → Option ℕ
named_status name =
    if str_eq name "RunAlreadyActiveError"
    then some 409
    else if str_eq name "VersionConflictError"
    then some 409
    else if str_eq name "MutationNotAllowedError"
    then some 403
    else if contains name value_errors
    then some 409
    else none

unfoldable pub error_status : {F : Type 0} → Exception F → Option ℕ
unfolding named_status
error_status key_error = some 404
error_status value_error = some 409
error_status (raised name) = named_status name
error_status _ = none

unfoldable pub memory_result : {F A : Type 0} → MemoryResult A → Result F A
memory_result (Memory.ok a) = ok a
memory_result Memory.value_error = err value_error
memory_result Memory.key_error = err key_error
memory_result Memory.transition_error = err (raised "MemoryTransitionError")

unfoldable pub with_memories :
    {F A : Type 0} → (Memories F → MemoryResult A × Memories F) → Exec F (Runtime F) A
unfolding memory_result
with_memories m s = let (r, t) = m s.memories in (memory_result r, record s { memories = t })

-- `body.decision not in {"approve", "reject", "retry"}`, and the decision.
unfoldable pub parse_decision : String → Option HumanDecision
parse_decision decision =
    if str_eq decision "approve"
    then some approve
    else if str_eq decision "reject"
    then some reject
    else if str_eq decision "retry"
    then some retry
    else none

abbrev pub is_experimental : MemoryStatus → Bool
is_experimental experimental = true
is_experimental _ = false

-- The validator of `RunCreateRequest`: whether it accepts.
unfoldable pub require_exactly_one_bundle_source :
    {A : Type 0} → (agent_version_id : Option ℕ) (agent_bundle : Option A) → Bool
require_exactly_one_bundle_source none bundle = not (is_missing bundle)
require_exactly_one_bundle_source (some id) bundle = is_missing bundle

module _ {F : Type 0} where
  -- The version of a route's path, which must be one of its agent.
  unfoldable pub version_of :
      (agent_name : String) (version_id : ℕ) → Exec F (Runtime F) (AgentVersion F)
  unfolding with_versions Versions.get
  version_of agent_name version_id = do
    version ← with_versions (λ v. (Versions.get version_id v, v))
    if not (str_eq version.agent_name agent_name) then raise value_error else pure version

  -- `create_candidate`
  unfoldable pub create_candidate_version :
      VersionCalls F
      → (agent_name : String) (parent_version_id : ℕ) (actor : String) → MutationPlan F
      → Exec F (Runtime F) (AgentVersion F)
  unfolding version_of apply mutation_result with_versions create_candidate
  create_candidate_version calls agent_name parent_version_id actor plan = do
    parent ← version_of agent_name parent_version_id
    bundle ← lift (mutation_result (apply calls.fingerprint parent.bundle plan))
    with_versions (create_candidate calls parent.id bundle actor plan.rationale)

  -- The bundle of `create_run`.
  unfoldable pub bundle_for :
      (agent_version_id : Option ℕ) → Option (AgentBundle F) → Exec F (Runtime F) (AgentBundle F)
  unfolding with_versions Versions.get
  bundle_for (some id) bundle = do
    version ← with_versions (λ v. (Versions.get id v, v))
    pure version.bundle
  bundle_for none none = raise value_error
  bundle_for none (some bundle) = pure bundle

  -- `list_memories`
  unfoldable pub list_memories :
      (configured : Bool) (agent_name : String) (version_id : ℕ) (include_experimental : Bool)
      (limit : ℕ)
      → Exec F (Runtime F) (List (MemoryRecord F))
  unfolding version_of with_memories for_context
  list_memories configured agent_name version_id include limit =
      if not configured then raise value_error else do
        version_of agent_name version_id
        with_memories (λ t. (for_context t agent_name version_id include none [] limit, t))

  -- `set_memory_status`
  unfoldable pub set_memory_status :
      (configured : Bool) (memory_id : ℕ) → MemoryStatus → Exec F (Runtime F) (MemoryRecord F)
  unfolding with_memories set_status
  set_memory_status configured memory_id status =
      if not configured
      then raise value_error
      else if is_experimental status
      then raise value_error
      else with_memories (λ t. set_status t memory_id status)

module _ {F : Type 0} ⦃fl : Floats F⦄ where
  -- The source of a memory must be a run of the version.
  unfoldable pub check_source : (version_id : ℕ) → Option ℕ → Exec F (Runtime F) (Unit {0})
  unfolding with_table same_id
  check_source version_id none = pure tt
  check_source version_id (some run) = do
    source ← with_table (get_run run)
    if not (same_id source.definition.agent_version_id (some version_id))
        then raise value_error
        else pure tt

  -- `create_memory`
  unfoldable pub create_memory :
      WriteCalls
      → (configured : Bool) (agent_name : String) (version_id : ℕ) → MemoryKind
      → (content : String) (tags : List String) (source_run_id : Option ℕ) → Fields F
      → (actor : String) → Exec F (Runtime F) (MemoryRecord F)
  unfolding version_of check_source with_memories write put_field
  create_memory calls configured agent_name version_id kind content tags source metadata actor =
      if not configured then raise value_error else do
        version_of agent_name version_id
        check_source version_id source
        with_memories λ t.
            write calls t agent_name version_id kind content experimental source tags
              (put_field "created_by" (text actor) metadata)

  -- `create_run`, with the definition that the route makes of the bundle; its validator may refuse
  -- what the request's model has accepted.
  unfoldable pub create_run_with :
      Supervisor F
      → (new_id : ℕ) (agent_version_id : Option ℕ) → Option (AgentBundle F)
      → (AgentBundle F → RunDefinition F)
      → Exec F (Runtime F) (ℕ × RunSnapshot F)
  unfolding bundle_for with_table create_run require_graders
  create_run_with s new_id agent_version_id bundle definition = do
    source ← bundle_for agent_version_id bundle
    if not (require_graders (definition source).grader_ids) then raise value_error else do
      run ← with_table (create_run s (definition source) new_id)
      snapshot ← with_table (get_run run)
      pure (run, snapshot)

  -- `recover_run`
  unfoldable pub recover_run : Supervisor F → ℕ → String → Exec F (Runtime F) (RunSnapshot F)
  unfolding with_table is_active recover_incomplete
  recover_run s run actor = do
    st ← get
    if is_active run st.tasks
        then raise (raised "RunAlreadyActiveError")
        else with_table (recover_incomplete s run actor)

  -- The route `resolve_human`.
  unfoldable pub resolve_run :
      Supervisor F → ℕ → (decision actor reason : String) → Exec F (Runtime F) (RunSnapshot F)
  unfolding parse_decision with_table resolve_human
  resolve_run s run decision actor reason = elim (parse_decision decision) [
    | none ↦ raise value_error
    | some d ↦ with_table (resolve_human s run d actor reason)
  ]

  -- `events[-1].sequence if events else after_sequence`
  unfoldable pub next_after_sequence : ℕ → List (StoredEvent F) → ℕ
  next_after_sequence after [] = after
  next_after_sequence after (e ∷ []) = e.sequence
  next_after_sequence after (e ∷ es) = next_after_sequence after es

  -- `get_events`
  unfoldable pub get_events :
      (run after_sequence limit : ℕ) → Exec F (Runtime F) (List (StoredEvent F) × ℕ)
  unfolding with_table next_after_sequence
  get_events run after limit = do
    with_table (get_run run)
    st ← get
    let events = load st.table run after (some limit)
    pure (events, next_after_sequence after events)
