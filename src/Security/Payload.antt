-- ===== src/Security/Payload.antt =====
-- `redaction_policy.redact(event.data)` of src/loopgraph_supervisor/application/engine.py on an
-- event's data: the free texts and the dicts whose keys a caller chooses. The field names that the
-- program writes itself are taken not to be sensitive, as with the default keys.
use loopgraph_supervisor.Prelude.{
  Bool, not, ◌&&◌, String, Option, none, some, List, [], ◌∷◌, map, any, if◌then◌else◌,
}
use loopgraph_supervisor.Domain.Json.{Fields}
use loopgraph_supervisor.Domain.Models.{AgentBundle, Hint}
use loopgraph_supervisor.Domain.Directives.{
  HarnessEvent, ExecutionResult, HintDraft, SupervisorDirective,
}
use loopgraph_supervisor.Domain.Runs.{RunDefinition, GradingPolicy, require_graders, texts_fit}
use loopgraph_supervisor.Domain.Events.{
  EventData, StoredDecision, TeamMember, run_created, run_created_invalid, agent_event,
  agent_execution_completed, evaluation_completed, grader_failed, hint_published,
  supervisor_reviewed, supervisor_action_requested, run_waiting_human, run_pause_requested,
  run_paused, run_resumed, run_recovered, run_failed, hitl_resolved, team_created,
  team_member_spawn_requested, team_member_spawned,
}
use loopgraph_supervisor.Security.Redaction.{
  RedactionPolicy, is_sensitive, redact_text, redact_fields,
}

module _ (p : RedactionPolicy) where
  redact_dict : List (String × String) → List (String × String)
  redact_dict [] = []
  redact_dict ((k, v) ∷ d) =
      (k, if is_sensitive p k then p.replacement else redact_text p v) ∷ redact_dict d

  redact_hint : Hint → Hint
  redact_hint h = record h {
    target = redact_text p h.target;
    instruction = redact_text p h.instruction;
    reason = redact_text p h.reason;
    evidence = map (redact_text p) h.evidence;
    deduplication_key = redact_text p h.deduplication_key;
  }

  redact_draft : HintDraft → HintDraft
  redact_draft h = record h {
    target = redact_text p h.target;
    instruction = redact_text p h.instruction;
    reason = redact_text p h.reason;
    evidence = map (redact_text p) h.evidence;
    deduplication_key = redact_text p h.deduplication_key;
  }

  -- A sensitive name of a constraint has its value replaced by a text.
  redact_constraints : List (String × Option Bool) → List (String × Option Bool)
  redact_constraints [] = []
  redact_constraints ((k, v) ∷ d) = (k, if is_sensitive p k then none else v) ∷ redact_constraints d

  redact_checkpoint : Option String → Option String
  redact_checkpoint none = none
  redact_checkpoint (some checkpoint) = some (redact_text p checkpoint)

  redact_member : TeamMember → TeamMember
  redact_member m = record m {
    role = redact_text p m.role;
    goal = redact_text p m.goal;
    status = redact_text p m.status;
  }

module _ {F : Type 0} (p : RedactionPolicy) where
  redact_servers : List (String × Fields F) → List (String × Fields F)
  redact_servers [] = []
  redact_servers ((k, v) ∷ d) = (k, redact_fields p v) ∷ redact_servers d

  redact_bundle : AgentBundle F → AgentBundle F
  redact_bundle b = record b {
    name = redact_text p b.name;
    system_prompt = redact_text p b.system_prompt;
    skills = redact_dict p b.skills;
    mcp_servers = redact_servers b.mcp_servers;
    tool_policy = redact_fields p b.tool_policy;
    model_config_data = redact_fields p b.model_config_data;
    context_config = redact_fields p b.context_config;
    memory_config = redact_fields p b.memory_config;
    workflow_config = redact_fields p b.workflow_config;
  }

  redact_grading : GradingPolicy F → GradingPolicy F
  redact_grading g = record g { required_constraints = map (redact_text p) g.required_constraints }

  unfoldable pub redact_definition : RunDefinition F → RunDefinition F
  unfolding redact_bundle redact_grading redact_dict redact_servers
  redact_definition d = record d {
    goal = redact_text p d.goal;
    harness_id = redact_text p d.harness_id;
    agent_bundle = redact_bundle d.agent_bundle;
    grader_ids = map (redact_text p) d.grader_ids;
    grading_policy = redact_grading d.grading_policy;
    role = redact_text p d.role;
    metadata = redact_fields p d.metadata;
  }

  -- Whether the redacted dump of a definition still passes `RunDefinition.model_validate`: a
  -- sensitive name of a grader weight or of an MCP server has a text for its value, redacted grader
  -- ids may coincide, and a redacted text may be longer than its field allows. The replacement is
  -- taken to be no number.
  unfoldable pub stays_valid : RunDefinition F → Bool
  unfolding redact_definition texts_fit
  stays_valid d =
      not (any (λ w. is_sensitive p w.0) d.grading_policy.grader_weights)
      && not (any (λ s. is_sensitive p s.0) d.agent_bundle.mcp_servers)
      && require_graders (map (redact_text p) d.grader_ids)
      && texts_fit (redact_definition d)

  redact_harness_event : HarnessEvent F → HarnessEvent F
  redact_harness_event e = record {
    type = redact_text p e.type;
    content = redact_fields p e.content;
  }

  redact_result : ExecutionResult F → ExecutionResult F
  redact_result r = record r {
    session_id = redact_text p r.session_id;
    output = redact_fields p r.output;
    artifacts = redact_dict p r.artifacts;
    checkpoint = redact_checkpoint p r.checkpoint;
  }

  redact_directive : SupervisorDirective F → SupervisorDirective F
  redact_directive d = record d {
    rationale = redact_text p d.rationale;
    hints = map (redact_draft p) d.hints;
    payload = redact_fields p d.payload;
  }

  redact_decision : StoredDecision F → StoredDecision F
  redact_decision d = record d {
    failed_constraints = map (redact_text p) d.failed_constraints;
    hard_constraints = map (redact_constraints p) d.hard_constraints;
  }

  unfoldable pub redact_event : EventData F → EventData F
  unfolding redact_definition redact_harness_event redact_result redact_decision redact_directive
      redact_hint redact_draft redact_checkpoint redact_constraints redact_member
  redact_event (run_created d) =
      if stays_valid d then run_created (redact_definition d) else run_created_invalid
  redact_event (agent_event e) = agent_event (redact_harness_event e)
  redact_event (agent_execution_completed n r) = agent_execution_completed n (redact_result r)
  redact_event (evaluation_completed d) = evaluation_completed (redact_decision d)
  redact_event (grader_failed id e) = grader_failed (redact_text p id) e
  redact_event (hint_published h) = hint_published (redact_hint p h)
  redact_event (supervisor_reviewed d) = supervisor_reviewed (redact_directive d)
  redact_event (supervisor_action_requested d) = supervisor_action_requested (redact_directive d)
  redact_event (run_waiting_human r) = run_waiting_human (redact_text p r)
  redact_event (run_pause_requested a r s) =
      run_pause_requested (redact_text p a) (redact_text p r) s
  redact_event (run_paused r) = run_paused (redact_text p r)
  redact_event (run_resumed a r n) = run_resumed (redact_text p a) (redact_text p r) n
  redact_event (run_recovered a s n) = run_recovered (redact_text p a) s n
  redact_event (run_failed r) = run_failed (redact_text p r)
  redact_event (hitl_resolved d a r) = hitl_resolved d (redact_text p a) (redact_text p r)
  redact_event (team_created t a) = team_created t (redact_text p a)
  redact_event (team_member_spawn_requested c r g a) =
      team_member_spawn_requested c (redact_text p r) (redact_text p g) (redact_text p a)
  redact_event (team_member_spawned m a) = team_member_spawned (redact_member p m) (redact_text p a)
  redact_event e = e
