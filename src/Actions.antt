-- ===== src/Actions.antt =====
-- src/loopgraph_supervisor/application/actions.py. The validation of a directive's payload is a
-- parameter; its error is a `ValueError`.
pub mod Quiet
pub mod Proposals
use loopgraph_supervisor.Prelude.{
  ℕ, Bool, true, false, not, String, str_eq, Option, none, some, ◌==◌, if◌then◌else◌,
}
use loopgraph_supervisor.Floats.{Floats}
use loopgraph_supervisor.Domain.Json.{Json, null, dict, Fields}
use loopgraph_supervisor.Domain.Models.{AgentBundle}
use loopgraph_supervisor.Domain.Directives.{
  SupervisorDirectiveAction, spawn_subagent, propose_mutation, SupervisorDirective,
  ObservationContext,
}
use loopgraph_supervisor.Observer
use loopgraph_supervisor.Observer.{truthy}
use loopgraph_supervisor.Versions
use loopgraph_supervisor.Versions.Tables.{AgentVersion}
use loopgraph_supervisor.Versions.Records.{VersionCalls}
use loopgraph_supervisor.Versions.{create_candidate}
use loopgraph_supervisor.Evolution.Mutator.{
  MutationPlan, Mutation, mutated, not_allowed, no_mutation, apply,
}
use loopgraph_supervisor.Engine.Exec.{
  key_error, value_error, raised, Result, ok, err, Exec, pure, raise, lift, ◌>>=◌, ◌>>◌,
}
use loopgraph_supervisor.Engine.Config.{Supervisor}
use loopgraph_supervisor.Runtime.{Runtime, with_versions}
use loopgraph_supervisor.Team.{ChildAgentSpec, TeamCalls, spawn}

pub record ActionOutcome : Type 0 where
  pub action : SupervisorDirectiveAction
  pub child_run_id : Option ℕ
  pub candidate_version_id : Option ℕ

-- What `handle` calls: the models' validation of a payload, `UUID(str(…))`, and what the stores call.
pub record ActionCalls (F : Type 0) : Type 0 where
  pub child_spec : Json F → Option (ChildAgentSpec F)
  pub mutation_plan : Json F → Option (MutationPlan F)
  pub parse_id : Json F → Option ℕ
  pub team : TeamCalls F
  pub versions : VersionCalls F

module _ {F A : Type 0} where
  unfoldable pub validated_model : Option A → Result F A
  validated_model none = err value_error
  validated_model (some a) = ok a

-- The exceptions of `BundleMutator.apply`.
unfoldable pub mutation_result : {F : Type 0} → Mutation F → Result F (AgentBundle F)
mutation_result (mutated b) = ok b
mutation_result (not_allowed components) = err (raised "MutationNotAllowedError")
mutation_result no_mutation = err (raised "NoMutationError")

module _ {F : Type 0} where
  -- `requested_parent is not None and UUID(str(requested_parent)) != parent_id`; an id that does not
  -- parse raises a `ValueError`, as another one does.
  unfoldable pub is_other_parent : (Json F → Option ℕ) → Option (Json F) → ℕ → Bool
  is_other_parent parse none parent_id = false
  is_other_parent parse (some null) parent_id = false
  is_other_parent parse (some requested) parent_id = elim (parse requested) [
    | none ↦ true
    | some id ↦ not (id == parent_id)
  ]

  -- `directive.payload["plan"]`
  unfoldable pub plan_of : ActionCalls F → Option (Json F) → Result F (MutationPlan F)
  unfolding validated_model
  plan_of calls none = err key_error
  plan_of calls (some plan) = validated_model (calls.mutation_plan plan)

  unfoldable pub propose_from :
      ActionCalls F
      → ObservationContext F
      → MutationPlan F
      → AgentVersion F
      → Exec F (Runtime F) ActionOutcome
  unfolding with_versions mutation_result apply create_candidate
  propose_from calls context plan parent =
      if not (
        str_eq (calls.versions.fingerprint parent.bundle)
          (calls.versions.fingerprint context.agent_bundle))
      then raise value_error
      else do
        bundle ← lift (mutation_result (apply calls.versions.fingerprint parent.bundle plan))
        candidate ←
            with_versions
              (create_candidate calls.versions parent.id bundle "supervisor-agent" plan.rationale)
        pure (record {
          action = propose_mutation;
          child_run_id = none;
          candidate_version_id = some candidate.id;
        })

  unfoldable pub propose :
      ActionCalls F
      → ObservationContext F
      → SupervisorDirective F
      → Option ℕ
      → Exec F (Runtime F) ActionOutcome
  unfolding is_other_parent plan_of with_versions Versions.get propose_from Observer.get
  propose calls context directive none = raise value_error
  propose calls context directive (some parent_id) =
      if is_other_parent calls.parse_id (Observer.get "parent_version_id" directive.payload)
        parent_id
      then raise value_error
      else do
        plan ← lift (plan_of calls (Observer.get "plan" directive.payload))
        parent ← with_versions (λ v. (Versions.get parent_id v, v))
        propose_from calls context plan parent

module _ {F : Type 0} ⦃fl : Floats F⦄ where
  -- `directive.payload.get("child") or directive.payload`
  unfoldable pub raw_spec : Option (Json F) → Fields F → Json F
  unfolding truthy
  raw_spec none payload = dict payload
  raw_spec (some child) payload = if truthy child then child else dict payload

  -- `bool(directive.payload.get("start", True))`
  unfoldable pub start_flag : Option (Json F) → Bool
  unfolding truthy
  start_flag none = true
  start_flag (some v) = truthy v

  unfoldable pub delegate_child :
      Supervisor F
      → ActionCalls F
      → ObservationContext F
      → SupervisorDirective F
      → Exec F (Runtime F) ActionOutcome
  unfolding raw_spec start_flag validated_model spawn Observer.get
  delegate_child s calls context directive = do
    child ← lift (
        validated_model
          (calls.child_spec (raw_spec (Observer.get "child" directive.payload) directive.payload)))
    id ←
        spawn s calls.team context.run_id child "supervisor-agent"
          (start_flag (Observer.get "start" directive.payload))
    pure (record { action = spawn_subagent; child_run_id = some id; candidate_version_id = none })

  -- `SupervisorActionRouter.handle`
  unfoldable pub handle_action :
      Supervisor F
      → ActionCalls F
      → ObservationContext F
      → SupervisorDirective F
      → SupervisorDirectiveAction
      → Exec F (Runtime F) ActionOutcome
  unfolding delegate_child propose
  handle_action s calls context directive spawn_subagent = delegate_child s calls context directive
  handle_action s calls context directive propose_mutation =
      propose calls context directive context.agent_version_id
  handle_action s calls context directive action =
      pure (record { action = action; child_run_id = none; candidate_version_id = none })

  unfoldable pub handle :
      Supervisor F
      → ActionCalls F
      → ObservationContext F
      → SupervisorDirective F
      → Exec F (Runtime F) ActionOutcome
  unfolding handle_action
  handle s calls context directive = handle_action s calls context directive directive.action
