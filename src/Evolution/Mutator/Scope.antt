-- ===== src/Evolution/Mutator/Scope.antt =====
-- `BundleMutator.apply` of src/loopgraph_supervisor/evolution/mutator.py stays in the scope of the
-- parent bundle.
use loopgraph_supervisor.Prelude.{
  subst, ◌≡◌, refl, ap, Bool, true, false, not, ◌||◌, String, str_eq, Option, none, some, List, [],
  ◌∷◌, map, keep, contains, is_empty, is_missing, All, Bool-cases, inl, inr,
}
use loopgraph_supervisor.Domain.Json.{Fields, end, field}
use loopgraph_supervisor.Domain.Models.{AgentBundle, EvolutionScope}
use loopgraph_supervisor.Evolution.Mutator.Dicts.{pop, update, deep_merge}
use loopgraph_supervisor.Evolution.Mutator.{
  MutationPlan, mutated, allowed_components, prompt_or, has_fields, changes, changed_components,
  candidate_bundle, disallowed, apply,
}

module _ {F : Type 0} where
  -- What each scope protects of the parent.
  pub record IsWithin (scope : EvolutionScope) (parent b : AgentBundle F) : Type 0 where
    pub name : b.name ≡ parent.name
    pub evolution_scope : b.evolution_scope ≡ parent.evolution_scope
    pub prompt :
        contains "system_prompt" (allowed_components scope) ≡ false
        → b.system_prompt ≡ parent.system_prompt
    pub skills : contains "skills" (allowed_components scope) ≡ false → b.skills ≡ parent.skills
    pub servers :
        contains "mcp_servers" (allowed_components scope) ≡ false
        → b.mcp_servers ≡ parent.mcp_servers
    pub tools :
        contains "tool_policy" (allowed_components scope) ≡ false
        → b.tool_policy ≡ parent.tool_policy
    pub model :
        contains "model_config" (allowed_components scope) ≡ false
        → b.model_config_data ≡ parent.model_config_data
    pub context :
        contains "context_config" (allowed_components scope) ≡ false
        → b.context_config ≡ parent.context_config
    pub memory :
        contains "memory_config" (allowed_components scope) ≡ false
        → b.memory_config ≡ parent.memory_config
    pub workflow :
        contains "workflow_config" (allowed_components scope) ≡ false
        → b.workflow_config ≡ parent.workflow_config

-- No component that is flagged fails the test.
kept_none :
    (p : String → Bool) (cs : List (String × Bool))
    → is_empty (keep p (map (λ c. c.0) (keep (λ c. c.1) cs))) ≡ true
    → All (λ c. p c.0 ≡ true → c.1 ≡ false) cs
kept_none p [] h = tt
kept_none p ((name, false) ∷ cs) h = (λ k. refl, kept_none p cs h)
kept_none p ((name, true) ∷ cs) h = elim (Bool-cases (p name)) [
  | inl fails ↦ absurd (cc (rw fails at h))
  | inr holds ↦ (λ k. absurd (cc (k, holds)), kept_none p cs (rw holds at h))
]

prompt_kept :
    (new : Option String) (old : String) → not (is_missing new) ≡ false → prompt_or new old ≡ old
prompt_kept none old h = refl
prompt_kept (some s) old h = cc

dict_kept :
    {V : Type 0} (added : List (String × V)) (names : List String) (d : List (String × V))
    → (not (is_empty added) || not (is_empty names)) ≡ false
    → update (pop names d) added ≡ d
unfolding update pop
dict_kept [] [] [] h = refl
dict_kept [] [] (e ∷ d) h = ap (λ r. e ∷ r) (dict_kept [] [] d h)
dict_kept [] (n ∷ names) d h = cc
dict_kept (a ∷ added) names d h = cc

fields_kept :
    {F : Type 0} (base patch : Fields F) → has_fields patch ≡ false → deep_merge base patch ≡ base
unfolding deep_merge
fields_kept base end h = refl
fields_kept base (field k v rest) h = cc

module _ {F : Type 0} where
  candidate-IsWithin :
      (parent : AgentBundle F) (plan : MutationPlan F)
      → is_empty (disallowed parent plan) ≡ true
      → IsWithin parent.evolution_scope parent (candidate_bundle parent plan)
  unfolding candidate_bundle disallowed changed_components changes
  candidate-IsWithin parent plan h =
      let flags =
        kept_none (λ c. not (contains c (allowed_components parent.evolution_scope))) (changes plan)
          h in
      record {
        name = refl;
        evolution_scope = refl;
        prompt = λ k. prompt_kept plan.system_prompt parent.system_prompt (flags.0 (rw k refl));
        skills = λ k.
            dict_kept plan.skills_upsert plan.skills_remove parent.skills (flags.1.0 (rw k refl));
        servers = λ k.
            dict_kept plan.mcp_servers_upsert plan.mcp_servers_remove parent.mcp_servers
              (flags.1.1.0 (rw k refl));
        tools =
            λ k. fields_kept parent.tool_policy plan.tool_policy_patch (flags.1.1.1.0 (rw k refl));
        model = λ k.
            fields_kept parent.model_config_data plan.model_config_patch
              (flags.1.1.1.1.0 (rw k refl));
        context = λ k.
            fields_kept parent.context_config plan.context_patch (flags.1.1.1.1.1.0 (rw k refl));
        memory = λ k.
            fields_kept parent.memory_config plan.memory_patch (flags.1.1.1.1.1.1.0 (rw k refl));
        workflow = λ k.
            fields_kept parent.workflow_config plan.workflow_patch
              (flags.1.1.1.1.1.1.1.0 (rw k refl));
      }

  -- A mutation that returns keeps the name and the scope of the parent bundle, and every component
  -- that the scope does not list is the parent's.
  pub apply-IsWithin :
      (fingerprint : AgentBundle F → String) (parent b : AgentBundle F) (plan : MutationPlan F)
      → apply fingerprint parent plan ≡ mutated b
      → IsWithin parent.evolution_scope parent b
  unfolding apply
  apply-IsWithin fingerprint parent b plan h =
      elim (Bool-cases (is_empty (disallowed parent plan))) [
        | inr refused ↦ absurd (cc (rw refused at h))
        | inl good ↦
            let b' = candidate_bundle parent plan in
            elim (Bool-cases (str_eq (fingerprint b') (fingerprint parent))) [
              | inl same ↦ absurd (cc (rw (good, same) at h))
              | inr other ↦
                  let e : b' ≡ b = cc (rw (good, other) at h) in
                  subst (λ x. IsWithin parent.evolution_scope parent x) e
                    (candidate-IsWithin parent plan good)
            ]
      ]
