-- ===== src/Api/Routes/Reviewed.antt =====
-- `create_memory` of src/loopgraph_supervisor/api/app.py: a memory enters as an experimental one of the
-- version, and no read without experimental memories returns it.
use loopgraph_supervisor.Prelude.{ℕ, Bool, true, false, not, String, str_eq, Option, List, [], ◌∷◌}
use loopgraph_supervisor.Floats.{Floats}
use loopgraph_supervisor.Domain.Json.{Fields, text}
use loopgraph_supervisor.Memory
use loopgraph_supervisor.Memory.{
  MemoryKind, MemoryStatus, experimental, MemoryRecord, MemoryResult, Memories, WriteCalls, write,
  set_status, for_context,
}
use loopgraph_supervisor.Evolution.Mutator.Dicts.{put_field}
use loopgraph_supervisor.Engine.Exec.{Exception, value_error, ok, err, Exec}
use loopgraph_supervisor.Runtime.{Runtime}
use loopgraph_supervisor.Api.Routes.{with_memories, version_of, check_source, create_memory}
use loopgraph_supervisor.Prelude.{◌≡◌, refl, sym, ◌∙◌, ap, subst, Bool-cases, inl, inr}
use loopgraph_supervisor.Engine.Exec.{Result-cases}
use loopgraph_supervisor.Prelude.{
  ◌⊎◌, ◌++◌, ◌&&◌, ◌==◌, ◌≡◌, refl, sym, ◌∙◌, ap, subst, Bool-cases, inl, inr,
}
use loopgraph_supervisor.Memory.{selects, readable, kind_matches}
use loopgraph_supervisor.Engine.Exec.{bind_returns, unless_raised, ok_same, Result-cases}
use loopgraph_supervisor.Api.Routes.Refusals.{
  IsAnswered, Refuses, Refuses-raise, Refuses-if, Refuses-bind, value_error-IsAnswered,
  memory_result-IsAnswered,
}
use loopgraph_supervisor.Api.Routes.Errors.{check_source-Looks, version_of-Looks}

module _ {F : Type 0} where
  -- A memory of a version that awaits its review.
  pub record IsDraft (agent_name : String) (version_id : ℕ) (source : Option ℕ)
      (row : MemoryRecord F) : Type 0 where
    pub status : row.status ≡ experimental
    pub agent : row.agent_name ≡ agent_name
    pub version : row.version_id ≡ version_id
    pub run : row.source_run_id ≡ source
    pub hidden :
        (name : String) (id : ℕ) (kind : Option MemoryKind) → selects name id false kind row ≡ false

  hidden_row :
      (row : MemoryRecord F) (name : String) (id : ℕ) (kind : Option MemoryKind)
      → row.status ≡ experimental
      → selects name id false kind row ≡ false
  unfolding selects
  hidden_row row name id kind h =
      rw h (both_false (str_eq row.agent_name name) (row.version_id == id))
    where
      both_false : (a b : Bool) → (a && b && false && kind_matches kind row.kind) ≡ false
      both_false true true = refl
      both_false true false = refl
      both_false false b = refl

module _ {F : Type 0} (calls : WriteCalls) (agent_name : String) (version_id : ℕ)
    (kind : MemoryKind) (content : String) (tags : List String) (source : Option ℕ)
    (metadata : Fields F) where
  abbrev store : Exec F (Runtime F) (MemoryRecord F)
  store =
      with_memories
        λ t. write calls t agent_name version_id kind content experimental source tags metadata

  store-Refuses : Refuses store
  unfolding with_memories write
  store-Refuses = record {
    at = λ st e h. elim (Bool-cases (str_eq (calls.strip content) "")) [
      | inl empty ↦ (
        memory_result-IsAnswered Memory.value_error e (rw (with_memories, write, empty) at h),
        rw (with_memories, write, empty) refl,
      )
      | inr full ↦ absurd (cc (rw (with_memories, write, full) at h))
    ];
  }

  store-IsDraft :
      (st st' : Runtime F) (row : MemoryRecord F)
      → store st ≡ (ok row, st')
      → IsDraft agent_name version_id source row
        × (st' ≡ record st { memories = st.memories ++ row ∷ [] })
  unfolding with_memories write
  store-IsDraft st st' row h = elim (Bool-cases (str_eq (calls.strip content) "")) [
    | inl empty ↦ absurd (cc (rw (with_memories, write, empty) at h))
    | inr full ↦
        let k = rw (with_memories, write, full) at h in
        let e = ok_same _ _ row refl (ap (λ x. x.0) k) in
        (
          subst (λ r. IsDraft agent_name version_id source r) e
              (record {
                status = refl;
                agent = refl;
                version = refl;
                run = refl;
                hidden = λ name id kind. hidden_row _ name id kind refl;
              }),
          sym (ap (λ x. x.1) k) ∙ ap (λ r. record st { memories = st.memories ++ r ∷ [] }) e,
        )
  ]

module _ {F : Type 0} ⦃fl : Floats F⦄ (calls : WriteCalls) (configured : Bool) (agent_name : String)
    (version_id : ℕ) (kind : MemoryKind) (content : String) (tags : List String) (source : Option ℕ)
    (metadata : Fields F) (actor : String) where
  abbrev noted : Fields F
  noted = put_field "created_by" (text actor) metadata

  abbrev creating : Exec F (Runtime F) (MemoryRecord F)
  creating =
      create_memory calls configured agent_name version_id kind content tags source metadata actor

  creating-Refuses : Refuses creating
  unfolding create_memory
  creating-Refuses =
      Refuses-if (not configured) _ _ (Refuses-raise value_error (value_error-IsAnswered F)) (
        Refuses-bind _ _ (version_of-Looks agent_name version_id) λ _.
          Refuses-bind _ _ (check_source-Looks version_id source)
            λ _. store-Refuses calls agent_name version_id kind content tags source noted)

  creating-IsDraft :
      (st st' : Runtime F) (row : MemoryRecord F)
      → creating st ≡ (ok row, st')
      → IsDraft agent_name version_id source row
        × (st' ≡ record st { memories = st.memories ++ row ∷ [] })
  unfolding create_memory
  creating-IsDraft st st' row h =
      let (_, found) = unless_raised configured value_error _ st st' row h in
      let (version, _, checked) =
        bind_returns (version_of agent_name version_id) _ st st' row found in
      let (_, _, last) = bind_returns (check_source version_id source) _ _ st' row checked in
      let (draft, written) =
        store-IsDraft calls agent_name version_id kind content tags source noted _ st' row last in
      let same =
        (check_source-Looks version_id source).same (version_of agent_name version_id st).1
        ∙ (version_of-Looks agent_name version_id).same st in
      (draft, written ∙ ap (λ (x : Runtime F). record x { memories = x.memories ++ row ∷ [] }) same)

  -- `create_memory` returns a memory that awaits its review and has added nothing else: it is
  -- experimental, of the agent, the version and the source run of the request, and no read that leaves
  -- out experimental memories returns it. Or it raises an exception that a handler answers with an
  -- error code, and nothing has changed.
  pub create_memory-IsDraft :
      (st : Runtime F)
      → ((row : MemoryRecord F) × (create_memory calls configured agent_name version_id kind content
              tags source metadata actor st
            ≡ (ok row, record st { memories = st.memories ++ row ∷ [] }))
          × IsDraft agent_name version_id source row)
        ⊎ ((e : Exception F) × (create_memory calls configured agent_name version_id kind content
                tags source metadata actor st
              ≡ (err e, st))
            × IsAnswered e)
  create_memory-IsDraft st = elim (Result-cases (creating st).0) [
    | inl (row, good) ↦
        let h : creating st ≡ (ok row, (creating st).1) = ap (λ r. (r, (creating st).1)) good in
        let (draft, written) = creating-IsDraft st (creating st).1 row h in
        inl (row, h ∙ ap (λ x. (ok row, x)) written, draft)
    | inr (e, bad) ↦
        let (answered, same) = creating-Refuses.at st e bad in
        inr (e, ap (λ r. (r, (creating st).1)) bad ∙ ap (λ x. (err e, x)) same, answered)
  ]
