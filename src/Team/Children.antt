-- ===== src/Team/Children.antt =====
-- What `TeamCoordinator.spawn` of src/loopgraph_supervisor/application/team.py returns: the run of a
-- child within the depth that the parent's policy allows.
use loopgraph_supervisor.Prelude.{
  ◌&&◌, ◌≡◌, refl, sym, ◌∙◌, ap, subst, ℕ, suc, ◌≤◌, ◌<◌, Bool, true, false, String, Option, none,
  some, List, [], ◌∷◌, ◌++◌, map, ◌==◌, leb, lookup, any, is_missing, arith, Bool-cases, inl, inr,
  if◌then◌else◌,
}
use loopgraph_supervisor.Floats.{Floats}
use loopgraph_supervisor.Domain.Runs.{RunDefinition, require_graders}
use loopgraph_supervisor.Domain.Events.{
  EventData, run_created, team_created, team_member_spawn_requested,
}
use loopgraph_supervisor.Domain.Snapshot.{RunSnapshot}
use loopgraph_supervisor.EventStore.{Table, version}
use loopgraph_supervisor.EventStore.Streams.{view-grown, IsNumbered, view, rows-append_ne}
use loopgraph_supervisor.Engine.Exec.{
  Result, ok, err, pure, raise, lift, ◌>>◌, Result-cases, then_pure-state,
}
use loopgraph_supervisor.Engine.Config.{Supervisor}
use loopgraph_supervisor.Engine.Runs.{append, create_run, get_run}
use loopgraph_supervisor.Engine.Runs.Reads.{append-eq, redacted}
use loopgraph_supervisor.Runtime.{Runtime, with_table, start}
use loopgraph_supervisor.Team.{
  TeamContext, ChildAgentSpec, TeamCalls, replay_team, child_definition, validated, note, team_of,
  settle_child, spawn_child, spawn_in, spawn,
}
use loopgraph_supervisor.Team.Adds.{note_lem}
use loopgraph_supervisor.Engine.Exec.{bind_returns}
use loopgraph_supervisor.Team.Limits.{spawn_read}
use loopgraph_supervisor.Team.Spawning.{start-table}

module _ {F : Type 0} ⦃fl : Floats F⦄ (s : Supervisor F) (calls : TeamCalls F) (run : ℕ)
    (apart : (run == calls.child_id) ≡ false) where
  apart_sym : (run == calls.child_id) ≡ false → (calls.child_id == run) ≡ false
  apart_sym h = ground arith

  -- The stream of the child's run.
  abbrev child : Runtime F → List (EventData F)
  child st = view st.table calls.child_id

  note-child : (e : EventData F) (st : Runtime F) → child (note s run e st).1 ≡ child st
  note-child e st = rw (note_lem s run e st) (elim (Result-cases (get_run run st.table).0) [
    | inr (x, bad) ↦ rw bad refl
    | inl (snapshot, good) ↦ rw good (
        ap (map (λ e. e.event)) (
          rows-append_ne st.table run (version st.table run) (redacted s (e ∷ [])) calls.child_id
            apart))
  ])

  team_of-child :
      (actor : String) (o : Option TeamContext) (st : Runtime F)
      → child (team_of s calls run actor o st).1 ≡ child st
  unfolding team_of
  team_of-child actor (some c) st = refl
  team_of-child actor none st =
      let m = note s run (team_created calls.team_id actor) in
      ap child (then_pure-state m (calls.team_id, 0) st)
      ∙ note-child (team_created calls.team_id actor) st

  finish-child :
      (start_it : Bool) (st : Runtime F)
      → ((if start_it then (start calls.child_id >> pure calls.child_id) else pure calls.child_id)
          st).1.table
        ≡ st.table
  finish-child true st =
      ap (λ x. x.table) (then_pure-state (start calls.child_id) calls.child_id st)
      ∙ start-table calls.child_id st
  finish-child false st = refl

  finish-id :
      (start_it : Bool) (st st' : Runtime F) (id : ℕ)
      → (if start_it then (start calls.child_id >> pure calls.child_id) else pure calls.child_id) st
        ≡ (ok id, st')
      → id ≡ calls.child_id
  finish-id true st st' id h =
      let (u, _, ends) =
        bind_returns (start calls.child_id) (λ _. pure calls.child_id) st st' id h in
      cc ends
  finish-id false st st' id h = cc h

  settle_child-child :
      (spec : ChildAgentSpec F) (actor : String) (start_it : Bool) (r : Result F ℕ)
      (st st' : Runtime F) (id : ℕ)
      → settle_child s calls run spec actor start_it r st ≡ (ok id, st')
      → (id ≡ calls.child_id) × (child st' ≡ child st) × (k : ℕ) × (r ≡ ok k)
  unfolding settle_child
  settle_child-child spec actor start_it (err e) st st' id h =
      let (u, noted, ends) = bind_returns (note s run _) (λ _. raise e) st st' id h in
      absurd (cc ends)
  settle_child-child spec actor start_it (ok k) st st' id h =
      let finish =
        if start_it then (start calls.child_id >> pure calls.child_id) else pure calls.child_id in
      let (u, noted, ends) = bind_returns (note s run _) (λ _. finish) st st' id h in
      (
        finish-id start_it _ st' id ends,
        ap (λ x. child x.1) (sym ends)
            ∙ ap (λ t. view t calls.child_id) (finish-child start_it _)
            ∙ note-child _ st,
        k,
        refl,
      )

  -- Creating the child's run.
  create_run-child :
      (d : RunDefinition F) (t : Table F) (k : ℕ)
      → (create_run s d calls.child_id t).0 ≡ ok k
      → view (create_run s d calls.child_id t).1 calls.child_id
        ≡ view t calls.child_id ++ redacted s (run_created d ∷ [])
  unfolding create_run
  create_run-child d t k h = elim (Bool-cases (is_missing (lookup d.harness_id s.harnesses))) [
    | inl unknown ↦ absurd (cc (rw (create_run, unknown) at h))
    | inr known ↦ elim (Bool-cases (any (λ id. is_missing (lookup id s.graders)) d.grader_ids)) [
      | inl unknown ↦ absurd (cc (rw (create_run, known, unknown) at h))
      | inr found ↦
          let new_run = run_created d ∷ [] in
          let written =
            then_pure-state (append s calls.child_id new_run) calls.child_id t
            ∙ ap (λ x. x.1) (append-eq s calls.child_id new_run t) in
          rw (create_run, known, found)
            (ap (λ t'. view t' calls.child_id) written
              ∙ view-grown t calls.child_id (version t calls.child_id) (redacted s new_run))
    ]
  ]

  validated-same : (d d' : RunDefinition F) → validated calls d ≡ ok d' → d ≡ d'
  unfolding validated
  validated-same d d' h =
      elim (Bool-cases (require_graders d.grader_ids && calls.within_limits d)) [
        | inl good ↦ cc (rw (validated, good) at h)
        | inr bad ↦ absurd (cc (rw (validated, bad) at h))
      ]

  spawn_child-child :
      (parent : RunDefinition F) (spec : ChildAgentSpec F) (actor : String) (start_it : Bool)
      (team_id : ℕ) (st st' : Runtime F) (id : ℕ)
      → spawn_child s calls run parent spec actor start_it team_id st ≡ (ok id, st')
      → (id ≡ calls.child_id)
        × (child st'
            ≡ child st ++ redacted s (run_created (child_definition run team_id parent spec) ∷ []))
  unfolding spawn_child with_table
  spawn_child-child parent spec actor start_it team_id st st' id h =
      let request = team_member_spawn_requested calls.child_id spec.role spec.goal actor in
      let d = child_definition run team_id parent spec in
      let (u, noted, next) = bind_returns (note s run request) _ st st' id h in
      let st₁ = (note s run request st).1 in
      let (d', same, ends) = bind_returns (lift (validated calls d)) _ st₁ st' id next in
      let (mine, after, k, created) =
        settle_child-child spec actor start_it (create_run s d' calls.child_id st₁.table).0 _ st' id
          ends in
      (
        mine,
        after
            ∙ create_run-child d' st₁.table k created
            ∙ ap (λ x. child st₁ ++ redacted s (run_created x ∷ []))
                (sym (validated-same d d' same))
            ∙ ap (λ l. l ++ redacted s (run_created d ∷ [])) (note-child request st),
      )

  spawn_in-child :
      (parent : RunDefinition F) (spec : ChildAgentSpec F) (actor : String) (start_it : Bool)
      (team_id count : ℕ) (st st' : Runtime F) (id : ℕ)
      → spawn_in s calls run parent spec actor start_it (team_id, count) st ≡ (ok id, st')
      → (parent.depth < parent.supervisor_policy.max_subagent_depth)
        × (id ≡ calls.child_id)
        × (child st'
            ≡ child st ++ redacted s (run_created (child_definition run team_id parent spec) ∷ []))
  unfolding spawn_in
  spawn_in-child parent spec actor start_it team_id count st st' id h =
      elim (Bool-cases (leb parent.supervisor_policy.max_subagents count)) [
        | inl full ↦ absurd (cc (rw (spawn_in, full) at h))
        | inr room ↦
            elim (Bool-cases (leb parent.supervisor_policy.max_subagent_depth parent.depth)) [
              | inl deep ↦ absurd (cc (rw (spawn_in, room, deep) at h))
              | inr shallow ↦
                  let (mine, after) =
                    spawn_child-child parent spec actor start_it team_id st st' id
                      (rw (spawn_in, room, shallow) at h) in
                  (below _ _ shallow, mine, after)
            ]
      ]
    where
      below : (most depth : ℕ) → leb most depth ≡ false → depth < most
      below most depth h = ground arith

  -- Where the runs are numbered, the parent's run can be read, and the child has an id of its own, a
  -- `spawn` that returns gives the child's id, has found the parent above the depth limit of its
  -- policy, and has added to the child's stream only its creation (redacted): a run one level deeper,
  -- under the parent and with the parent's policy, so with the same limits.
  pub spawn-child :
      (spec : ChildAgentSpec F) (actor : String) (start_it : Bool) (st st' : Runtime F)
      (parent : RunSnapshot F) (id : ℕ)
      → IsNumbered st.table
      → (get_run run st.table).0 ≡ ok parent
      → spawn s calls run spec actor start_it st ≡ (ok id, st')
      → (id ≡ calls.child_id)
        × (d : RunDefinition F) × (view st'.table id
            ≡ view st.table id ++ redacted s (run_created d ∷ []))
        × (d.depth ≡ suc parent.definition.depth)
        × (d.depth ≤ d.supervisor_policy.max_subagent_depth)
        × (d.parent_run_id ≡ some run)
        × (d.supervisor_policy ≡ parent.definition.supervisor_policy)
  unfolding child_definition
  spawn-child spec actor start_it st st' parent id w good h =
      let read = replay_team run (view st.table run) in
      let go =
        sym (spawn_read s calls run (apart_sym apart) spec actor start_it st parent w good) ∙ h in
      let ((team_id, count), _, next) =
        bind_returns (team_of s calls run actor read) _ st st' id go in
      let (depth, mine, after) =
        spawn_in-child parent.definition spec actor start_it team_id count _ st' id next in
      (
        mine,
        child_definition run team_id parent.definition spec,
        subst
            (λ i.
              view st'.table i
              ≡ view st.table i
                ++ redacted s
                    (run_created (child_definition run team_id parent.definition spec) ∷ []))
            (sym mine)
            (after
              ∙ ap
                  (λ l.
                    l
                    ++ redacted s
                        (run_created (child_definition run team_id parent.definition spec) ∷ []))
                  (team_of-child actor read st)),
        omega arith,
        omega (arith, depth),
        refl,
        refl,
      )
