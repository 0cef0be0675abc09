-- ===== src/Team/Spawning.antt =====
-- `TeamCoordinator.spawn` of src/loopgraph_supervisor/application/team.py keeps the team within the
-- limits of the parent's policy and leaves the parent's status alone.
use loopgraph_supervisor.Prelude.{
  ◌≡◌, refl, sym, ◌∙◌, ap, subst, ℕ, Bool, false, String, none, List, [], ◌∷◌, ◌++◌, map, ◌==◌,
  lookup, any, is_missing, arith, Bool-cases, inl, inr, if◌then◌else◌, append-nil,
}
use loopgraph_supervisor.Floats.{Floats}
use loopgraph_supervisor.Domain.Runs.{RunDefinition}
use loopgraph_supervisor.Domain.Events.{
  EventData, run_created, team_member_spawn_requested, team_member_spawn_failed,
}
use loopgraph_supervisor.EventStore.{Table, version, stamp, load}
use loopgraph_supervisor.EventStore.Streams.{IsNumbered, IsNumbered-grown, view, rows-append_ne}
use loopgraph_supervisor.Engine.Exec.{
  safe_error, Result, ok, err, Exec, pure, lift, ◌>>=◌, ◌>>◌, Result-cases, then_pure-state,
  then_raise-state,
}
use loopgraph_supervisor.Engine.Config.{Supervisor}
use loopgraph_supervisor.Engine.Runs.{append, create_run, get_run, replayed}
use loopgraph_supervisor.Engine.Runs.Reads.{append-eq, redacted}
use loopgraph_supervisor.Runtime.{Runtime, with_table, start}
use loopgraph_supervisor.Tasks.{cannot_start, is_active}
use loopgraph_supervisor.Team.{
  ChildAgentSpec, TeamCalls, child_definition, validated, note, settle_child, spawn_child,
}
use loopgraph_supervisor.Team.Adds.{Adds, Adds-none, Adds-trans, Adds-bind, note-Adds}

module _ {F : Type 0} ⦃fl : Floats F⦄ where
  pub start-table : (run : ℕ) (st : Runtime F) → (start run st).1.table ≡ st.table
  unfolding start with_table get_run
  start-table run st = elim (Bool-cases (is_active run st.tasks)) [
    | inl busy ↦ rw (start, busy) refl
    | inr idle ↦ elim (Result-cases (replayed (load st.table run 0 none))) [
      | inr (e, bad) ↦ rw (start, idle, bad) refl
      | inl (snapshot, good) ↦ elim (Bool-cases (cannot_start snapshot.status)) [
        | inl blocked ↦ rw (start, idle, good, blocked) refl
        | inr free ↦ rw (start, idle, good, free) refl
      ]
    ]
  ]

module _ {F : Type 0} (s : Supervisor F) (calls : TeamCalls F) (run : ℕ)
    (apart : (calls.child_id == run) ≡ false) where
  other-Adds :
      (t : Table F) (es : List (EventData F))
      → IsNumbered t
      → Adds run 0 t (t ++ stamp calls.child_id (version t calls.child_id) es)
  other-Adds t es w = record {
    new = [];
    numbered = IsNumbered-grown t calls.child_id es w;
    grown =
        ap (map (λ e. e.event))
          (rows-append_ne t calls.child_id (version t calls.child_id) es run apart)
        ∙ sym (append-nil (view t run));
    quiet = tt;
    few = omega arith;
  }

  -- The run of the child is another one.
  create_run-Adds :
      (d : RunDefinition F) (t : Table F)
      → IsNumbered t
      → Adds run 0 t (create_run s d calls.child_id t).1
  unfolding create_run
  create_run-Adds d t w = elim (Bool-cases (is_missing (lookup d.harness_id s.harnesses))) [
    | inl unknown ↦ rw (create_run, unknown) (Adds-none w)
    | inr known ↦ elim (Bool-cases (any (λ id. is_missing (lookup id s.graders)) d.grader_ids)) [
      | inl unknown ↦ rw (create_run, known, unknown) (Adds-none w)
      | inr found ↦
          let new_run = run_created d ∷ [] in
          let written =
            then_pure-state (append s calls.child_id new_run) calls.child_id t
            ∙ ap (λ x. x.1) (append-eq s calls.child_id new_run t) in
          rw (create_run, known, found)
            (subst (λ t'. Adds run 0 t t') (sym written) (other-Adds t (redacted s new_run) w))
    ]
  ]

module _ {F : Type 0} ⦃fl : Floats F⦄ (s : Supervisor F) (calls : TeamCalls F) (run : ℕ)
    (apart : (calls.child_id == run) ≡ false) (spec : ChildAgentSpec F) (actor : String)
    (start_it : Bool) where
  -- What `spawn` does last.
  abbrev finish : Exec F (Runtime F) ℕ
  finish = if start_it then (start calls.child_id >> pure calls.child_id) else pure calls.child_id

  finish-table : (st : Runtime F) → (finish st).1.table ≡ st.table
  finish-table st = elim (Bool-cases start_it) [
    | inr later ↦ rw later refl
    | inl now ↦
        rw (now, then_pure-state (start calls.child_id) calls.child_id st)
          (start-table calls.child_id st)
  ]

  finish-Adds : (st : Runtime F) → IsNumbered st.table → Adds run 0 st.table (finish st).1.table
  finish-Adds st w = rw (finish-table st) (Adds-none w)

  settle_child-Adds :
      (r : Result F ℕ) (st : Runtime F)
      → IsNumbered st.table
      → Adds run 1 st.table (settle_child s calls run spec actor start_it r st).1.table
  unfolding settle_child
  settle_child-Adds (ok _) st w =
      let noted = note-Adds s run 1 _ st refl (omega arith) w in
      Adds-bind {j = 1} {k = 0} (note s run _) (λ _. finish) st noted
        (λ _ _. finish-Adds _ noted.numbered)
  settle_child-Adds (err e) st w =
      rw
        (then_raise-state ℕ (note s run (team_member_spawn_failed calls.child_id (safe_error e))) e
          st)
        (note-Adds s run 1 _ st refl (omega arith) w)

  -- After the request: the run is created, and what comes of it is noted.
  abbrev create : RunDefinition F → Exec F (Runtime F) ℕ
  create d st =
      let (created, st') = with_table (create_run s d calls.child_id) st in
      settle_child s calls run spec actor start_it created st'

  create-Adds :
      (d : RunDefinition F) (st : Runtime F)
      → IsNumbered st.table
      → Adds run 1 st.table (create d st).1.table
  unfolding with_table
  create-Adds d st w =
      let made = create_run-Adds s calls run apart d st.table w in
      Adds-trans {j = 0} {k = 1} made (settle_child-Adds _ _ made.numbered)

  pub spawn_child-Adds :
      (parent : RunDefinition F) (team_id : ℕ) (st : Runtime F)
      → IsNumbered st.table
      → Adds run 1 st.table (spawn_child s calls run parent spec actor start_it team_id st).1.table
  unfolding spawn_child
  spawn_child-Adds parent team_id st w =
      let noted =
        note-Adds s run 0 (team_member_spawn_requested calls.child_id spec.role spec.goal actor) st
          refl (omega arith) w in
      let d = validated calls (child_definition run team_id parent spec) in
      Adds-bind {j = 0} {k = 1} (note s run _) (λ _. lift d >>= create) st noted
        (λ _ _. elim (Result-cases d) [
          | inl (d', good) ↦ rw good (create-Adds d' _ noted.numbered)
          | inr (e, bad) ↦ rw bad (Adds-none noted.numbered)
        ])
