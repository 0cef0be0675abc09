-- ===== src/Team/Adds.antt =====
-- What the coordinator of src/loopgraph_supervisor/application/team.py adds to the stream of the
-- parent's run.
use loopgraph_supervisor.Prelude.{
  ◌≡◌, refl, sym, ◌∙◌, ap, ℕ, ◌+◌, ◌≤◌, true, String, Option, none, some, List, [], ◌∷◌, ◌++◌,
  length, append-nil, append_assoc, All, All-append, lookup_id, length-put_le, length-put_known,
  arith, inl, inr,
}
use loopgraph_supervisor.Floats.{Floats}
use loopgraph_supervisor.Security.Payload.{redact_event}
use loopgraph_supervisor.Domain.Events.{
  TeamMember, EventData, team_created, run_started, team_member_spawned, team_member_completed,
  team_member_failed,
}
use loopgraph_supervisor.EventStore.{Table, version, stamp, load}
use loopgraph_supervisor.EventStore.Streams.{IsNumbered, IsNumbered-grown, view, view-grown}
use loopgraph_supervisor.Engine.Exec.{ok, err, Exec, ◌>>=◌, Result-cases}
use loopgraph_supervisor.Engine.Config.{Supervisor}
use loopgraph_supervisor.Engine.Runs.{get_run, append_control_event, replayed}
use loopgraph_supervisor.Engine.Runs.Reads.{append-eq, redacted}
use loopgraph_supervisor.Engine.Phase.{IsQuiet, is_quiet, redacted-IsQuiet}
use loopgraph_supervisor.Runtime.{Runtime, with_table}
use loopgraph_supervisor.Team.{created_team, mark_member, member_step, members_from, note}

length-mark_member :
    (run : ℕ) (status : String) (o : Option TeamMember) (members : List (ℕ × TeamMember))
    → lookup_id run members ≡ o
    → length (mark_member run status o members) ≡ length members
length-mark_member run status none members h = refl
length-mark_member run status (some m) members h = length-put_known run _ m members h

module _ {F : Type 0} where
  -- The number of members that events add.
  abbrev pub spawns : EventData F → ℕ
  spawns (team_member_spawned member actor) = 1
  spawns e = 0

  abbrev pub spawned : List (EventData F) → ℕ
  spawned [] = 0
  spawned (e ∷ es) = spawns e + spawned es

  spawned-append : (xs ys : List (EventData F)) → spawned (xs ++ ys) ≡ spawned xs + spawned ys
  spawned-append [] ys = omega arith
  spawned-append (x ∷ xs) ys = omega (arith, spawned-append xs ys)

  length-member_step :
      (members : List (ℕ × TeamMember)) (e : EventData F)
      → length (member_step members e) ≤ length members + spawns e
  unfolding member_step
  length-member_step members (team_member_spawned m actor) =
      omega (arith, length-put_le m.run_id m members)
  length-member_step members (team_member_completed run) =
      omega (arith, length-mark_member run "completed" (lookup_id run members) members refl)
  length-member_step members (team_member_failed run) =
      omega (arith, length-mark_member run "failed" (lookup_id run members) members refl)
  length-member_step members _ = ground arith

  pub length-members_from :
      (members : List (ℕ × TeamMember)) (es : List (EventData F))
      → length (members_from members es) ≤ length members + spawned es
  unfolding members_from
  length-members_from members [] = omega arith
  length-members_from members (e ∷ es) =
      omega (arith, length-members_from (member_step members e) es, length-member_step members e)

  pub members_from-append :
      (members : List (ℕ × TeamMember)) (xs ys : List (EventData F))
      → members_from members (xs ++ ys) ≡ members_from (members_from members xs) ys
  unfolding members_from
  members_from-append members [] ys = refl
  members_from-append members (x ∷ xs) ys = members_from-append (member_step members x) xs ys

  pub created_team-append :
      (xs ys : List (EventData F)) (id : ℕ)
      → created_team xs ≡ some id
      → created_team (xs ++ ys) ≡ some id
  unfolding created_team
  created_team-append [] ys id h = absurd (cc h)
  created_team-append (team_created t a ∷ xs) ys id h = h
  created_team-append (_ ∷ xs) ys id h = created_team-append xs ys id h

  pub record Adds (run k : ℕ) (t t' : Table F) : Type 0 where
    pub new : List (EventData F)
    pub numbered : IsNumbered t'
    pub grown : view t' run ≡ view t run ++ new
    pub quiet : All IsQuiet new
    pub few : spawned new ≤ k

  pub Adds-none : {run k : ℕ} {t : Table F} → IsNumbered t → Adds run k t t
  Adds-none {run} {k} {t} w = record {
    new = [];
    numbered = w;
    grown = sym (append-nil (view t run));
    quiet = tt;
    few = omega arith;
  }

  pub Adds-trans :
      {run j k : ℕ} {t t' t'' : Table F}
      → Adds run j t t'
      → Adds run k t' t''
      → Adds run (j + k) t t''
  Adds-trans {run} {j} {k} {t} {t'} {t''} p q = record {
    new = p.new ++ q.new;
    numbered = q.numbered;
    grown = q.grown ∙ ap (λ l. l ++ q.new) p.grown ∙ append_assoc (view t run) p.new q.new;
    quiet = All-append IsQuiet p.new q.new p.quiet q.quiet;
    few = omega (arith, spawned-append p.new q.new, p.few, q.few);
  }

  pub Adds-more : {run j k : ℕ} {t t' : Table F} → j ≤ k → Adds run j t t' → Adds run k t t'
  Adds-more h p = record {
    new = p.new;
    numbered = p.numbered;
    grown = p.grown;
    quiet = p.quiet;
    few = omega (arith, p.few);
  }

  pub Adds-team :
      {run k : ℕ} {t t' : Table F} (id : ℕ)
      → Adds run k t t'
      → created_team (view t run) ≡ some id
      → created_team (view t' run) ≡ some id
  Adds-team {run} {k} {t} id p h = rw p.grown (created_team-append (view t run) p.new id h)

  pub Adds-members :
      {run k : ℕ} {t t' : Table F}
      → Adds run k t t'
      → length (members_from ([]) (view t' run)) ≤ length (members_from ([]) (view t run)) + k
  Adds-members {run} {k} {t} p =
      rw (p.grown, members_from-append ([]) (view t run) p.new)
        (omega (arith, p.few, length-members_from (members_from ([]) (view t run)) p.new))

  redact-spawns :
      (s : Supervisor F) (e : EventData F) → spawns (redact_event s.redaction_policy e) ≡ spawns e
  unfolding redact_event
  redact-spawns s (run_started n) = refl
  redact-spawns s _ = ground arith

  -- A sequence adds what its parts add.
  pub Adds-bind :
      {A B : Type 0} {run j k : ℕ} (m : Exec F (Runtime F) A) (f : A → Exec F (Runtime F) B)
      (st : Runtime F)
      → Adds run j st.table (m st).1.table
      → ((a : A) → (m st).0 ≡ ok a → Adds run k (m st).1.table (f a (m st).1).1.table)
      → Adds run (j + k) st.table ((m >>= f) st).1.table
  Adds-bind m f st p q = elim (Result-cases (m st).0) [
    | inl (a, good) ↦ rw good (Adds-trans p (q a good))
    | inr (e, bad) ↦ rw bad (Adds-more (omega arith) p)
  ]

module _ {F : Type 0} ⦃fl : Floats F⦄ where
  -- The coordinator's event is written where the run can be read.
  pub note_lem :
      (s : Supervisor F) (run : ℕ) (e : EventData F) (st : Runtime F)
      → note s run e st ≡ elim (get_run run st.table).0 [
        | err x ↦ (err x, st)
        | ok snapshot ↦ (
          ok tt,
          record st { table = st.table ++ stamp run (version st.table run) (redacted s (e ∷ [])) },
        )
      ]
  unfolding note with_table append_control_event get_run
  note_lem s run e st = elim (Result-cases (replayed (load st.table run 0 none))) [
    | inr (x, bad) ↦ rw bad refl
    | inl (snapshot, good) ↦ rw (good, append-eq s run (e ∷ []) st.table) refl
  ]

  pub note-Adds :
      (s : Supervisor F) (run k : ℕ) (e : EventData F) (st : Runtime F)
      → is_quiet e ≡ true
      → spawns e ≤ k
      → IsNumbered st.table
      → Adds run k st.table (note s run e st).1.table
  note-Adds s run k e st q few w =
      rw (note_lem s run e st) (elim (Result-cases (get_run run st.table).0) [
        | inr (x, bad) ↦ rw bad (Adds-none w)
        | inl (snapshot, good) ↦ rw good (record {
          new = redacted s (e ∷ []);
          numbered = IsNumbered-grown st.table run (redacted s (e ∷ [])) w;
          grown = view-grown st.table run (version st.table run) (redacted s (e ∷ []));
          quiet = redacted-IsQuiet s (e ∷ []) (rw q refl);
          few = omega (arith, redact-spawns s e, few);
        })
      ])
