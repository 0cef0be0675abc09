-- ===== src/EventStore.antt =====
-- src/loopgraph_supervisor/infrastructure/event_store.py. The table `run_events` is the list of its
-- rows in the order of insertion. A transaction that raises leaves the table as it was.
pub mod Rows
pub mod Streams
use loopgraph_supervisor.Prelude.{
  ℕ, zero, suc, ◌+◌, Bool, true, false, ◌&&◌, Option, none, some, List, [], ◌∷◌, ◌++◌, max, leb,
  ltb, ◌==◌, if◌then◌else◌, keep, any, take, order_by,
}
use loopgraph_supervisor.Domain.Events.{NewEvent, StoredEvent}

abbrev pub Table : Type 0 → Type 0
Table F = List (StoredEvent F)

-- `EventStoreConcurrencyError`, or the stored events.
pub data AppendResult (F : Type 0) : Type 0 where
  stored : List (StoredEvent F) → AppendResult F
  concurrency_error : (run_id expected_version actual_version : ℕ) → AppendResult F

module _ {F : Type 0} where
  -- `coalesce(max(sequence), 0)` of a run's rows
  unfoldable pub version : Table F → ℕ → ℕ
  version [] run = 0
  version (e ∷ t) run =
      let rest = version t run in if e.run_id == run then max e.sequence rest else rest

  -- `StoredEvent(..., sequence=actual_version + offset)` with the offsets from 1
  unfoldable pub stamp : ℕ → ℕ → List (NewEvent F) → List (StoredEvent F)
  stamp run actual [] = []
  stamp run actual (e ∷ es) =
      record { run_id = run; sequence = suc actual; event = e } ∷ stamp run (suc actual) es

  -- the constraint `uq_run_event_sequence`
  same_key : StoredEvent F → StoredEvent F → Bool
  same_key a b = a.run_id == b.run_id && a.sequence == b.sequence

  unfoldable pub violates : Table F → List (StoredEvent F) → Bool
  unfolding same_key
  violates t new = any (λ e. any (same_key e) t) new

  unfoldable pub append : Table F → ℕ → ℕ → List (NewEvent F) → AppendResult F × Table F
  unfolding violates
  append t run expected [] = (stored [], t)
  append t run expected (e ∷ es) =
      let actual = version t run in
      let new = stamp run actual (e ∷ es) in
      if actual == expected
      then (if violates t new
          then (concurrency_error run expected actual, t)
          else (stored new, t ++ new))
      else (concurrency_error run expected actual, t)

  -- `ORDER BY sequence`
  order_by_sequence : List (StoredEvent F) → List (StoredEvent F)
  unfolding order_by
  order_by_sequence = order_by (λ e. e.sequence)

  unfoldable pub limited : Option ℕ → List (StoredEvent F) → List (StoredEvent F)
  limited none es = es
  limited (some n) es = take n es

  unfoldable pub load :
      Table F → ℕ → (after_sequence : ℕ) → (limit : Option ℕ) → List (StoredEvent F)
  unfolding order_by_sequence limited
  load t run after limit =
      limited limit (order_by_sequence (keep (λ e. e.run_id == run && ltb after e.sequence) t))
