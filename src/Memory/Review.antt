-- ===== src/Memory/Review.antt =====
-- Reviews of memories: a rejection is final.
use loopgraph_supervisor.Prelude.{
  ℕ, ◌≡◌, Option, none, some, List, [], ◌∷◌, arith, ◌==◌, if◌then◌else◌, Option-cases, inl, inr,
}
use loopgraph_supervisor.Memory.{
  MemoryStatus, rejected, MemoryRecord, Memories, get, put_status, set_status,
}

-- The status after a review that wants one.
abbrev pub allowed : Option MemoryStatus → MemoryStatus → Option MemoryStatus
allowed none wanted = none
allowed (some rejected) wanted = some rejected
allowed (some _) wanted = some wanted

module _ {F : Type 0} where
  abbrev with_status : MemoryStatus → Option (MemoryRecord F) → Option (MemoryRecord F)
  with_status status none = none
  with_status status (some row) = some (record row { status = status })

  get-put_status :
      (id j : ℕ) (status : MemoryStatus) (t : Memories F)
      → get j (put_status id status t) ≡ (if id == j then with_status status (get j t) else get j t)
  unfolding get put_status
  get-put_status id j status [] = ground arith
  get-put_status id j status (row ∷ t) = ground (arith, get-put_status id j status t)

  get-id : (id : ℕ) (t : Memories F) (row : MemoryRecord F) → get id t ≡ some row → row.id ≡ id
  unfolding get
  get-id id [] row h = cc
  get-id id (r ∷ t) row h = ground (arith, get-id id t row)

  -- The status that a memory has, if it exists.
  unfoldable pub status_of : ℕ → Memories F → Option MemoryStatus
  status_of id t = elim (get id t) [ none ↦ none | some row ↦ some row.status ]

  -- For every memory, status and other memory: a review gives the memory the wanted status unless it
  -- was rejected, in which case it stays rejected; a memory that does not exist is not created; and
  -- no other memory's status changes.
  pub status_of-set_status :
      (t : Memories F) (id : ℕ) (wanted : MemoryStatus) (j : ℕ)
      → status_of j (set_status t id wanted).1
        ≡ (if id == j then allowed (status_of j t) wanted else status_of j t)
  unfolding status_of set_status
  status_of-set_status t id wanted j = elim (Option-cases (get id t)) [
    | inl absent ↦ ground arith
    | inr (row, found) ↦ ground (arith, get-put_status row.id j wanted t, get-id id t row found)
  ]

  -- Reviews one after the other, whatever each of them returns.
  unfoldable pub reviews : Memories F → List (ℕ × MemoryStatus) → Memories F
  reviews t [] = t
  reviews t ((id, wanted) ∷ rest) = reviews (set_status t id wanted).1 rest

  -- A rejected memory is rejected after any sequence of reviews.
  pub reviews-rejected :
      (t : Memories F) (requests : List (ℕ × MemoryStatus)) (id : ℕ)
      → status_of id t ≡ some rejected
      → status_of id (reviews t requests) ≡ some rejected
  unfolding reviews
  reviews-rejected t [] id h = h
  reviews-rejected t ((j, wanted) ∷ rest) id h =
      reviews-rejected (set_status t j wanted).1 rest id
        (ground (arith, status_of-set_status t j wanted id))
