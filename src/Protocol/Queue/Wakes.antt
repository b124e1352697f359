-- ===== src/Protocol/Queue/Wakes.antt =====
-- The wakers that wait in a queue of bee-protocol/src/util/wait_priority_queue.rs.
use bee_p.Common.{
  ℕ, suc, ◌+◌, ◌≡◌, ◌⊎◌, inl, inr, refl, none, some, List, [], ◌∷◌, ◌++◌, ◌∙◌, ap, arith,
}
use bee_p.Protocol.Queue.{WaitPriorityQueue, BinaryHeap, insert, poll}

-- `push` adds an entry, and `pop` takes one out unless there is none.
pub record IsHeap {A H : Type 0} (heap : BinaryHeap A H) (size : H → ℕ) : Type 0 where
  pub size-push : (entry : A) (h : H) → size (heap.push entry h) ≡ size h + 1
  pub size-pop :
      (h : H)
      → ((heap.pop h ≡ none) × (size h ≡ 0))
        ⊎ ((entry : A) × (rest : H) × (heap.pop h ≡ some (entry, rest)) × (size h ≡ size rest + 1))

module _ {A H : Type 0} (heap : BinaryHeap A H) where
  -- The waker is registered again by each poll of an empty queue.
  poll-empty :
      (h : H) (wakers : List ℕ) (waker : ℕ)
      → heap.pop h ≡ none
      → poll heap waker (record { heap = h; wakers = wakers })
        ≡ (record { heap = h; wakers = wakers ++ (waker ∷ []) }, none)
  unfolding poll
  poll-empty h wakers waker e = rw (poll, e) refl

  -- An entry that is in the heap is taken by a poll.
  poll-full :
      (size : H → ℕ) (h : H) (wakers : List ℕ) (waker n : ℕ)
      → IsHeap heap size
      → size h ≡ suc n
      → (entry : A) × (rest : H) × (poll heap waker (record { heap = h; wakers = wakers })
          ≡ (record { heap = rest; wakers = wakers }, some entry))
        × (size rest ≡ n)
  unfolding poll
  poll-full size h wakers waker n l full = elim (l.size-pop h) [
    | inl (_, none_left) ↦ absurd (omega arith)
    | inr (entry, rest, e, less) ↦ (entry, rest, rw (poll, e) refl, omega arith)
  ]

  -- One future polls twice, as a future in a `select!` does that another branch has woken, and then
  -- another future polls.
  abbrev pub polled : ℕ → ℕ → WaitPriorityQueue H → WaitPriorityQueue H
  polled first second q = (poll heap second (poll heap first (poll heap first q).0).0).0

  polled-empty :
      (h : H) (first second : ℕ)
      → heap.pop h ≡ none
      → polled first second (record { heap = h; wakers = [] })
        ≡ record { heap = h; wakers = first ∷ first ∷ second ∷ [] }
  polled-empty h first second e =
      ap (λ q. (poll heap second q).0) twice
      ∙ ap (λ r. r.0) (poll-empty h (first ∷ first ∷ []) second e)
    where
      once :
          (poll heap first (record { heap = h; wakers = [] })).0
          ≡ record { heap = h; wakers = first ∷ [] }
      once = ap (λ r. r.0) (poll-empty h [] first e)

      twice :
          (poll heap first (poll heap first (record { heap = h; wakers = [] })).0).0
          ≡ record { heap = h; wakers = first ∷ first ∷ [] }
      twice =
          ap (λ q. (poll heap first q).0) once ∙ ap (λ r. r.0) (poll-empty h (first ∷ []) first e)

  -- When one future has polled an empty queue without wakers twice, and then another one once, each of two
  -- insertions wakes the first one. Once that has polled again and taken an entry, one entry is left, and the
  -- other future, which nothing has woken, still waits.
  pub second_future_waits :
      (size : H → ℕ) (h : H) (first second : ℕ) (a b : A)
      → IsHeap heap size
      → size h ≡ 0
      → (entry : A) × (rest : H) × (wakers : List ℕ) × ((insert heap a
            (polled first second (record { heap = h; wakers = [] }))).1
          ≡ some first)
        × ((insert heap b
              (insert heap a (polled first second (record { heap = h; wakers = [] }))).0).1
            ≡ some first)
        × (poll heap first
              (insert heap b
                (insert heap a (polled first second (record { heap = h; wakers = [] }))).0).0
            ≡ (record { heap = rest; wakers = wakers }, some entry))
        × (size rest ≡ 1)
        × (wakers ≡ second ∷ [])
  unfolding insert
  second_future_waits size h first second a b l none_yet = elim (l.size-pop h) [
    | inr (entry, rest, e, less) ↦ absurd (omega arith)
    | inl (e, _) ↦
        let full = heap.push b (heap.push a h) in
        let two : size full ≡ suc 1 =
          omega (arith, l.size-push b (heap.push a h), l.size-push a h) in
        let (entry, rest, taken, one) = poll-full size full (second ∷ []) first 1 l two in
        (
          entry,
          rest,
          second ∷ [],
          rw (polled-empty h first second e) refl,
          rw (polled-empty h first second e) refl,
          rw (polled-empty h first second e) taken,
          one,
          refl,
        )
  ]
