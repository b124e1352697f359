-- ===== src/Protocol/Queue.antt =====
-- `WaitPriorityQueue` of bee-protocol/src/util/wait_priority_queue.rs. The `BinaryHeap` is a
-- parameter: its `push` and `pop`. A waker is the number of the future that it wakes.
pub mod Wakes
use bee_p.Common.{ℕ, Bool, true, false, Option, none, some, List, [], ◌∷◌, ◌++◌}

pub record WaitPriorityQueue (H : Type 0) : Type 0 where
  pub heap : H
  pub wakers : List ℕ

-- What `BinaryHeap` documents: `pop` takes a greatest entry out, and is `none` on an empty heap.
pub record BinaryHeap (A H : Type 0) : Type 0 where
  pub push : A → H → H
  pub pop : H → Option (A × H)

module _ {A H : Type 0} (heap : BinaryHeap A H) where
  -- The waker that is woken, if one waits.
  unfoldable pub insert : A → WaitPriorityQueue H → WaitPriorityQueue H × Option ℕ
  insert entry q = elim q.wakers [
    | [] ↦ (record q { heap = heap.push entry q.heap }, none)
    | waker ∷ wakers ↦ (record { heap = heap.push entry q.heap; wakers = wakers }, some waker)
  ]

  -- `WaitFut::poll`: `none` is `Pending`.
  unfoldable pub poll : ℕ → WaitPriorityQueue H → WaitPriorityQueue H × Option A
  poll waker q = elim (heap.pop q.heap) [
    | none ↦ (record q { wakers = q.wakers ++ (waker ∷ []) }, none)
    | some (entry, rest) ↦ (record q { heap = rest }, some entry)
  ]
