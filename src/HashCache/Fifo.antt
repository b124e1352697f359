-- ===== src/HashCache/Fifo.antt =====
-- `TinyHashCache` of bee-protocol/src/worker/transaction/tiny_hash_cache.rs as a bounded queue.
use bee_p.Common.{
  not, ℕ, ◌≤◌, ◌≡◌, refl, Bool, false, none, some, List, [], ◌∷◌, ◌++◌, length, leb, if◌then◌else◌,
  arith,
}
use bee_p.HashCache.{TinyHashCache, make_room, insert}
use bee_p.Common.Set.{has, remove, add, HasOnce}

-- Each hash once, and at most as many as the capacity, which is not 0.
pub record IsQueue (capacity : ℕ) (queue : List ℕ) : Type 0 where
  pub once : HasOnce queue
  pub bounded : length queue ≤ capacity
  pub positive : 1 ≤ capacity

remove-absent : (x : ℕ) (xs : List ℕ) → has x xs ≡ false → remove x xs ≡ xs
unfolding has remove
remove-absent x [] h = refl
remove-absent x (y ∷ ys) h = ground (arith, remove-absent x ys)

-- The queue with room for one more.
abbrev pub evict : ℕ → List ℕ → List ℕ
evict capacity [] = []
evict capacity (x ∷ xs) = if leb capacity (length (x ∷ xs)) then xs else x ∷ xs

-- One insertion into a queue of hashes: a hash that is there changes nothing; another one goes to the
-- back, behind the eviction of the oldest if the queue is full.
abbrev pub enqueue : ℕ → ℕ → List ℕ → List ℕ
enqueue capacity hash queue = if has hash queue then queue else evict capacity queue ++ (hash ∷ [])

abbrev pub queued : ℕ → List ℕ → TinyHashCache
queued capacity queue = record { max_capacity = capacity; cache = queue; elem_order = queue }

evict-absent :
    (capacity x : ℕ) (queue : List ℕ) → has x queue ≡ false → has x (evict capacity queue) ≡ false
unfolding has
evict-absent capacity x [] h = refl
evict-absent capacity x (y ∷ ys) h = ground arith

make_room-evict :
    (capacity : ℕ) (queue : List ℕ)
    → IsQueue capacity queue
    → make_room (queued capacity queue) ≡ some (queued capacity (evict capacity queue))
unfolding make_room remove
make_room-evict capacity [] q = ground (arith, q.positive)
make_room-evict capacity (x ∷ xs) q = ground (arith, remove-absent x xs q.once.0)

module _ (xx_hash : List ℕ → ℕ) where
  pub insert-enqueue :
      (capacity : ℕ) (queue bytes : List ℕ)
      → IsQueue capacity queue
      → insert xx_hash bytes (queued capacity queue)
        ≡ some (
          queued capacity (enqueue capacity (xx_hash bytes) queue),
          not (has (xx_hash bytes) queue),
        )
  unfolding insert add
  insert-enqueue capacity queue bytes q =
      ground (arith, make_room-evict capacity queue q, evict-absent capacity (xx_hash bytes) queue)

  -- The queue after some insertions, and which of them were new.
  abbrev pub enqueue_all : ℕ → List (List ℕ) → List ℕ → List ℕ
  enqueue_all capacity [] queue = queue
  enqueue_all capacity (bytes ∷ rest) queue =
      enqueue_all capacity rest (enqueue capacity (xx_hash bytes) queue)

  abbrev pub new_ones : ℕ → List (List ℕ) → List ℕ → List Bool
  new_ones capacity [] queue = []
  new_ones capacity (bytes ∷ rest) queue =
      not (has (xx_hash bytes) queue)
      ∷ new_ones capacity rest (enqueue capacity (xx_hash bytes) queue)

  -- A cache of capacity 0 panics on its first insertion.
  pub insert_zero_capacity : (bytes : List ℕ) → insert xx_hash bytes (queued 0 []) ≡ none
  unfolding insert make_room has
  insert_zero_capacity bytes = refl
