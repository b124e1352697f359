-- ===== src/HashCache.antt =====
-- `TinyHashCache` of bee-protocol/src/worker/transaction/tiny_hash_cache.rs. `XxHash64` is a
-- parameter.
pub mod Fifo
mod Tests
use bee_p.Common.{
  ℕ, Bool, true, false, Option, none, some, List, [], ◌∷◌, ◌++◌, length, leb, ◌==◌, if◌then◌else◌,
  ◌>>=◌,
}
use bee_p.Common.Set.{has, remove, add}

pub record TinyHashCache : Type 0 where
  pub max_capacity : ℕ
  pub cache : List ℕ
  pub elem_order : List ℕ

abbrev pub new : ℕ → TinyHashCache
new max_capacity = record { max_capacity = max_capacity; cache = []; elem_order = [] }

abbrev pub contains : TinyHashCache → ℕ → Bool
contains c hash = has hash c.cache

abbrev pub len : TinyHashCache → ℕ
len c = length c.cache

-- `VecDeque::pop_front`
abbrev pub pop_front : List ℕ → Option (ℕ × List ℕ)
pop_front [] = none
pop_front (x ∷ xs) = some (x, xs)

-- The eviction of the oldest hash, whose `unwrap` panics on an empty queue.
unfoldable pub make_room : TinyHashCache → Option TinyHashCache
make_room c =
    if leb c.max_capacity (len c)
    then (do
      (first, elem_order) ← pop_front c.elem_order
      some (record c { cache = remove first c.cache; elem_order = elem_order }))
    else some c

module _ (xx_hash : List ℕ → ℕ) where
  unfoldable pub insert : List ℕ → TinyHashCache → Option (TinyHashCache × Bool)
  insert bytes c =
      let hash = xx_hash bytes in
      if contains c hash then some (c, false) else (do
        c' ← make_room c
        some (
          record c' { cache = add hash c'.cache; elem_order = c'.elem_order ++ (hash ∷ []) },
          true,
        ))

  -- A sequence of insertions, with their results.
  unfoldable pub insert_all : List (List ℕ) → TinyHashCache → Option (TinyHashCache × List Bool)
  insert_all [] c = some (c, [])
  insert_all (bytes ∷ rest) c = do
    (c', new) ← insert bytes c
    (c'', news) ← insert_all rest c'
    some (c'', new ∷ news)
