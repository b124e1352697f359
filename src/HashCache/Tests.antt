-- ===== src/HashCache/Tests.antt =====
-- The theorems about the hash cache at concrete inputs.
use bee_p.Common.{ℕ, ◌≡◌, refl, true, false, List, [], ◌∷◌}
use bee_p.Common.Set.{has}
use bee_p.HashCache.Fifo.{new_ones}

-- a hash of three values
abbrev short_hash : List ℕ → ℕ
short_hash [] = 0
short_hash (x ∷ xs) = x

abbrev inputs : List (List ℕ)
inputs = (1 ∷ []) ∷ (2 ∷ []) ∷ (1 ∷ 5 ∷ []) ∷ (3 ∷ []) ∷ (1 ∷ []) ∷ []

-- The third input is known; the fourth drops the first, which is new again then.
kinds : new_ones short_hash 2 inputs [] ≡ true ∷ true ∷ false ∷ true ∷ true ∷ []
unfolding has
kinds = refl
