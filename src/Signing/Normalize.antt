-- ===== src/Signing/Normalize.antt =====
-- bee-signing/src/normalize.rs. A panic, on a hash that is too short, is `none`.
pub mod Balanced
pub mod Idempotent
use bee_p.Common.{◌*◌, ℕ, zero, suc, Option, none, some, List, [], ◌∷◌, ◌++◌, if◌then◌else◌, ◌>>=◌}
use bee_p.Common.Int.{ℤ, pos, negsuc, pos_part, neg_part, ◌+ℤ◌, sub_ℕ, ltb_ℤ}
use bee_p.Ternary.{Btrit, trit_value}
use bee_p.Ternary.T3b1.{encode_t1b1}

abbrev pub min_tryte_value : ℤ
min_tryte_value = negsuc 12

abbrev pub max_tryte_value : ℤ
max_tryte_value = pos 13

abbrev pub security_level_max : ℕ
security_level_max = 3

abbrev pub normalized_fragment_length : ℕ
normalized_fragment_length = 27

-- `trit * n`
abbrev pub times : ℕ → Btrit → ℤ
times n t = sub_ℕ (n * pos_part (trit_value t)) (n * neg_part (trit_value t))

abbrev pub tryte_of : Btrit → Btrit → Btrit → ℤ
tryte_of a b c = trit_value a +ℤ times 3 b +ℤ times 9 c

-- The first loop over a fragment, and the trits behind it.
unfoldable pub read_trytes : ℕ → List Btrit → Option (List ℤ × List Btrit)
read_trytes zero trits = some ([], trits)
read_trytes (suc n) (a ∷ b ∷ c ∷ trits) = do
  (fragment, rest) ← read_trytes n trits
  some (tryte_of a b c ∷ fragment, rest)
read_trytes (suc n) _ = none

-- 27 numbers from -13 to 13, which an `i16` can sum up.
unfoldable pub sum_of : List ℤ → ℤ
sum_of [] = pos 0
sum_of (x ∷ xs) = x +ℤ sum_of xs

-- `-= 1` on the first tryte that is above the least one, then `break`.
unfoldable pub lower : List ℤ → List ℤ
lower [] = []
lower (x ∷ xs) =
    let rest = lower xs in if ltb_ℤ min_tryte_value x then (x +ℤ negsuc 0) ∷ xs else x ∷ rest

unfoldable pub raise : List ℤ → List ℤ
raise [] = []
raise (x ∷ xs) =
    let rest = raise xs in if ltb_ℤ x max_tryte_value then (x +ℤ pos 1) ∷ xs else x ∷ rest

-- `while sum > 0`
unfoldable pub lower_by : ℕ → List ℤ → List ℤ
lower_by zero fragment = fragment
lower_by (suc sum) fragment = lower_by sum (lower fragment)

-- `while sum < 0`
unfoldable pub raise_by : ℕ → List ℤ → List ℤ
raise_by zero fragment = fragment
raise_by (suc sum) fragment = raise_by sum (raise fragment)

unfoldable pub balance : List ℤ → List ℤ
balance fragment =
    if ltb_ℤ (pos 0) (sum_of fragment)
    then lower_by (pos_part (sum_of fragment)) fragment
    else raise_by (neg_part (sum_of fragment)) fragment

-- The loop over the fragments.
unfoldable pub normalize_fragments : ℕ → List Btrit → Option (List ℤ)
normalize_fragments zero trits = some []
normalize_fragments (suc levels) trits = do
  (fragment, rest) ← read_trytes normalized_fragment_length trits
  more ← normalize_fragments levels rest
  some (balance fragment ++ more)

unfoldable pub normalize_hash : List Btrit → Option (List Btrit)
normalize_hash hash = do
  normalized ← normalize_fragments security_level_max hash
  some (encode_t1b1 normalized)
