-- ===== src/Ternary.antt =====
-- bee-ternary/src/trit.rs and bee-ternary/src/num_conversions.rs: balanced trits, the lowest first, and
-- the conversions between them and `i64`.
pub mod RoundTrip
pub mod Utrit
pub mod T3b1
pub mod T5b1
pub mod Padded
mod Tests
use bee_p.Common.{
  ℕ, zero, suc, ◌+◌, ◌-◌, ◌*◌, ◌/◌, ◌%◌, ◌^◌, Bool, true, false, not, ◌&&◌, ◌||◌, List, [], ◌∷◌,
  length, drop, replicate, ltb, leb, ◌==◌, if◌then◌else◌, Result, ok, err,
}
use bee_p.Common.Int.{ℤ, pos, negsuc, pos_part, neg_part, sub_ℕ, ◌+ℤ◌, as_i64, as_u64, nat_abs}

pub data Btrit : Type 0 where
  neg_one no_one plus_one : Btrit

abbrev pub is_zero : Btrit → Bool
is_zero neg_one = false
is_zero no_one = true
is_zero plus_one = false

abbrev pub same_trit : Btrit → Btrit → Bool
same_trit neg_one neg_one = true
same_trit no_one no_one = true
same_trit plus_one plus_one = true
same_trit _ _ = false

-- `-curr_trit`
abbrev pub flip : Btrit → Btrit
flip neg_one = plus_one
flip no_one = no_one
flip plus_one = neg_one

abbrev pub trit_value : Btrit → ℤ
trit_value neg_one = negsuc 0
trit_value no_one = pos 0
trit_value plus_one = pos 1

-- `TritBuf::zeros`
unfoldable pub zeros : ℕ → List Btrit
zeros zero = []
zeros (suc n) = no_one ∷ zeros n

abbrev pub max_trits_in_i64 : ℕ
max_trits_in_i64 = 41

-- The loop of `min_trits`, with fuel.
unfoldable pub min_trits_from : ℕ → ℕ → ℕ → ℕ → ℕ
min_trits_from zero value num vp = num
min_trits_from (suc fuel) value num vp =
    let more = min_trits_from fuel value (num + 1) (vp * 3 + 1) in
    if ltb vp value then more else num

unfoldable pub min_trits : ℕ → ℕ
min_trits value = min_trits_from 41 value 1 1

-- `((value_abs + 1) % RADIX) as i8 - 1`
abbrev pub curr_trit : ℕ → Btrit
curr_trit value_abs =
    if (value_abs + 1) % 3 == 0
    then neg_one
    else if (value_abs + 1) % 3 == 1
    then no_one
    else plus_one

-- The loop of `from` over the positions that are left.
unfoldable pub digits : ℕ → Bool → ℕ → List Btrit
digits zero negative value_abs = []
digits (suc n) negative value_abs =
    if value_abs == 0
    then replicate (suc n) no_one
    else (if negative then flip (curr_trit value_abs) else curr_trit value_abs)
      ∷ digits n negative ((value_abs + 1) / 3)

-- `TritBuf::<T1B1Buf>::from`
unfoldable pub trits_from_i64 : ℤ → List Btrit
trits_from_i64 value = digits (min_trits (nat_abs value)) (ltb 0 (neg_part value)) (nat_abs value)

pub data TritsI64ConversionError : Type 0 where
  empty_trits abs_value_too_big : TritsI64ConversionError

abbrev pub all_zero : List Btrit → Bool
all_zero [] = true
all_zero (t ∷ ts) = if not (is_zero t) then false else all_zero ts

-- `accum * RADIX + trit_value`
abbrev pub push_trit : ℤ → Btrit → ℤ
push_trit accum trit = sub_ℕ (3 * pos_part accum) (3 * neg_part accum) +ℤ trit_value trit

-- The lower bound is one below that of an `i64`.
abbrev pub is_too_big : ℤ → Bool
is_too_big accum = ltb (2 ^ 63 - 1) (pos_part accum) || ltb (2 ^ 63 + 1) (neg_part accum)

-- The loop on `i128`, from the highest trit down.
unfoldable pub read_i128 : List Btrit → Result TritsI64ConversionError ℤ
read_i128 [] = ok (pos 0)
read_i128 (t ∷ ts) = elim (read_i128 ts) [
  | err e ↦ err e
  | ok accum ↦
      if is_too_big (push_trit accum t) then err abs_value_too_big else ok (push_trit accum t)
]

-- The loop on `i64`, which 40 trits cannot make overflow.
unfoldable pub read_i64 : List Btrit → ℤ
read_i64 [] = pos 0
read_i64 (t ∷ ts) = push_trit (read_i64 ts) t

abbrev pub cast : Result TritsI64ConversionError ℤ → Result TritsI64ConversionError ℤ
cast (err e) = err e
cast (ok accum) = ok (as_i64 (as_u64 accum))

-- `i64::try_from`
unfoldable pub i64_try_from : List Btrit → Result TritsI64ConversionError ℤ
i64_try_from trits =
    if length trits == 0
    then err empty_trits
    else if ltb max_trits_in_i64 (length trits) && not (all_zero (drop max_trits_in_i64 trits))
    then err abs_value_too_big
    else if leb max_trits_in_i64 (length trits)
    then cast (read_i128 trits)
    else ok (read_i64 trits)
