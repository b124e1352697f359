-- ===== src/Ternary/Padded.antt =====
-- bee-ternary/src/num_conversions.rs: numbers are read back from trits with zeros behind them.
use bee_p.Common.{
  ℕ, zero, suc, ◌-◌, ◌≤◌, ◌≡◌, ◌∙◌, refl, ap, true, List, [], ◌∷◌, ◌++◌, length, length-append,
  drop, arith, ok, ltb,
}
use bee_p.Common.Int.{ℤ, pos, neg_part, nat_abs, ◌+ℤ◌, IsI64}
use bee_p.Ternary.{
  Btrit, zeros, digits, min_trits, trits_from_i64, read_i64, read_i128, i64_try_from, all_zero,
  max_trits_in_i64,
}
use bee_p.Ternary.RoundTrip.{
  signed_parts, cast_lem, min_trits_lem, min_trits_from_lem, read_i64-digits, read_i128-digits,
  length-digits,
}

-- The trits of a number, with zeros behind them.
abbrev pub padded : ℕ → List Btrit → List Btrit
padded n xs = xs ++ zeros (n - length xs)

pub length-zeros : (n : ℕ) → length (zeros n) ≡ n
unfolding zeros
length-zeros zero = refl
length-zeros (suc n) = ap suc (length-zeros n)

pub length-padded : (n : ℕ) (xs : List Btrit) → length xs ≤ n → length (padded n xs) ≡ n
length-padded n xs h =
    omega (arith, length-append xs (zeros (n - length xs)), length-zeros (n - length xs))

read_i64-zeros : (k : ℕ) → read_i64 (zeros k) ≡ pos 0
unfolding zeros read_i64 ◌+ℤ◌
read_i64-zeros zero = refl
read_i64-zeros (suc k) = rw (read_i64-zeros k) refl

read_i128-zeros : (k : ℕ) → read_i128 (zeros k) ≡ ok (pos 0)
unfolding zeros read_i128 ◌+ℤ◌
read_i128-zeros zero = refl
read_i128-zeros (suc k) = rw (read_i128-zeros k) refl

read_i64-append : (xs : List Btrit) (k : ℕ) → read_i64 (xs ++ zeros k) ≡ read_i64 xs
unfolding read_i64
read_i64-append [] k = read_i64-zeros k
read_i64-append (x ∷ xs) k = rw (read_i64-append xs k) refl

read_i128-append : (xs : List Btrit) (k : ℕ) → read_i128 (xs ++ zeros k) ≡ read_i128 xs
unfolding read_i128
read_i128-append [] k = read_i128-zeros k
read_i128-append (x ∷ xs) k = rw (read_i128-append xs k) refl

all_zero-drop_zeros : (m k : ℕ) → all_zero (drop m (zeros k)) ≡ true
unfolding zeros
all_zero-drop_zeros zero zero = refl
all_zero-drop_zeros zero (suc k) = all_zero-drop_zeros zero k
all_zero-drop_zeros (suc m) zero = refl
all_zero-drop_zeros (suc m) (suc k) = all_zero-drop_zeros m k

all_zero-drop :
    (m k : ℕ) (xs : List Btrit) → length xs ≤ m → all_zero (drop m (xs ++ zeros k)) ≡ true
all_zero-drop m k [] h = all_zero-drop_zeros m k
all_zero-drop zero k (x ∷ xs) h = absurd (omega arith)
all_zero-drop (suc m) k (x ∷ xs) h = all_zero-drop m k xs (omega arith)

-- What reads as an `i64` and has zeros from trit 41 on is that number.
read_any :
    (ts : List Btrit) (v : ℤ)
    → 1 ≤ length ts
    → all_zero (drop max_trits_in_i64 ts) ≡ true
    → IsI64 v
    → read_i64 ts ≡ v
    → read_i128 ts ≡ ok v
    → i64_try_from ts ≡ ok v
unfolding i64_try_from
read_any ts v one zeros_behind i short wide =
    rw (short, wide, zeros_behind) (ground (arith, cast_lem v i))

-- An `i64` is read back from its trits with zeros behind them.
pub padded_roundtrip :
    (n : ℕ) (v : ℤ)
    → IsI64 v
    → length (trits_from_i64 v) ≤ n
    → i64_try_from (padded n (trits_from_i64 v)) ≡ ok v
unfolding trits_from_i64
padded_roundtrip n v i h =
    let m = min_trits (nat_abs v) in
    let negative = ltb 0 (neg_part v) in
    let xs = digits m negative (nat_abs v) in
    let k = n - length xs in
    let (enough, one, most) = min_trits_lem (nat_abs v) (ground arith) in
    let size = length-digits m negative (nat_abs v) in
    read_any (xs ++ zeros k) v (omega (arith, length-append xs (zeros k)))
      (all_zero-drop 41 k xs (omega arith)) i
      (read_i64-append xs k ∙ read_i64-digits m negative (nat_abs v) enough ∙ signed_parts v)
      (read_i128-append xs k
        ∙ read_i128-digits m negative (nat_abs v) enough (rw (signed_parts v) (ground arith))
        ∙ ap ok (signed_parts v))

-- A number takes at most 81 trits, and at most 27 if it is not too large.
pub trits_length : (v : ℤ) → IsI64 v → length (trits_from_i64 v) ≤ 41
unfolding trits_from_i64
trits_length v i = omega (
  arith,
  length-digits (min_trits (nat_abs v)) (ltb 0 (neg_part v)) (nat_abs v),
  min_trits_lem (nat_abs v) (ground arith),
)

pub trits_length_27 : (v : ℤ) → nat_abs v ≤ 3812798742493 → length (trits_from_i64 v) ≤ 27
unfolding trits_from_i64 min_trits
trits_length_27 v h = omega (
  arith,
  length-digits (min_trits (nat_abs v)) (ltb 0 (neg_part v)) (nat_abs v),
  min_trits_from_lem 26 41 (nat_abs v) 1 1 refl (omega arith) (omega arith),
)
