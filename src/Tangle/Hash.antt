-- ===== src/Tangle/Hash.antt =====
-- A `Hash` (bee-bundle/src/transaction/fields.rs) as a number, and back.
use bee_p.Common.{
  ℕ, zero, suc, ◌+◌, ◌*◌, ◌/◌, ◌%◌, ◌^◌, ◌<◌, ◌≡◌, refl, ap, [], ◌∷◌, length, arith, if◌then◌else◌,
  Option, some, get_elem?, ◌>>=◌,
}
use native.Mathlib.Nat.{pow-suc}
use bee_p.Bundle.Transaction.{Trits}
use bee_p.Ternary.{Btrit, is_zero}
use bee_p.Ternary.Utrit.{from_utrit, into_utrit, utrit_bound, from_utrit-into_utrit}
use bee_p.Tangle.{hash_number}

abbrev pub hash_trit_len : ℕ
hash_trit_len = 243

-- As many trits of the number.
unfoldable pub hash_trits : ℕ → ℕ → Trits
hash_trits zero number = []
hash_trits (suc k) number = from_utrit (number % 3) ∷ hash_trits k (number / 3)

-- `for i in (0..n).rev()`, up to the first trit that is not zero.
unfoldable pub weight_from : ℕ → Trits → ℕ → Option ℕ
weight_from zero trits weight = some weight
weight_from (suc i) trits weight =
    let more = weight_from i trits (weight + 1) in
    do trit ← get_elem? trits i; if is_zero trit then more else some weight

-- At most 243, which is a `u8`.
unfoldable pub hash_weight : Trits → Option ℕ
hash_weight hash = weight_from (length hash) hash 0

-- A trit is the lowest digit of the number.
number_cons :
    (t : Btrit) (n : ℕ)
    → ((into_utrit t + 3 * n) % 3 ≡ into_utrit t) × ((into_utrit t + 3 * n) / 3 ≡ n)
number_cons t n = (omega (arith, utrit_bound t), omega (arith, utrit_bound t))

-- The number of a hash stands for its trits.
pub hash_trits-hash_number : (ts : Trits) → hash_trits (length ts) (hash_number ts) ≡ ts
unfolding hash_trits hash_number
hash_trits-hash_number [] = refl
hash_trits-hash_number (t ∷ ts) =
    let (low, high) = number_cons t (hash_number ts) in
    rw (low, high, from_utrit-into_utrit t, hash_trits-hash_number ts) refl

digit_back : (n : ℕ) → into_utrit (from_utrit (n % 3)) ≡ n % 3
digit_back n = ground arith

-- A number that is small enough stands for its trits.
pub hash_number-hash_trits : (k n : ℕ) → n < 3 ^ k → hash_number (hash_trits k n) ≡ n
unfolding hash_trits hash_number
hash_number-hash_trits zero n h = omega (arith, h)
hash_number-hash_trits (suc k) n h =
    let less : n / 3 < 3 ^ k = omega (arith, pow-suc 3 k) in
    rw (digit_back n, hash_number-hash_trits k (n / 3) less) (omega arith)

pub length-hash_trits : (k n : ℕ) → length (hash_trits k n) ≡ k
unfolding hash_trits
length-hash_trits zero n = refl
length-hash_trits (suc k) n = ap suc (length-hash_trits k (n / 3))
