-- ===== src/Ternary/RoundTrip.antt =====
-- bee-ternary/src/num_conversions.rs: from an `i64` to trits and back.
use mathlib.Core.Path.{subst}
use bee_p.Common.{
  inr, inl, ap, ℕ, zero, suc, ◌+◌, ◌*◌, ◌/◌, ◌^◌, ◌≤◌, ◌<◌, ◌≡◌, refl, sym, ◌∙◌, Bool, true, false,
  List, ◌∷◌, length, replicate, length-replicate, arith, ok, dec_lt, Bool-cases, if◌then◌else◌, ltb,
}
use bee_p.Common.Int.{ℤ, pos, negsuc, neg_part, sub_ℕ, ◌+ℤ◌, as_i64, as_u64, nat_abs, IsI64}
use bee_p.Ternary.{
  Btrit, no_one, min_trits_from, min_trits, curr_trit, digits, trits_from_i64, read_i64, read_i128,
  push_trit, i64_try_from, flip, is_too_big,
}

-- a number with a sign
abbrev pub signed : Bool → ℕ → ℤ
signed true n = sub_ℕ 0 n
signed false n = pos n

-- The largest number that `n` trits hold.
abbrev pub top : ℕ → ℕ
top zero = 0
top (suc n) = 3 * top n + 1

push_digit :
    (negative : Bool) (a : ℕ)
    → push_trit
        (signed negative ((a + 1) / 3))
        (if negative then flip (curr_trit a) else curr_trit a)
      ≡ signed negative a
unfolding ◌+ℤ◌
push_digit true a = ground arith
push_digit false a = ground arith

pub length-digits : (n : ℕ) (negative : Bool) (a : ℕ) → length (digits n negative a) ≡ n
unfolding digits
length-digits zero negative a = refl
length-digits (suc n) negative a =
    ground (arith, length-digits n negative ((a + 1) / 3), length-replicate n no_one)

read_i64-replicate : (n : ℕ) → read_i64 (replicate n no_one) ≡ pos 0
unfolding read_i64 ◌+ℤ◌
read_i64-replicate zero = refl
read_i64-replicate (suc n) = rw (read_i64-replicate n) refl

read_i128-replicate : (n : ℕ) → read_i128 (replicate n no_one) ≡ ok (pos 0)
unfolding read_i128 ◌+ℤ◌
read_i128-replicate zero = refl
read_i128-replicate (suc n) = rw (read_i128-replicate n) refl

signed_zero : (negative : Bool) → signed negative 0 ≡ pos 0
signed_zero true = refl
signed_zero false = refl

abbrev digit : Bool → ℕ → Btrit
digit negative a = if negative then flip (curr_trit a) else curr_trit a

digits_zero : (n : ℕ) (negative : Bool) → digits n negative 0 ≡ replicate n no_one
unfolding digits
digits_zero zero negative = refl
digits_zero (suc n) negative = refl

digits_more :
    (n a : ℕ) (negative : Bool)
    → 0 < a
    → digits (suc n) negative a ≡ digit negative a ∷ digits n negative ((a + 1) / 3)
unfolding digits
digits_more n a negative h = ground arith

read_i64_more :
    (t : Btrit) (ts : List Btrit) (x y : ℤ)
    → read_i64 ts ≡ x
    → push_trit x t ≡ y
    → read_i64 (t ∷ ts) ≡ y
unfolding read_i64
read_i64_more t ts x y h e = rw (h) e

read_i128_more :
    (t : Btrit) (ts : List Btrit) (x y : ℤ)
    → read_i128 ts ≡ ok x
    → push_trit x t ≡ y
    → is_too_big y ≡ false
    → read_i128 (t ∷ ts) ≡ ok y
unfolding read_i128
read_i128_more t ts x y h e z = rw (h, e, z) refl

-- Enough trits hold a number.
pub read_i64-digits :
    (n : ℕ) (negative : Bool) (a : ℕ)
    → a ≤ top n
    → read_i64 (digits n negative a) ≡ signed negative a
read_i64-digits zero negative a h =
    let z : a ≡ 0 = ground arith in
    rw (z, digits_zero zero negative, signed_zero negative, read_i64-replicate zero) refl
read_i64-digits (suc n) negative a h = elim (dec_lt 0 a) [
  | yes z ↦ rw (digits_more n a negative z) (
      read_i64_more (digit negative a) (digits n negative ((a + 1) / 3))
        (signed negative ((a + 1) / 3)) (signed negative a)
        (read_i64-digits n negative ((a + 1) / 3) (ground arith)) (push_digit negative a))
  | no z ↦
      let z : a ≡ 0 = ground arith in
      rw (z, digits_zero (suc n) negative, signed_zero negative, read_i64-replicate (suc n)) refl
]

third_fits :
    (negative : Bool) (a : ℕ)
    → 0 < a
    → is_too_big (signed negative a) ≡ false
    → is_too_big (signed negative ((a + 1) / 3)) ≡ false
third_fits true a h b = ground arith
third_fits false a h b = ground arith

-- The same for the loop on `i128`, of the numbers that an `i64` holds.
pub read_i128-digits :
    (n : ℕ) (negative : Bool) (a : ℕ)
    → a ≤ top n
    → is_too_big (signed negative a) ≡ false
    → read_i128 (digits n negative a) ≡ ok (signed negative a)
read_i128-digits zero negative a h b =
    let z : a ≡ 0 = ground arith in
    rw (z, digits_zero zero negative, signed_zero negative, read_i128-replicate zero) refl
read_i128-digits (suc n) negative a h b = elim (dec_lt 0 a) [
  | yes z ↦ rw (digits_more n a negative z) (
      read_i128_more (digit negative a) (digits n negative ((a + 1) / 3))
        (signed negative ((a + 1) / 3)) (signed negative a)
        (read_i128-digits n negative ((a + 1) / 3) (ground arith) (third_fits negative a z b))
        (push_digit negative a) b)
  | no z ↦
      let z : a ≡ 0 = ground arith in
      rw (z, digits_zero (suc n) negative, signed_zero negative, read_i128-replicate (suc n)) refl
]

add_zero : (n : ℕ) → 0 + n ≡ n
add_zero n = ground arith

-- The loop of `min_trits` ends with enough trits, when `k` more are enough.
pub min_trits_from_lem :
    (k fuel value num vp : ℕ)
    → vp ≡ top num
    → k ≤ fuel
    → value ≤ top (k + num)
    → (value ≤ top (min_trits_from fuel value num vp))
      × (num ≤ min_trits_from fuel value num vp)
      × (min_trits_from fuel value num vp ≤ k + num)
unfolding min_trits_from
min_trits_from_lem zero zero value num vp e h t =
    (subst (λ x. value ≤ top x) (add_zero num) t, ground arith, ground arith)
min_trits_from_lem (suc k) zero value num vp e h t = ground arith
min_trits_from_lem zero (suc fuel) value num vp e h t =
    let enough : value ≤ top num = subst (λ x. value ≤ top x) (add_zero num) t in
    let c : ltb vp value ≡ false = ground arith in rw (c) (enough, ground arith, ground arith)
min_trits_from_lem (suc k) (suc fuel) value num vp e h t = elim (Bool-cases (ltb vp value)) [
  | inl c ↦
      let move : suc k + num ≡ k + (num + 1) = ground arith in
      let ih =
        min_trits_from_lem k fuel value (num + 1) (vp * 3 + 1) (rw (e) ground arith) (ground arith)
          (subst (λ x. value ≤ top x) move t) in
      rw (c) (ih.0, ground (arith, ih.1), ground (arith, ih.1))
  | inr c ↦ rw (c) (rw (sym e) ground arith, ground arith, ground arith)
]

pub min_trits_lem :
    (value : ℕ)
    → value ≤ 2 ^ 63
    → (value ≤ top (min_trits value)) × (1 ≤ min_trits value) × (min_trits value ≤ 41)
unfolding min_trits
min_trits_lem value h = min_trits_from_lem 40 41 value 1 1 refl (ground arith) (ground arith)

pub signed_parts : (v : ℤ) → signed (ltb 0 (neg_part v)) (nat_abs v) ≡ v
signed_parts (pos n) = ground arith
signed_parts (negsuc n) = ground arith

pub cast_lem : (v : ℤ) → IsI64 v → as_i64 (as_u64 v) ≡ v
unfolding as_i64 as_u64
cast_lem (pos n) h = ground arith
cast_lem (negsuc n) h = ground arith

read_either :
    (ts : List Btrit) (v : ℤ)
    → 1 ≤ length ts
    → length ts ≤ 41
    → IsI64 v
    → read_i64 ts ≡ v
    → read_i128 ts ≡ ok v
    → i64_try_from ts ≡ ok v
unfolding i64_try_from
read_either ts v one most i short wide = rw (short, wide) ground (arith, cast_lem v i)

-- The trits of an `i64` read back as that `i64`, `i64::MIN` and `i64::MAX` included.
pub i64_roundtrip : (v : ℤ) → IsI64 v → i64_try_from (trits_from_i64 v) ≡ ok v
unfolding trits_from_i64
i64_roundtrip v i =
    let n = min_trits (nat_abs v) in
    let negative = ltb 0 (neg_part v) in
    let enough : (nat_abs v ≤ top n) × (1 ≤ n) × (n ≤ 41) =
      min_trits_lem (nat_abs v) (ground arith) in
    read_either (digits n negative (nat_abs v)) v
      (ground (arith, length-digits n negative (nat_abs v)))
      (ground (arith, length-digits n negative (nat_abs v))) i
      (read_i64-digits n negative (nat_abs v) (enough.0) ∙ signed_parts v)
      (read_i128-digits n negative (nat_abs v) (enough.0) (rw (signed_parts v) ground arith)
        ∙ ap ok (signed_parts v))
