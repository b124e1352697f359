-- ===== src/Ternary/Tests.antt =====
-- The theorems about trits at concrete inputs.
use bee_p.Common.{length, length, some, true, ◌+◌, ◌-◌, ◌^◌, ◌≡◌, refl, [], ◌∷◌, arith, ok}
use bee_p.Common.Int.{◌+ℤ◌, as_i64, as_u64, pos, negsuc}
use bee_p.Ternary.{
  read_i128, neg_one, plus_one, min_trits_from, min_trits, digits, trits_from_i64, i64_try_from,
}
use bee_p.Ternary.T5b1.{encode_t5b1, decode_t5b1, try_from_raw}
use bee_p.Ternary.T5b1.RoundTrip.{try_from_raw-encode_t5b1}
use bee_p.Ternary.RoundTrip.{i64_roundtrip}

five_lem : trits_from_i64 (pos 5) ≡ neg_one ∷ neg_one ∷ plus_one ∷ []
unfolding trits_from_i64 min_trits min_trits_from digits
five_lem = refl

i64_roundtrip_example :
    i64_try_from (trits_from_i64 (negsuc (2 ^ 63 - 1))) ≡ ok (negsuc (2 ^ 63 - 1))
i64_roundtrip_example = i64_roundtrip (negsuc (2 ^ 63 - 1)) (ground arith)

-- One below `i64::MIN` passes the test on the range and is cast to `i64::MAX`.
below_min_lem : i64_try_from (digits 41 true (2 ^ 63 + 1)) ≡ ok (pos (2 ^ 63 - 1))
unfolding digits i64_try_from read_i128 ◌+ℤ◌ as_i64 as_u64
below_min_lem = refl

try_from_raw-encode_t5b1_example :
    (length (encode_t5b1 (neg_one ∷ plus_one ∷ [])).bytes ≡ 1)
    × ((encode_t5b1 (neg_one ∷ plus_one ∷ [])).len ≡ 2)
    × (try_from_raw (encode_t5b1 (neg_one ∷ plus_one ∷ [])).bytes 2
        ≡ some (encode_t5b1 (neg_one ∷ plus_one ∷ [])))
    × (decode_t5b1 (encode_t5b1 (neg_one ∷ plus_one ∷ [])) ≡ neg_one ∷ plus_one ∷ [])
try_from_raw-encode_t5b1_example = try_from_raw-encode_t5b1 (neg_one ∷ plus_one ∷ [])
