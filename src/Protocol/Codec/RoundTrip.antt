-- ===== src/Protocol/Codec/RoundTrip.antt =====
-- What one node writes into a message, the other reads from it.
use bee_p.Common.{
  suc, suc, ◌+◌, ◌-◌, ◌*◌, ◌/◌, ◌%◌, ◌≤◌, ◌≡◌, refl, some, List, [], ◌∷◌, length, All, Bool, ok,
  arith, ◌∙◌, ap,
}
use bee_p.Common.Int.{ℤ, pos, negsuc}
use bee_p.Ternary.T5b1.{encode_t5b1}
use bee_p.Ternary.T5b1.Places.{IsByte}
use bee_p.Ternary.T5b1.RoundTrip.{encode_t5b1-IsPacked, try_from_raw-encode_t5b1}
use bee_p.Bundle.Transaction.{Trits, Transaction}
use bee_p.Bundle.FromTrits.{from_trits}
use bee_p.Bundle.IntoTrits.Writes.{IsValid}
use bee_p.Bundle.IntoTrits.RoundTrip.{transaction_roundtrip}
use bee_p.Message.Compression.RoundTrip.{compress_roundtrip}
use bee_p.Message.TransactionBroadcast.{TransactionBroadcast}
use bee_p.Protocol.Codec.{
  as_u8, as_i8, cast_u8, cast_i8, encode_bytes, decode_bytes, encode_broadcast, decode_broadcast,
}

as_i8-as_u8 : (x : ℤ) → IsByte x → as_i8 (as_u8 x) ≡ x
as_i8-as_u8 (pos n) (a, b) = let e : n % 256 ≡ n = omega arith in rw (e) (ground arith)
as_i8-as_u8 (negsuc n) (a, b) =
    let e : n % 256 ≡ n = omega arith in
    let f : 255 - (255 - n) ≡ n = omega arith in rw (e) (ground arith)

cast_i8-cast_u8 : (xs : List ℤ) → All IsByte xs → cast_i8 (cast_u8 xs) ≡ xs
unfolding cast_i8 cast_u8
cast_i8-cast_u8 [] h = refl
cast_i8-cast_u8 (x ∷ xs) (b, h) = rw (as_i8-as_u8 x b, cast_i8-cast_u8 xs h) refl

length-cast_u8 : (xs : List ℤ) → length (cast_u8 xs) ≡ length xs
unfolding cast_u8
length-cast_u8 [] = refl
length-cast_u8 (x ∷ xs) = ap suc (length-cast_u8 xs)

-- Trits that are written as bytes are read back from them, by their number.
pub decode_bytes-encode_bytes :
    (trits : Trits)
    → (length (encode_bytes trits) ≡ (length trits + 4) / 5)
      × (decode_bytes (encode_bytes trits) (length trits) ≡ some trits)
unfolding decode_bytes encode_bytes
decode_bytes-encode_bytes trits =
    let (size, _, raw, read) = try_from_raw-encode_t5b1 trits in
    let p = encode_t5b1-IsPacked trits in
    (
      length-cast_u8 (encode_t5b1 trits).bytes ∙ size,
      rw (cast_i8-cast_u8 (encode_t5b1 trits).bytes p.bytes_valid, raw, read) refl,
    )

-- A valid transaction that a responder writes into a broadcast fits into it, and is what the
-- transaction worker of another node reads from that broadcast.
pub broadcast_roundtrip :
    (checks : Bool) (t : Transaction)
    → IsValid t
    → (m : TransactionBroadcast) × (encode_broadcast t ≡ some m)
      × (292 ≤ length m.transaction)
      × (length m.transaction ≤ 1604)
      × (trits : Trits) × (decode_broadcast m ≡ some (some trits))
      × (from_trits checks trits ≡ some (ok t))
unfolding encode_broadcast decode_broadcast
broadcast_roundtrip checks t v =
    let (trits, written, size, read) = transaction_roundtrip checks t v in
    let (bytes, back) = decode_bytes-encode_bytes trits in
    let full : length (encode_bytes trits) ≡ 1604 = omega arith in
    let (compressed, e, u, low, high) = compress_roundtrip (encode_bytes trits) full in
    let same : length (encode_bytes trits) * 5 - 1 ≡ length trits = omega arith in
    (
      record { transaction = compressed },
      rw (written, e) refl,
      low,
      high,
      trits,
      rw (u, same, back) refl,
      read,
    )
