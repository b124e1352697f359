-- ===== src/Protocol/Codec.antt =====
-- The transactions and hashes as they are in the messages: the conversions that
-- bee-protocol/src/worker/{transaction,responder,requester}/ write out.
pub mod RoundTrip
use bee_p.Common.{
  ℕ, ◌+◌, ◌-◌, ◌*◌, ◌%◌, Option, none, some, List, [], ◌∷◌, length, ltb, if◌then◌else◌, ◌>>=◌,
}
use bee_p.Common.Int.{ℤ, pos, negsuc}
use bee_p.Ternary.{zeros}
use bee_p.Ternary.T5b1.{T5b1Buf, encode_t5b1, decode_t5b1, try_from_raw}
use bee_p.Bundle.Transaction.{Trits, Transaction}
use bee_p.Bundle.FromTrits.{transaction_trit_len}
use bee_p.Bundle.IntoTrits.{into_trits_allocated}
use bee_p.Message.Compression.{compress_transaction_bytes, uncompress_transaction_bytes}
use bee_p.Message.TransactionBroadcast.{TransactionBroadcast}
use bee_p.Tangle.Hash.{hash_trit_len}

-- A byte of the other sign convention.
abbrev pub as_u8 : ℤ → ℕ
as_u8 (pos n) = n % 256
as_u8 (negsuc n) = 255 - n % 256

abbrev pub as_i8 : ℕ → ℤ
as_i8 n = if ltb n 128 then pos n else negsuc (255 - n)

-- `cast_slice` from `i8` to `u8`, and from `u8` to `i8`.
unfoldable pub cast_u8 : List ℤ → List ℕ
cast_u8 [] = []
cast_u8 (x ∷ xs) = as_u8 x ∷ cast_u8 xs

unfoldable pub cast_i8 : List ℕ → List ℤ
cast_i8 [] = []
cast_i8 (x ∷ xs) = as_i8 x ∷ cast_i8 xs

-- The bytes of trits, five to a byte.
unfoldable pub encode_bytes : Trits → List ℕ
encode_bytes trits = cast_u8 (encode_t5b1 trits).bytes

-- The trits of bytes, `none` where a byte is not valid.
unfoldable pub decode_bytes : List ℕ → ℕ → Option Trits
decode_bytes bytes num_trits = do
  buf ← try_from_raw (cast_i8 bytes) num_trits
  some (decode_t5b1 buf)

-- The hash of a request.
unfoldable pub decode_hash : List ℕ → Option Trits
decode_hash bytes = decode_bytes bytes hash_trit_len

-- How the responders answer with a transaction.
unfoldable pub encode_broadcast : Transaction → Option TransactionBroadcast
encode_broadcast transaction = do
  trits ← into_trits_allocated transaction (zeros transaction_trit_len)
  bytes ← compress_transaction_bytes (encode_bytes trits)
  some (record { transaction = bytes })

-- `transaction_buf`: the outer `none` is a panic, the inner one data that is not valid.
unfoldable pub decode_broadcast : TransactionBroadcast → Option (Option Trits)
decode_broadcast message = do
  bytes ← uncompress_transaction_bytes message.transaction
  some (decode_bytes bytes (length bytes * 5 - 1))
