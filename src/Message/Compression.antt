-- ===== src/Message/Compression.antt =====
-- bee-protocol/src/message/compression.rs
pub mod RoundTrip
use bee_p.Common.{
  ℕ, zero, suc, ◌+◌, ◌-◌, Option, none, some, List, [], ◌∷◌, ◌++◌, length, replicate, get_elem?,
  ◌==◌, if◌then◌else◌, ◌>>=◌,
}
use bee_p.Common.Bytes.{split_at, copy_from_slice, checked_sub}

abbrev pub transaction_byte_len : ℕ
transaction_byte_len = 1604

abbrev pub non_payload_size : ℕ
non_payload_size = 292

abbrev pub max_payload_size : ℕ
max_payload_size = 1312

-- `for i in (0..n).rev()`: counts the zeros before index `n`, from its end.
unfoldable pub trim : ℕ → List ℕ → ℕ → Option ℕ
trim zero bytes trimmed = some trimmed
trim (suc i) bytes trimmed =
    let more = trim i bytes (trimmed + 1) in
    do byte ← get_elem? bytes i; if byte == 0 then more else some trimmed

unfoldable pub compress_transaction_bytes : List ℕ → Option (List ℕ)
compress_transaction_bytes bytes = do
  trimmed ← trim max_payload_size bytes 0
  let kept = max_payload_size - trimmed
  (front, back) ← split_at kept (replicate (kept + non_payload_size) 0)
  (payload, _) ← split_at kept bytes
  front' ← copy_from_slice front payload
  (_, rest) ← split_at max_payload_size bytes
  back' ← copy_from_slice back rest
  some (front' ++ back')

unfoldable pub uncompress_transaction_bytes : List ℕ → Option (List ℕ)
uncompress_transaction_bytes bytes = do
  payload_size ← checked_sub (length bytes) non_payload_size
  (front, back) ← split_at payload_size (replicate transaction_byte_len 0)
  (payload, rest) ← split_at payload_size bytes
  front' ← copy_from_slice front payload
  (front'', back') ← split_at max_payload_size (front' ++ back)
  back'' ← copy_from_slice back' rest
  some (front'' ++ back'')
