-- ===== src/Bundle/Builder/Essence.antt =====
-- `essence` of bee-bundle/src/transaction/builder.rs: the trits of a transaction that its bundle's hash
-- is made over. `none` is a panic.
use bee_p.Common.{
  ℕ, ◌+◌, Option, none, some, ◌++◌, length, take, drop, replicate, leb, ◌==◌, if◌then◌else◌, ◌>>=◌,
}
use bee_p.Common.Int.{as_i64}
use bee_p.Ternary.{no_one, trits_from_i64}
use bee_p.Bundle.Transaction.{Trits}
use bee_p.Bundle.Builder.{TransactionBuilder}

-- `buffer[start..start + trits.len()].copy_from(trits)`
unfoldable pub copy_at : ℕ → Trits → Trits → Option Trits
copy_at start trits buffer =
    if leb (start + length trits) (length buffer)
    then some (take start buffer ++ (trits ++ drop (start + length trits) buffer))
    else none

-- The same where the slice has a length of its own.
unfoldable pub copy_exactly : ℕ → ℕ → Trits → Trits → Option Trits
copy_exactly size start trits buffer =
    if length trits == size then copy_at start trits buffer else none

unfoldable pub essence : TransactionBuilder → Option Trits
essence b = do
  address ← b.address
  value ← b.value
  obsolete_tag ← b.obsolete_tag
  timestamp ← b.timestamp
  index ← b.index
  last_index ← b.last_index
  with_address ← copy_exactly 243 0 address (replicate 486 no_one)
  with_value ← copy_at 243 (trits_from_i64 value) with_address
  with_tag ← copy_exactly 81 324 obsolete_tag with_value
  with_timestamp ← copy_at 405 (trits_from_i64 (as_i64 timestamp)) with_tag
  with_index ← copy_at 432 (trits_from_i64 (as_i64 index)) with_timestamp
  copy_at 459 (trits_from_i64 (as_i64 last_index)) with_index
