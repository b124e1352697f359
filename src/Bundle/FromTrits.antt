-- ===== src/Bundle/FromTrits.antt =====
-- `Transaction::from_trits` of bee-bundle/src/transaction/transaction.rs, with the offsets of
-- bee-bundle/src/constants.rs. The buffer is already one of `T1B1`.
pub mod Reads
pub mod Total
use bee_p.Common.{
  ℕ, zero, suc, ◌+◌, Bool, Option, none, some, List, [], ◌∷◌, take, drop, length, leb,
  if◌then◌else◌, Result, ok, err,
}
use bee_p.Common.Int.{ℤ, as_u64}
use bee_p.Ternary.{Btrit, TritsI64ConversionError, i64_try_from}
use bee_p.Bundle.Transaction.{
  Trits, Transaction, TransactionError, FieldName, invalid_numeric_field,
}
use bee_p.Bundle.Builder.{TransactionBuilder, build}
use bee_p.Bundle.Builder

pub record Offset : Type 0 where
  pub start : ℕ
  pub length : ℕ

-- `offsets_from_previous_field!`, the offset in trits
abbrev pub after : Offset → ℕ → Offset
after previous n = record { start = previous.start + previous.length; length = n }

abbrev pub transaction_trit_len : ℕ
transaction_trit_len = 8019

abbrev pub payload_offset : Offset
payload_offset = record { start = 0; length = 6561 }

abbrev pub address_offset : Offset
address_offset = after payload_offset 243

abbrev pub value_offset : Offset
value_offset = after address_offset 81

abbrev pub obsolete_tag_offset : Offset
obsolete_tag_offset = after value_offset 81

abbrev pub timestamp_offset : Offset
timestamp_offset = after obsolete_tag_offset 27

abbrev pub index_offset : Offset
index_offset = after timestamp_offset 27

abbrev pub last_index_offset : Offset
last_index_offset = after index_offset 27

abbrev pub bundle_offset : Offset
bundle_offset = after last_index_offset 243

abbrev pub trunk_offset : Offset
trunk_offset = after bundle_offset 243

abbrev pub branch_offset : Offset
branch_offset = after trunk_offset 243

abbrev pub tag_offset : Offset
tag_offset = after branch_offset 81

abbrev pub attachment_ts_offset : Offset
attachment_ts_offset = after tag_offset 27

abbrev pub attachment_lbts_offset : Offset
attachment_lbts_offset = after attachment_ts_offset 27

abbrev pub attachment_ubts_offset : Offset
attachment_ubts_offset = after attachment_lbts_offset 27

abbrev pub nonce_offset : Offset
nonce_offset = after attachment_ubts_offset 81

-- `trits[start..start + length].to_buf()`, which panics out of range
unfoldable pub slice : Offset → Trits → Option (Result TransactionError Trits)
slice o trits =
    if leb (o.start + o.length) (length trits)
    then some (ok (take o.length (drop o.start trits)))
    else none

-- `i64::try_from`, `map_err` and `?`
unfoldable pub number : FieldName → Trits → Option (Result TransactionError ℤ)
number field trits = elim (i64_try_from trits) [
  | err e ↦ some (err (invalid_numeric_field field e))
  | ok n ↦ some (ok n)
]

infixl 5 ◌>>=◌
unfoldable pub ◌>>=◌ :
    {A B : Type 0}
    → Option (Result TransactionError A)
    → (A → Option (Result TransactionError B))
    → Option (Result TransactionError B)
none >>= f = none
some (err e) >>= f = some (err e)
some (ok a) >>= f = f a

unfoldable pub from_trits : Bool → Trits → Option (Result TransactionError Transaction)
from_trits overflow_checks trits = do
  payload ← slice payload_offset trits
  address ← slice address_offset trits
  value_trits ← slice value_offset trits
  value ← number FieldName.value value_trits
  obsolete_tag ← slice obsolete_tag_offset trits
  timestamp_trits ← slice timestamp_offset trits
  timestamp ← number FieldName.timestamp timestamp_trits
  index_trits ← slice index_offset trits
  index ← number FieldName.index index_trits
  last_index_trits ← slice last_index_offset trits
  last_index ← number FieldName.last_index last_index_trits
  tag ← slice tag_offset trits
  attachment_ts_trits ← slice attachment_ts_offset trits
  attachment_ts ← number FieldName.attachment_ts attachment_ts_trits
  bundle ← slice bundle_offset trits
  trunk ← slice trunk_offset trits
  branch ← slice branch_offset trits
  attachment_lbts_trits ← slice attachment_lbts_offset trits
  attachment_lbts ← number FieldName.attachment_lbts attachment_lbts_trits
  attachment_ubts_trits ← slice attachment_ubts_offset trits
  attachment_ubts ← number FieldName.attachment_ubts attachment_ubts_trits
  nonce ← slice nonce_offset trits
  build overflow_checks (record {
    payload = some payload;
    address = some address;
    value = some value;
    obsolete_tag = some obsolete_tag;
    timestamp = some (as_u64 timestamp);
    index = some (as_u64 index);
    last_index = some (as_u64 last_index);
    bundle = some bundle;
    trunk = some trunk;
    branch = some branch;
    tag = some tag;
    attachment_ts = some (as_u64 attachment_ts);
    attachment_lbts = some (as_u64 attachment_lbts);
    attachment_ubts = some (as_u64 attachment_ubts);
    nonce = some nonce;
  })
