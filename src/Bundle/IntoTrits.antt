-- ===== src/Bundle/IntoTrits.antt =====
-- `Transaction::into_trits_allocated` of bee-bundle/src/transaction/transaction.rs.
pub mod Segments
pub mod Writes
pub mod RoundTrip
use bee_p.Common.{
  ℕ, zero, suc, ◌+◌, ◌&&◌, Option, none, some, List, [], ◌∷◌, ◌++◌, length, take, drop, leb,
  if◌then◌else◌, ◌>>=◌,
}
use bee_p.Common.Int.{as_i64}
use bee_p.Ternary.{no_one, trits_from_i64}
use bee_p.Bundle.Transaction.{Trits, Transaction}
use bee_p.Bundle.FromTrits.{
  Offset, payload_offset, address_offset, value_offset, obsolete_tag_offset, timestamp_offset,
  index_offset, last_index_offset, bundle_offset, trunk_offset, branch_offset, tag_offset,
  attachment_ts_offset, attachment_lbts_offset, attachment_ubts_offset, nonce_offset,
}

-- `copy_raw_bytes`: `none` is its assertion, or a read past the end of the source.
unfoldable pub copy_raw_bytes : Trits → ℕ → ℕ → Trits → Option Trits
copy_raw_bytes trits offset count buffer =
    if leb (offset + count) (length buffer) && leb count (length trits)
    then some (take offset buffer ++ (take count trits ++ drop (offset + count) buffer))
    else none

abbrev pub copy_field : Trits → Offset → Trits → Option Trits
copy_field trits o buffer = copy_raw_bytes trits o.start o.length buffer

abbrev pub copy_number : Trits → Offset → Trits → Option Trits
copy_number trits o buffer = copy_raw_bytes trits o.start (length trits) buffer

unfoldable pub into_trits_allocated : Transaction → Trits → Option Trits
into_trits_allocated t buffer = do
  b ← copy_field t.payload payload_offset buffer
  b ← copy_field t.address address_offset b
  b ← copy_field t.obsolete_tag obsolete_tag_offset b
  b ← copy_field t.bundle bundle_offset b
  b ← copy_field t.branch branch_offset b
  b ← copy_field t.trunk trunk_offset b
  b ← copy_field t.tag tag_offset b
  b ← copy_field t.nonce nonce_offset b
  b ← copy_number (trits_from_i64 t.value) value_offset b
  b ← copy_number (trits_from_i64 (as_i64 t.index)) index_offset b
  b ← copy_number (trits_from_i64 (as_i64 t.last_index)) last_index_offset b
  b ← copy_number (trits_from_i64 (as_i64 t.timestamp)) timestamp_offset b
  b ← copy_number (trits_from_i64 (as_i64 t.attachment_ts)) attachment_ts_offset b
  b ← copy_number (trits_from_i64 (as_i64 t.attachment_lbts)) attachment_lbts_offset b
  copy_number (trits_from_i64 (as_i64 t.attachment_ubts)) attachment_ubts_offset b
