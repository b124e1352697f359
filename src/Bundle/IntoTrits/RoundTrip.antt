-- ===== src/Bundle/IntoTrits/RoundTrip.antt =====
-- Transactions that are written to trits and read back.
use bee_p.Common.{ℕ, ◌≤◌, ◌≡◌, ◌∙◌, refl, sym, ap, Bool, some, length, arith, ok, inl}
use bee_p.Common.Int.{ℤ, as_i64, IsI64}
use bee_p.Ternary.{zeros, trits_from_i64}
use bee_p.Ternary.Padded.{padded, padded_roundtrip, length-padded}
use bee_p.Bundle.Transaction.{Trits, Transaction, FieldName}
use bee_p.Bundle.Builder.Accepts.{filled, build_iff}
use bee_p.Bundle.FromTrits.{
  from_trits, slice, number, ◌>>=◌, transaction_trit_len, payload_offset, address_offset,
  value_offset, obsolete_tag_offset, timestamp_offset, index_offset, last_index_offset,
  bundle_offset, trunk_offset, branch_offset, tag_offset, attachment_ts_offset,
  attachment_lbts_offset, attachment_ubts_offset, nonce_offset,
}
use bee_p.Bundle.IntoTrits.{into_trits_allocated}
use bee_p.Bundle.IntoTrits.Segments.{concat, concat-blanks, slice_segment, length-concat}
use bee_p.Bundle.IntoTrits.Writes.{
  IsValid, Sizes, sizes, number_of, segments, lengths, as_i64_number, into_segments,
}

number-padded :
    (field : FieldName) (n : ℕ) (v : ℤ)
    → IsI64 v
    → length (trits_from_i64 v) ≤ n
    → number field (padded n (trits_from_i64 v)) ≡ some (ok v)
unfolding number
number-padded field n v i h = rw (number, padded_roundtrip n v i h) refl

module _ (t : Transaction) (v : IsValid t) where
  -- Every field is the slice at its offset.
  pub record Slices : Type 0 where
    payload : slice payload_offset (concat (segments t)) ≡ some (ok t.payload)
    address : slice address_offset (concat (segments t)) ≡ some (ok t.address)
    value :
        slice value_offset (concat (segments t)) ≡ some (ok (padded 81 (trits_from_i64 t.value)))
    obsolete_tag : slice obsolete_tag_offset (concat (segments t)) ≡ some (ok t.obsolete_tag)
    timestamp :
        slice timestamp_offset (concat (segments t)) ≡ some (ok (padded 27 (number_of t.timestamp)))
    index : slice index_offset (concat (segments t)) ≡ some (ok (padded 27 (number_of t.index)))
    last_index :
        slice last_index_offset (concat (segments t))
        ≡ some (ok (padded 27 (number_of t.last_index)))
    bundle : slice bundle_offset (concat (segments t)) ≡ some (ok t.bundle)
    trunk : slice trunk_offset (concat (segments t)) ≡ some (ok t.trunk)
    branch : slice branch_offset (concat (segments t)) ≡ some (ok t.branch)
    tag : slice tag_offset (concat (segments t)) ≡ some (ok t.tag)
    attachment_ts :
        slice attachment_ts_offset (concat (segments t))
        ≡ some (ok (padded 27 (number_of t.attachment_ts)))
    attachment_lbts :
        slice attachment_lbts_offset (concat (segments t))
        ≡ some (ok (padded 27 (number_of t.attachment_lbts)))
    attachment_ubts :
        slice attachment_ubts_offset (concat (segments t))
        ≡ some (ok (padded 27 (number_of t.attachment_ubts)))
    nonce : slice nonce_offset (concat (segments t)) ≡ some (ok t.nonce)

  slices : Slices
  slices =
      let s : Sizes t = sizes t v in
      let value_size = length-padded 81 (trits_from_i64 t.value) s.value_fits in
      let timestamp_size = length-padded 27 (number_of t.timestamp) s.timestamp_fits in
      let index_size = length-padded 27 (number_of t.index) s.index_fits in
      let last_index_size = length-padded 27 (number_of t.last_index) s.last_index_fits in
      let attachment_ts_size = length-padded 27 (number_of t.attachment_ts) s.attachment_ts_fits in
      let attachment_lbts_size =
        length-padded 27 (number_of t.attachment_lbts) s.attachment_lbts_fits in
      let attachment_ubts_size =
        length-padded 27 (number_of t.attachment_ubts) s.attachment_ubts_fits in
      record {
        payload =
            slice_segment (segments t) 0 payload_offset (omega arith) (omega arith) (omega arith);
        address =
            slice_segment (segments t) 1 address_offset (omega arith) (omega arith) (omega arith);
        value = slice_segment (segments t) 2 value_offset (omega arith) (omega arith) (omega arith);
        obsolete_tag =
            slice_segment (segments t) 3 obsolete_tag_offset (omega arith) (omega arith)
              (omega arith);
        timestamp =
            slice_segment (segments t) 4 timestamp_offset (omega arith) (omega arith) (omega arith);
        index = slice_segment (segments t) 5 index_offset (omega arith) (omega arith) (omega arith);
        last_index =
            slice_segment (segments t) 6 last_index_offset (omega arith) (omega arith)
              (omega arith);
        bundle =
            slice_segment (segments t) 7 bundle_offset (omega arith) (omega arith) (omega arith);
        trunk = slice_segment (segments t) 8 trunk_offset (omega arith) (omega arith) (omega arith);
        branch =
            slice_segment (segments t) 9 branch_offset (omega arith) (omega arith) (omega arith);
        tag = slice_segment (segments t) 10 tag_offset (omega arith) (omega arith) (omega arith);
        attachment_ts =
            slice_segment (segments t) 11 attachment_ts_offset (omega arith) (omega arith)
              (omega arith);
        attachment_lbts =
            slice_segment (segments t) 12 attachment_lbts_offset (omega arith) (omega arith)
              (omega arith);
        attachment_ubts =
            slice_segment (segments t) 13 attachment_ubts_offset (omega arith) (omega arith)
              (omega arith);
        nonce =
            slice_segment (segments t) 14 nonce_offset (omega arith) (omega arith) (omega arith);
      }

  length-segments : length (concat (segments t)) ≡ transaction_trit_len
  length-segments =
      let s : Sizes t = sizes t v in
      let value_size = length-padded 81 (trits_from_i64 t.value) s.value_fits in
      let timestamp_size = length-padded 27 (number_of t.timestamp) s.timestamp_fits in
      let index_size = length-padded 27 (number_of t.index) s.index_fits in
      let last_index_size = length-padded 27 (number_of t.last_index) s.last_index_fits in
      let attachment_ts_size = length-padded 27 (number_of t.attachment_ts) s.attachment_ts_fits in
      let attachment_lbts_size =
        length-padded 27 (number_of t.attachment_lbts) s.attachment_lbts_fits in
      let attachment_ubts_size =
        length-padded 27 (number_of t.attachment_ubts) s.attachment_ubts_fits in
      omega (arith, length-concat (segments t))

  from_segments : (checks : Bool) → from_trits checks (concat (segments t)) ≡ some (ok t)
  unfolding from_trits ◌>>=◌
  from_segments checks =
      let s : Sizes t = sizes t v in
      let r : Slices = slices in
      let (timestamp_i64, _, timestamp_same) = as_i64_number t.timestamp v.timestamp in
      let (index_i64, _, index_same) = as_i64_number t.index v.index in
      let (last_index_i64, _, last_index_same) = as_i64_number t.last_index v.last_index in
      let (attachment_ts_i64, _, attachment_ts_same) =
        as_i64_number t.attachment_ts v.attachment_ts in
      let (attachment_lbts_i64, _, attachment_lbts_same) =
        as_i64_number t.attachment_lbts v.attachment_lbts in
      let (attachment_ubts_i64, _, attachment_ubts_same) =
        as_i64_number t.attachment_ubts v.attachment_ubts in
      rw
        (
          r.payload,
          r.address,
          r.value,
          number-padded FieldName.value 81 t.value (ground arith) s.value_fits,
          r.obsolete_tag,
          r.timestamp,
          number-padded FieldName.timestamp 27 (as_i64 t.timestamp) timestamp_i64 s.timestamp_fits,
          timestamp_same,
          r.index,
          number-padded FieldName.index 27 (as_i64 t.index) index_i64 s.index_fits,
          index_same,
          r.last_index,
          number-padded FieldName.last_index 27 (as_i64 t.last_index) last_index_i64
              s.last_index_fits,
          last_index_same,
          r.tag,
          r.attachment_ts,
          number-padded FieldName.attachment_ts 27 (as_i64 t.attachment_ts) attachment_ts_i64
              s.attachment_ts_fits,
          attachment_ts_same,
          r.bundle,
          r.trunk,
          r.branch,
          r.attachment_lbts,
          number-padded FieldName.attachment_lbts 27 (as_i64 t.attachment_lbts) attachment_lbts_i64
              s.attachment_lbts_fits,
          attachment_lbts_same,
          r.attachment_ubts,
          number-padded FieldName.attachment_ubts 27 (as_i64 t.attachment_ubts) attachment_ubts_i64
              s.attachment_ubts_fits,
          attachment_ubts_same,
          r.nonce,
        )
        ((build_iff checks (filled t) t).1 (refl, inl v.value, v.address_fits))

-- A valid transaction is written to 8019 trits, and read back from them as it was.
pub transaction_roundtrip :
    (checks : Bool) (t : Transaction)
    → IsValid t
    → (trits : Trits) × (into_trits_allocated t (zeros transaction_trit_len) ≡ some trits)
      × (length trits ≡ transaction_trit_len)
      × (from_trits checks trits ≡ some (ok t))
transaction_roundtrip checks t v = (
  concat (segments t),
  ap (into_trits_allocated t) (sym (concat-blanks lengths)) ∙ into_segments t v,
  length-segments t v,
  from_segments t v checks,
)
