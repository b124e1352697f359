-- ===== src/Bundle/IntoTrits/Writes.antt =====
-- What `into_trits_allocated` of bee-bundle/src/transaction/transaction.rs writes.
use bee_p.Common.{ℕ, ◌≤◌, ◌≡◌, refl, some, List, [], ◌∷◌, length, arith}
use bee_p.Common.Int.{nat_abs, as_i64, as_u64, IsI64}
use bee_p.Ternary.{trits_from_i64}
use bee_p.Ternary.Padded.{padded, length-zeros, length-padded, trits_length, trits_length_27}
use bee_p.Bundle.Transaction.{Trits, Transaction, iota_supply}
use bee_p.Bundle.Builder.Accepts.{AddressFits}
use bee_p.Bundle.FromTrits.{
  payload_offset, address_offset, value_offset, obsolete_tag_offset, timestamp_offset, index_offset,
  last_index_offset, bundle_offset, trunk_offset, branch_offset, tag_offset, attachment_ts_offset,
  attachment_lbts_offset, attachment_ubts_offset, nonce_offset,
}
use bee_p.Bundle.IntoTrits.{into_trits_allocated}
use bee_p.Bundle.IntoTrits.Segments.{set, concat, blanks, copy_segment, copy_segment_number}

-- A number of a field of 27 trits.
abbrev pub IsNumber : ℕ → Type 0
IsNumber n = n ≤ 3812798742493

-- A transaction that can be written: its fields of trits have their lengths, its numbers fit into
-- theirs, and it is one that the builder lets through.
pub record IsValid (t : Transaction) : Type 0 where
  pub payload : length t.payload ≡ 6561
  pub address : length t.address ≡ 243
  pub value : nat_abs t.value ≤ iota_supply
  pub obsolete_tag : length t.obsolete_tag ≡ 81
  pub timestamp : IsNumber t.timestamp
  pub index : IsNumber t.index
  pub last_index : IsNumber t.last_index
  pub bundle : length t.bundle ≡ 243
  pub trunk : length t.trunk ≡ 243
  pub branch : length t.branch ≡ 243
  pub tag : length t.tag ≡ 81
  pub attachment_ts : IsNumber t.attachment_ts
  pub attachment_lbts : IsNumber t.attachment_lbts
  pub attachment_ubts : IsNumber t.attachment_ubts
  pub nonce : length t.nonce ≡ 81
  pub address_fits : AddressFits t.address t.value

abbrev pub number_of : ℕ → Trits
number_of n = trits_from_i64 (as_i64 n)

abbrev pub segments : Transaction → List Trits
segments t =
    t.payload
    ∷ (t.address
        ∷ (padded 81 (trits_from_i64 t.value)
            ∷ (t.obsolete_tag
                ∷ (padded 27 (number_of t.timestamp)
                    ∷ (padded 27 (number_of t.index)
                        ∷ (padded 27 (number_of t.last_index)
                            ∷ (t.bundle
                                ∷ (t.trunk
                                    ∷ (t.branch
                                        ∷ (t.tag
                                            ∷ (padded 27 (number_of t.attachment_ts)
                                                ∷ (padded 27 (number_of t.attachment_lbts)
                                                    ∷ (padded 27 (number_of t.attachment_ubts)
                                                        ∷ (t.nonce ∷ []))))))))))))))

abbrev pub lengths : List ℕ
lengths =
    6561
    ∷ (243
        ∷ (81
            ∷ (81
                ∷ (27
                    ∷ (27
                        ∷ (27 ∷ (243 ∷ (243 ∷ (243 ∷ (81 ∷ (27 ∷ (27 ∷ (27 ∷ (81 ∷ []))))))))))))))

pub as_i64_number :
    (n : ℕ)
    → IsNumber n
    → (IsI64 (as_i64 n)) × (nat_abs (as_i64 n) ≤ 3812798742493) × (as_u64 (as_i64 n) ≡ n)
unfolding as_i64 as_u64
as_i64_number n h = ground arith

number_length : (n : ℕ) → IsNumber n → length (number_of n) ≤ 27
number_length n h = trits_length_27 (as_i64 n) ((as_i64_number n h).1)

-- The numbers fit into their segments.
pub record Sizes (t : Transaction) : Type 0 where
  pub value_fits : length (trits_from_i64 t.value) ≤ 81
  pub timestamp_fits : length (number_of t.timestamp) ≤ 27
  pub index_fits : length (number_of t.index) ≤ 27
  pub last_index_fits : length (number_of t.last_index) ≤ 27
  pub attachment_ts_fits : length (number_of t.attachment_ts) ≤ 27
  pub attachment_lbts_fits : length (number_of t.attachment_lbts) ≤ 27
  pub attachment_ubts_fits : length (number_of t.attachment_ubts) ≤ 27

pub sizes : (t : Transaction) → IsValid t → Sizes t
sizes t v = record {
  value_fits = ground (arith, trits_length t.value (ground arith));
  timestamp_fits = number_length t.timestamp v.timestamp;
  index_fits = number_length t.index v.index;
  last_index_fits = number_length t.last_index v.last_index;
  attachment_ts_fits = number_length t.attachment_ts v.attachment_ts;
  attachment_lbts_fits = number_length t.attachment_lbts v.attachment_lbts;
  attachment_ubts_fits = number_length t.attachment_ubts v.attachment_ubts;
}

pub into_segments :
    (t : Transaction)
    → IsValid t
    → into_trits_allocated t (concat (blanks lengths)) ≡ some (concat (segments t))
unfolding into_trits_allocated
into_segments t v =
    let s : Sizes t = sizes t v in
    let zeros_6561 = length-zeros 6561 in
    let zeros_243 = length-zeros 243 in
    let zeros_81 = length-zeros 81 in
    let zeros_27 = length-zeros 27 in
    let value_size = length-padded 81 (trits_from_i64 t.value) s.value_fits in
    let timestamp_size = length-padded 27 (number_of t.timestamp) s.timestamp_fits in
    let index_size = length-padded 27 (number_of t.index) s.index_fits in
    let last_index_size = length-padded 27 (number_of t.last_index) s.last_index_fits in
    let attachment_ts_size = length-padded 27 (number_of t.attachment_ts) s.attachment_ts_fits in
    let attachment_lbts_size =
      length-padded 27 (number_of t.attachment_lbts) s.attachment_lbts_fits in
    let attachment_ubts_size =
      length-padded 27 (number_of t.attachment_ubts) s.attachment_ubts_fits in
    let s₀ = blanks lengths in
    let s₁ = set s₀ 0 t.payload in
    let s₂ = set s₁ 1 t.address in
    let s₃ = set s₂ 3 t.obsolete_tag in
    let s₄ = set s₃ 7 t.bundle in
    let s₅ = set s₄ 9 t.branch in
    let s₆ = set s₅ 8 t.trunk in
    let s₇ = set s₆ 10 t.tag in
    let s₈ = set s₇ 14 t.nonce in
    let s₉ = set s₈ 2 (padded value_offset.length (trits_from_i64 t.value)) in
    let s₁₀ = set s₉ 5 (padded index_offset.length (number_of t.index)) in
    let s₁₁ = set s₁₀ 6 (padded last_index_offset.length (number_of t.last_index)) in
    let s₁₂ = set s₁₁ 4 (padded timestamp_offset.length (number_of t.timestamp)) in
    let s₁₃ = set s₁₂ 11 (padded attachment_ts_offset.length (number_of t.attachment_ts)) in
    let s₁₄ = set s₁₃ 12 (padded attachment_lbts_offset.length (number_of t.attachment_lbts)) in
    rw
      (
        copy_segment s₀ 0 t.payload payload_offset (omega arith) (omega arith) (omega arith)
            (omega arith),
        copy_segment s₁ 1 t.address address_offset (omega arith) (omega arith) (omega arith)
            (omega arith),
        copy_segment s₂ 3 t.obsolete_tag obsolete_tag_offset (omega arith) (omega arith)
            (omega arith) (omega arith),
        copy_segment s₃ 7 t.bundle bundle_offset (omega arith) (omega arith) (omega arith)
            (omega arith),
        copy_segment s₄ 9 t.branch branch_offset (omega arith) (omega arith) (omega arith)
            (omega arith),
        copy_segment s₅ 8 t.trunk trunk_offset (omega arith) (omega arith) (omega arith)
            (omega arith),
        copy_segment s₆ 10 t.tag tag_offset (omega arith) (omega arith) (omega arith) (omega arith),
        copy_segment s₇ 14 t.nonce nonce_offset (omega arith) (omega arith) (omega arith)
            (omega arith),
        copy_segment_number s₈ 2 (trits_from_i64 t.value) value_offset (omega arith) (omega arith)
            refl (omega arith),
        copy_segment_number s₉ 5 (number_of t.index) index_offset (omega arith) (omega arith) refl
            (omega arith),
        copy_segment_number s₁₀ 6 (number_of t.last_index) last_index_offset (omega arith)
            (omega arith) refl (omega arith),
        copy_segment_number s₁₁ 4 (number_of t.timestamp) timestamp_offset (omega arith)
            (omega arith) refl (omega arith),
        copy_segment_number s₁₂ 11 (number_of t.attachment_ts) attachment_ts_offset (omega arith)
            (omega arith) refl (omega arith),
        copy_segment_number s₁₃ 12 (number_of t.attachment_lbts) attachment_lbts_offset
            (omega arith) (omega arith) refl (omega arith),
        copy_segment_number s₁₄ 13 (number_of t.attachment_ubts) attachment_ubts_offset
            (omega arith) (omega arith) refl (omega arith),
      )
      refl
