-- ===== src/Bundle/FromTrits/Total.antt =====
-- `Transaction::from_trits` of bee-bundle/src/transaction/transaction.rs answers, in a build without
-- overflow checks.
use bee_p.Common.{
  ℕ, suc, ◌+◌, ◌≤◌, ◌≡◌, ◌≢◌, true, false, Option, none, length, length-take, length-drop, take,
  drop, Result, arith, leb, Result-cases, inl, inr, le→leb, zero, ◌∷◌, [],
}
use bee_p.Common.Int.{ℤ}
use bee_p.Ternary.{i64_try_from}
use bee_p.Bundle.Transaction.{Trits, TransactionError, FieldName}
use bee_p.Bundle.Builder.{TransactionBuilder, abs_i64, get, check, build}
use bee_p.Bundle.FromTrits.{
  Offset, slice, number, ◌>>=◌, from_trits, transaction_trit_len, payload_offset, address_offset,
  value_offset, obsolete_tag_offset, timestamp_offset, index_offset, last_index_offset,
  bundle_offset, trunk_offset, branch_offset, tag_offset, attachment_ts_offset,
  attachment_lbts_offset, attachment_ubts_offset, nonce_offset,
}

get_answers : (n : ℕ) (ts : Trits) → suc n ≤ length ts → get n ts ≢ none
get_answers n [] h e = absurd (omega arith)
get_answers zero (t ∷ ts) h e = absurd (cc e)
get_answers (suc n) (t ∷ ts) h e = get_answers n ts (omega arith) e

check_answers :
    (address : Trits) (v : ℤ) (b : TransactionBuilder)
    → length address ≡ 243
    → check false address v b ≢ none
unfolding check abs_i64
check_answers address v b size e = ground (arith, get_answers 242 address (omega arith))

module _ (trits : Trits) (enough : transaction_trit_len ≤ length trits) where
  then_slice :
      {B : Type 0} (o : Offset) (f : Trits → Option (Result TransactionError B))
      → o.start + o.length ≤ transaction_trit_len
      → ((x : Trits) → length x ≡ o.length → f x ≢ none)
      → (slice o trits >>= f) ≢ none
  unfolding slice ◌>>=◌
  then_slice o f fits next e =
      let there : leb (o.start + o.length) (length trits) ≡ true =
        le→leb (o.start + o.length) (length trits) (omega arith) in
      next (take o.length (drop o.start trits))
        (omega (arith, length-take o.length (drop o.start trits), length-drop o.start trits))
        (rw (there) at e)

  then_number :
      {B : Type 0} (field : FieldName) (x : Trits) (f : ℤ → Option (Result TransactionError B))
      → ((v : ℤ) → f v ≢ none)
      → (number field x >>= f) ≢ none
  unfolding number ◌>>=◌
  then_number field x f next e = elim (Result-cases (i64_try_from x)) [
    | inl (v, h) ↦ next v (rw (h, ◌>>=◌) at e)
    | inr (x, h) ↦ absurd (let it = rw (h, ◌>>=◌) at e in cc it)
  ]

  -- Without overflow checks, the reading of a transaction from at least 8019 trits does not panic.
  pub from_trits_answers : from_trits false trits ≢ none
  unfolding from_trits build
  from_trits_answers = then_slice payload_offset _ (omega arith) λ the_payload _.
      then_slice address_offset _ (omega arith) λ the_address size.
        then_slice value_offset _ (omega arith) λ the_value_trits _.
          then_number FieldName.value the_value_trits _ λ the_value.
            then_slice obsolete_tag_offset _ (omega arith) λ the_obsolete_tag _.
              then_slice timestamp_offset _ (omega arith) λ the_timestamp_trits _.
                then_number FieldName.timestamp the_timestamp_trits _ λ the_timestamp.
                  then_slice index_offset _ (omega arith) λ the_index_trits _.
                    then_number FieldName.index the_index_trits _ λ the_index.
                      then_slice last_index_offset _ (omega arith) λ the_last_index_trits _.
                        then_number FieldName.last_index the_last_index_trits _ λ the_last_index.
                          then_slice tag_offset _ (omega arith) λ the_tag _.
                            then_slice attachment_ts_offset _ (omega arith)
                              λ the_attachment_ts_trits _.
                                then_number FieldName.attachment_ts the_attachment_ts_trits _
                                  λ the_attachment_ts.
                                    then_slice bundle_offset _ (omega arith) λ the_bundle _.
                                      then_slice trunk_offset _ (omega arith) λ the_trunk _.
                                        then_slice branch_offset _ (omega arith) λ the_branch _.
                                          then_slice attachment_lbts_offset _ (omega arith)
                                            λ the_attachment_lbts_trits _.
                                              then_number FieldName.attachment_lbts
                                                the_attachment_lbts_trits _
                                                λ the_attachment_lbts.
                                                  then_slice attachment_ubts_offset _ (omega arith)
                                                    λ the_attachment_ubts_trits _.
                                                      then_number FieldName.attachment_ubts
                                                        the_attachment_ubts_trits _
                                                        λ the_attachment_ubts.
                                                          then_slice nonce_offset _ (omega arith)
                                                            λ the_nonce _.
                                                            check_answers the_address the_value _
                                                            size
