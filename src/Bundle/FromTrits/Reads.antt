-- ===== src/Bundle/FromTrits/Reads.antt =====
-- What `from_trits` of bee-bundle/src/transaction/transaction.rs returns.
use mathlib.Core.Option.{some_inj}
use bee_p.Common.{
  sym, ◌∙◌, ◌+◌, ◌≤◌, ◌≡◌, ap, Bool, Option, some, Result, ok, length, take, drop, inl, inr,
  Bool-cases, leb, leb→le, Result-cases,
}
use bee_p.Common.Int.{ℤ, as_u64}
use bee_p.Ternary.{i64_try_from}
use bee_p.Bundle.Transaction.{Trits, Transaction, TransactionError, FieldName}
use bee_p.Bundle.Builder.{TransactionBuilder}
use bee_p.Bundle.Builder.Accepts.{ValueFits, AddressFits, build_iff}
use bee_p.Bundle.FromTrits.{
  from_trits, ◌>>=◌, slice, number, Offset, transaction_trit_len, payload_offset, address_offset,
  value_offset, obsolete_tag_offset, timestamp_offset, index_offset, last_index_offset,
  bundle_offset, trunk_offset, branch_offset, tag_offset, attachment_ts_offset,
  attachment_lbts_offset, attachment_ubts_offset, nonce_offset,
}

-- The trits of a field.
abbrev pub field : Offset → Trits → Trits
field o trits = take o.length (drop o.start trits)

slice-inv :
    {B : Type 0} (o : Offset) (trits : Trits) (f : Trits → Option (Result TransactionError B))
    {b : B}
    → (slice o trits >>= f) ≡ some (ok b)
    → (o.start + o.length ≤ length trits) × (f (field o trits) ≡ some (ok b))
unfolding slice ◌>>=◌
slice-inv o trits f e = elim (Bool-cases (leb (o.start + o.length) (length trits))) [
  | inl enough ↦ (leb→le _ _ enough, rw enough at e)
  | inr short ↦ absurd (let it = rw short at e in cc it)
]

number-inv :
    {B : Type 0} (name : FieldName) (trits : Trits) (f : ℤ → Option (Result TransactionError B))
    {b : B}
    → (number name trits >>= f) ≡ some (ok b)
    → (n : ℤ) × (i64_try_from trits ≡ ok n) × (f n ≡ some (ok b))
unfolding number ◌>>=◌
number-inv name trits f e = elim (Result-cases (i64_try_from trits)) [
  | inl (n, h) ↦ (n, h, rw (h, ◌>>=◌) at e)
  | inr (x, h) ↦ absurd (let it = rw (h, ◌>>=◌) at e in cc it)
]

given : {A : Type 0} {x y : A} → some x ≡ some y → x ≡ y
given = some_inj.0

-- A number of a field of a transaction.
abbrev pub Reads : Offset → Trits → (ℤ → Type 0) → Type 0
Reads o trits P = (n : ℤ) × (i64_try_from (field o trits) ≡ ok n) × P n

-- What a transaction that is read from trits is: the trits are as long as a transaction at least;
-- each field holds its trits or the number that they stand for, cast to a `u64` where it is one; the
-- value is at most the supply (or, without overflow checks, the least `i64`), and the address ends
-- with a zero if the value is not 0.
abbrev pub ReadFrom : Bool → Trits → Transaction → Type 0
ReadFrom checks trits t =
    (transaction_trit_len ≤ length trits)
    × (t.payload ≡ field payload_offset trits)
    × (t.address ≡ field address_offset trits)
    × (i64_try_from (field value_offset trits) ≡ ok t.value)
    × (t.obsolete_tag ≡ field obsolete_tag_offset trits)
    × Reads timestamp_offset trits (λ n. t.timestamp ≡ as_u64 n)
    × Reads index_offset trits (λ n. t.index ≡ as_u64 n)
    × Reads last_index_offset trits (λ n. t.last_index ≡ as_u64 n)
    × (t.bundle ≡ field bundle_offset trits)
    × (t.trunk ≡ field trunk_offset trits)
    × (t.branch ≡ field branch_offset trits)
    × (t.tag ≡ field tag_offset trits)
    × Reads attachment_ts_offset trits (λ n. t.attachment_ts ≡ as_u64 n)
    × Reads attachment_lbts_offset trits (λ n. t.attachment_lbts ≡ as_u64 n)
    × Reads attachment_ubts_offset trits (λ n. t.attachment_ubts ≡ as_u64 n)
    × (t.nonce ≡ field nonce_offset trits)
    × ValueFits checks t.value
    × AddressFits t.address t.value

-- Reading a transaction from trits succeeds only on 8019 trits or more, and gives each field the trits
-- at its offset or the number that they stand for, cast to a `u64` where it is one; the value is then
-- at most the supply (or, without overflow checks, the least `i64`), and the address ends with a
-- zero if the value is not 0.
pub from_trits_reads :
    (checks : Bool) (trits : Trits) (t : Transaction)
    → from_trits checks trits ≡ some (ok t)
    → ReadFrom checks trits t
unfolding from_trits
from_trits_reads checks trits t e₀ =
    let (_, e₁) = slice-inv _ _ _ e₀ in
    let (_, e₂) = slice-inv _ _ _ e₁ in
    let (_, e₃) = slice-inv _ _ _ e₂ in
    let (value, value_read, e₄) = number-inv _ _ _ e₃ in
    let (_, e₅) = slice-inv _ _ _ e₄ in
    let (_, e₆) = slice-inv _ _ _ e₅ in
    let (timestamp, timestamp_read, e₇) = number-inv _ _ _ e₆ in
    let (_, e₈) = slice-inv _ _ _ e₇ in
    let (index, index_read, e₉) = number-inv _ _ _ e₈ in
    let (_, e₁₀) = slice-inv _ _ _ e₉ in
    let (last_index, last_index_read, e₁₁) = number-inv _ _ _ e₁₀ in
    let (_, e₁₂) = slice-inv _ _ _ e₁₁ in
    let (_, e₁₃) = slice-inv _ _ _ e₁₂ in
    let (ts, ts_read, e₁₄) = number-inv _ _ _ e₁₃ in
    let (_, e₁₅) = slice-inv _ _ _ e₁₄ in
    let (_, e₁₆) = slice-inv _ _ _ e₁₅ in
    let (_, e₁₇) = slice-inv _ _ _ e₁₆ in
    let (_, e₁₈) = slice-inv _ _ _ e₁₇ in
    let (lbts, lbts_read, e₁₉) = number-inv _ _ _ e₁₈ in
    let (_, e₂₀) = slice-inv _ _ _ e₁₉ in
    let (ubts, ubts_read, e₂₁) = number-inv _ _ _ e₂₀ in
    let (long, e₂₂) = slice-inv _ _ _ e₂₁ in
    let (same, value_fits, address_fits) = (build_iff checks _ t).0 e₂₂ in
    (
      long,
      sym (given (ap (λ (b : TransactionBuilder). b.payload) same)),
      sym (given (ap (λ (b : TransactionBuilder). b.address) same)),
      value_read ∙ ap ok (given (ap (λ (b : TransactionBuilder). b.value) same)),
      sym (given (ap (λ (b : TransactionBuilder). b.obsolete_tag) same)),
      (timestamp, timestamp_read, sym (given (ap (λ (b : TransactionBuilder). b.timestamp) same))),
      (index, index_read, sym (given (ap (λ (b : TransactionBuilder). b.index) same))),
      (
        last_index,
        last_index_read,
        sym (given (ap (λ (b : TransactionBuilder). b.last_index) same)),
      ),
      sym (given (ap (λ (b : TransactionBuilder). b.bundle) same)),
      sym (given (ap (λ (b : TransactionBuilder). b.trunk) same)),
      sym (given (ap (λ (b : TransactionBuilder). b.branch) same)),
      sym (given (ap (λ (b : TransactionBuilder). b.tag) same)),
      (ts, ts_read, sym (given (ap (λ (b : TransactionBuilder). b.attachment_ts) same))),
      (lbts, lbts_read, sym (given (ap (λ (b : TransactionBuilder). b.attachment_lbts) same))),
      (ubts, ubts_read, sym (given (ap (λ (b : TransactionBuilder). b.attachment_ubts) same))),
      sym (given (ap (λ (b : TransactionBuilder). b.nonce) same)),
      value_fits,
      address_fits,
    )
