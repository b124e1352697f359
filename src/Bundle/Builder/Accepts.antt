-- ===== src/Bundle/Builder/Accepts.antt =====
-- What `build` of bee-bundle/src/transaction/builder.rs accepts.
use bee_p.Common.{
  ◌≤◌, ◌≡◌, ◌^◌, ◌-◌, refl, ◌⊎◌, ◌↔◌, Bool, false, some, ok, arith, Option-cases, inl, inr,
}
use bee_p.Common.Int.{ℤ, negsuc, nat_abs}
use bee_p.Ternary.{no_one}
use bee_p.Bundle.Transaction.{Trits, Transaction, iota_supply}
use bee_p.Bundle.Builder.{TransactionBuilder, abs_i64, assemble, check, build, get}

-- The builder with the fields of a transaction.
abbrev pub filled : Transaction → TransactionBuilder
filled t = record {
  payload = some t.payload;
  address = some t.address;
  value = some t.value;
  obsolete_tag = some t.obsolete_tag;
  timestamp = some t.timestamp;
  index = some t.index;
  last_index = some t.last_index;
  bundle = some t.bundle;
  trunk = some t.trunk;
  branch = some t.branch;
  tag = some t.tag;
  attachment_ts = some t.attachment_ts;
  attachment_lbts = some t.attachment_lbts;
  attachment_ubts = some t.attachment_ubts;
  nonce = some t.nonce;
}

-- At most the supply; without overflow checks also the least `i64`, whose magnitude is itself.
abbrev pub ValueFits : Bool → ℤ → Type 0
ValueFits checks value =
    (nat_abs value ≤ iota_supply) ⊎ ((checks ≡ false) × (value ≡ negsuc (2 ^ 63 - 1)))

-- The address of a transaction that moves a value ends with a zero.
abbrev pub AddressFits : Trits → ℤ → Type 0
AddressFits address value = (nat_abs value ≡ 0) ⊎ (get 242 address ≡ some no_one)

assemble-filled :
    (b : TransactionBuilder) (address : Trits) (value : ℤ) (t : Transaction)
    → b.address ≡ some address
    → b.value ≡ some value
    → assemble b address value ≡ ok t
    → b ≡ filled t
unfolding assemble
assemble-filled b address value t a v e = ground arith

filled-assemble : (t : Transaction) → assemble (filled t) t.address t.value ≡ ok t
unfolding assemble
filled-assemble t = refl

check_iff :
    (checks : Bool) (address : Trits) (value : ℤ) (b : TransactionBuilder) (t : Transaction)
    → (check checks address value b ≡ some (ok t))
      ↔ (ValueFits checks value × AddressFits address value × (assemble b address value ≡ ok t))
unfolding check abs_i64
check_iff checks address value b t = (λ e. ground arith, λ f. ground arith)

assemble-value :
    (b : TransactionBuilder) (address : Trits) (value : ℤ) (t : Transaction)
    → assemble b address value ≡ ok t
    → (t.address ≡ address) × (t.value ≡ value)
unfolding assemble
assemble-value b address value t e = ground arith

-- A transaction is built exactly when every field is given, its value is at most the supply, and the
-- address ends with a zero if the value is not 0; it holds the given fields. Without overflow checks
-- the least `i64` passes for a value, too.
pub build_iff :
    (checks : Bool) (b : TransactionBuilder) (t : Transaction)
    → (build checks b ≡ some (ok t))
      ↔ ((b ≡ filled t) × ValueFits checks t.value × AddressFits t.address t.value)
unfolding build
build_iff checks b t = (built→, →built)
  where
    built→ :
        build checks b ≡ some (ok t)
        → (b ≡ filled t) × ValueFits checks t.value × AddressFits t.address t.value
    built→ e = elim (Option-cases b.value) [
      | inl f ↦ absurd (ground arith)
      | inr (value, f) ↦ elim (Option-cases b.address) [
        | inl g ↦ absurd (ground arith)
        | inr (address, g) ↦
            let checked : check checks address value b ≡ some (ok t) = ground arith in
            let (v, a, made) = (check_iff checks address value b t).0 checked in
            let (same_address, same_value) = assemble-value b address value t made in
            (
              assemble-filled b address value t g f made,
              rw same_value v,
              rw (same_address, same_value) a,
            )
      ]
    ]

    →built :
        (b ≡ filled t) × ValueFits checks t.value × AddressFits t.address t.value
        → build checks b ≡ some (ok t)
    →built (same, v, a) =
        rw same ((check_iff checks t.address t.value (filled t) t).1 (v, a, filled-assemble t))
