-- ===== src/Bundle/Builder.antt =====
-- `TransactionBuilder` of bee-bundle/src/transaction/builder.rs.
pub mod Accepts
pub mod Essence
use bee_p.Common.{
  ℕ, zero, suc, ◌+◌, ◌-◌, ◌^◌, ◌&&◌, Bool, true, false, not, Option, none, some, List, [], ◌∷◌, ltb,
  ◌==◌, if◌then◌else◌, Result, ok, err,
}
use bee_p.Common.Int.{ℤ, pos, negsuc, pos_part, nat_abs, ltb_ℤ}
use bee_p.Ternary.{Btrit, is_zero}
use bee_p.Bundle.Transaction.{
  Trits, Transaction, TransactionError, FieldName, missing_field, invalid_value, invalid_address,
  iota_supply,
}

pub record TransactionBuilder : Type 0 where
  pub payload : Option Trits
  pub address : Option Trits
  pub value : Option ℤ
  pub obsolete_tag : Option Trits
  pub timestamp : Option ℕ
  pub index : Option ℕ
  pub last_index : Option ℕ
  pub bundle : Option Trits
  pub trunk : Option Trits
  pub branch : Option Trits
  pub tag : Option Trits
  pub attachment_ts : Option ℕ
  pub attachment_lbts : Option ℕ
  pub attachment_ubts : Option ℕ
  pub nonce : Option Trits

abbrev pub new : TransactionBuilder
new = record {
  payload = none;
  address = none;
  value = none;
  obsolete_tag = none;
  timestamp = none;
  index = none;
  last_index = none;
  bundle = none;
  trunk = none;
  branch = none;
  tag = none;
  attachment_ts = none;
  attachment_lbts = none;
  attachment_ubts = none;
  nonce = none;
}

abbrev pub with_payload : Trits → TransactionBuilder → TransactionBuilder
with_payload payload b = record b { payload = some payload }

abbrev pub with_address : Trits → TransactionBuilder → TransactionBuilder
with_address address b = record b { address = some address }

abbrev pub with_value : ℤ → TransactionBuilder → TransactionBuilder
with_value value b = record b { value = some value }

abbrev pub with_obsolete_tag : Trits → TransactionBuilder → TransactionBuilder
with_obsolete_tag obsolete_tag b = record b { obsolete_tag = some obsolete_tag }

abbrev pub with_timestamp : ℕ → TransactionBuilder → TransactionBuilder
with_timestamp timestamp b = record b { timestamp = some timestamp }

abbrev pub with_index : ℕ → TransactionBuilder → TransactionBuilder
with_index index b = record b { index = some index }

abbrev pub with_last_index : ℕ → TransactionBuilder → TransactionBuilder
with_last_index last_index b = record b { last_index = some last_index }

abbrev pub with_tag : Trits → TransactionBuilder → TransactionBuilder
with_tag tag b = record b { tag = some tag }

abbrev pub with_attachment_ts : ℕ → TransactionBuilder → TransactionBuilder
with_attachment_ts attachment_ts b = record b { attachment_ts = some attachment_ts }

abbrev pub with_bundle : Trits → TransactionBuilder → TransactionBuilder
with_bundle bundle b = record b { bundle = some bundle }

abbrev pub with_trunk : Trits → TransactionBuilder → TransactionBuilder
with_trunk trunk b = record b { trunk = some trunk }

abbrev pub with_branch : Trits → TransactionBuilder → TransactionBuilder
with_branch branch b = record b { branch = some branch }

abbrev pub with_attachment_lbts : ℕ → TransactionBuilder → TransactionBuilder
with_attachment_lbts attachment_lbts b = record b { attachment_lbts = some attachment_lbts }

abbrev pub with_attachment_ubts : ℕ → TransactionBuilder → TransactionBuilder
with_attachment_ubts attachment_ubts b = record b { attachment_ubts = some attachment_ubts }

abbrev pub with_nonce : Trits → TransactionBuilder → TransactionBuilder
with_nonce nonce b = record b { nonce = some nonce }

-- `ok_or` of a missing field, and `?`.
abbrev pub ok_or : {A : Type 0} → FieldName → Option A → Result TransactionError A
ok_or field none = err (missing_field field)
ok_or field (some a) = ok a

infixl 5 ◌>>=◌
abbrev pub ◌>>=◌ :
    {A B : Type 0}
    → Result TransactionError A
    → (A → Result TransactionError B)
    → Result TransactionError B
err e >>= f = err e
ok a >>= f = f a

-- `i64::abs`, which overflows on the least `i64`.
unfoldable pub abs_i64 : Bool → ℤ → Option ℤ
abs_i64 overflow_checks (pos n) = some (pos n)
abs_i64 overflow_checks (negsuc n) =
    if not (n == 2 ^ 63 - 1)
    then some (pos (n + 1))
    else if overflow_checks
    then none
    else some (negsuc n)

abbrev pub get : ℕ → Trits → Option Btrit
get n [] = none
get zero (t ∷ ts) = some t
get (suc n) (t ∷ ts) = get n ts

-- The record that `build` returns.
unfoldable pub assemble : TransactionBuilder → Trits → ℤ → Result TransactionError Transaction
assemble b address value = do
  payload ← ok_or FieldName.payload b.payload
  obsolete_tag ← ok_or FieldName.obsolete_tag b.obsolete_tag
  timestamp ← ok_or FieldName.timestamp b.timestamp
  index ← ok_or FieldName.index b.index
  last_index ← ok_or FieldName.last_index b.last_index
  tag ← ok_or FieldName.tag b.tag
  bundle ← ok_or FieldName.bundle b.bundle
  trunk ← ok_or FieldName.trunk b.trunk
  branch ← ok_or FieldName.branch b.branch
  attachment_ts ← ok_or FieldName.attachment_ts b.attachment_ts
  attachment_lbts ← ok_or FieldName.attachment_lbts b.attachment_lbts
  attachment_ubts ← ok_or FieldName.attachment_ubts b.attachment_ubts
  nonce ← ok_or FieldName.nonce b.nonce
  ok (record {
    payload = payload;
    address = address;
    value = value;
    obsolete_tag = obsolete_tag;
    timestamp = timestamp;
    index = index;
    last_index = last_index;
    bundle = bundle;
    trunk = trunk;
    branch = branch;
    tag = tag;
    attachment_ts = attachment_ts;
    attachment_lbts = attachment_lbts;
    attachment_ubts = attachment_ubts;
    nonce = nonce;
  })

-- The tests on the value and on the last trit of the address.
unfoldable pub check :
    Bool → Trits → ℤ → TransactionBuilder → Option (Result TransactionError Transaction)
check overflow_checks address value b = elim (abs_i64 overflow_checks value) [
  | none ↦ none
  | some magnitude ↦
      if ltb_ℤ (pos iota_supply) magnitude
      then some (err (invalid_value value))
      else if nat_abs value == 0
      then some (assemble b address value)
      else elim (get 242 address) [
        | none ↦ none
        | some trit ↦
            if not (is_zero trit)
            then some (err invalid_address)
            else some (assemble b address value)
      ]
]

unfoldable pub build : Bool → TransactionBuilder → Option (Result TransactionError Transaction)
build overflow_checks b = elim b.value [
  | none ↦ some (err (missing_field FieldName.value))
  | some value ↦ elim b.address [
    | none ↦ some (err (missing_field FieldName.address))
    | some address ↦ check overflow_checks address value b
  ]
]
