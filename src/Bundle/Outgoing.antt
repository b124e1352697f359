-- ===== src/Bundle/Outgoing.antt =====
-- bee-bundle/src/bundle/outgoing_bundle_builder.rs, without `sign`. The stages of the builder are types
-- only: the state is the list of the transaction builders. The sponge is a type parameter: what it
-- squeezes after it has absorbed the essences is a parameter here, `none` where it fails. `none` as a
-- result is a panic.
pub mod Hashed
pub mod Tag
pub mod Sealed
pub mod Returns
mod Tests
use bee_p.Common.{
  ℕ, zero, suc, ◌+◌, ◌-◌, ◌&&◌, Bool, true, false, not, Option, none, some, List, [], ◌∷◌, ◌++◌,
  length, ltb, ◌==◌, if◌then◌else◌, Result, ok, err, ◌>>=◌,
}
use bee_p.Common.Int.{ℤ, pos, neg_part, nat_abs, ltb_ℤ, add_i64}
use bee_p.Ternary.{Btrit, neg_one, no_one, plus_one, same_trit}
use bee_p.Signing.Normalize.{normalize_hash}
use bee_p.Bundle.Transaction.{Trits, Transaction, TransactionError, FieldName, iota_supply}
use bee_p.Bundle.Builder.{
  TransactionBuilder, abs_i64, with_index, with_last_index, with_bundle, with_obsolete_tag,
}
use bee_p.Bundle.Builder.Essence.{essence}
use bee_p.Bundle.Builder

pub data OutgoingBundleBuilderError : Type 0 where
  empty : OutgoingBundleBuilderError
  unsigned_input : OutgoingBundleBuilderError
  invalid_value : ℤ → OutgoingBundleBuilderError
  missing_transaction_builder_field : FieldName → OutgoingBundleBuilderError
  transaction_error : TransactionError → OutgoingBundleBuilderError
  failed_signing_operation : OutgoingBundleBuilderError

abbrev pub Builders : Type 0
Builders = List TransactionBuilder

abbrev pub Answer : Type 0 → Type 0
Answer A = Option (Result OutgoingBundleBuilderError A)

-- `?`: a panic and an error end it.
unfoldable pub and_then : {A B : Type 0} → Answer A → (A → Answer B) → Answer B
and_then none f = none
and_then (some (err e)) f = some (err e)
and_then (some (ok a)) f = f a

-- What the bundle builder is made for.
pub record Settings : Type 0 where
  pub overflow_checks : Bool
  pub squeeze : List Trits → Option Trits

abbrev pub push : TransactionBuilder → Builders → Builders
push builder builders = builders ++ (builder ∷ [])

-- Whether one of the chunks of three trits is an M.
unfoldable pub has_m_bug : Trits → Bool
has_m_bug (a ∷ b ∷ c ∷ trits) =
    let more = has_m_bug trits in
    if same_trit a plus_one && same_trit b plus_one && same_trit c plus_one then true else more
has_m_bug (a ∷ b ∷ []) = same_trit a plus_one && same_trit b plus_one
has_m_bug (a ∷ []) = same_trit a plus_one
has_m_bug [] = false

-- `obsolete_tag + 1`
unfoldable pub increment : Trits → Trits
increment [] = []
increment (neg_one ∷ trits) = no_one ∷ trits
increment (no_one ∷ trits) = plus_one ∷ trits
increment (plus_one ∷ trits) = neg_one ∷ increment trits

unfoldable pub essences : Builders → Option (List Trits)
essences [] = some []
essences (b ∷ bs) = do e ← essence b; es ← essences bs; some (e ∷ es)

-- The hash of the builders, and whether it has the bug.
unfoldable pub attempt : Settings → Builders → Option (Trits × Bool)
attempt s builders = do
  absorbed ← essences builders
  hash ← s.squeeze absorbed
  normalized ← normalize_hash hash
  some (hash, has_m_bug normalized)

-- The loop, with fuel: `obsolete_tag` is the one of the first builder. The code has no bound for it, so
-- `none` also stands for a loop that is still running. `from_inner_unchecked` panics on a hash that does not
-- have 243 trits.
unfoldable pub find_hash :
    Settings → ℕ → Trits → TransactionBuilder → Builders → Option (Trits × Builders)
find_hash s zero obsolete_tag first rest = none
find_hash s (suc fuel) obsolete_tag first rest = elim (attempt s (first ∷ rest)) [
  | none ↦ none
  | some (hash, m_bug) ↦
      let next = increment obsolete_tag in
      let more = find_hash s fuel next (with_obsolete_tag next first) rest in
      if not m_bug then if length hash == 243 then some (hash, first ∷ rest) else none else more
]

unfoldable pub set_bundle : Trits → Builders → Builders
set_bundle hash [] = []
set_bundle hash (b ∷ bs) = with_bundle hash b ∷ set_bundle hash bs

unfoldable pub calculate_bundle_hash : Settings → ℕ → Builders → Answer Builders
calculate_bundle_hash s fuel [] = some (err empty)
calculate_bundle_hash s fuel (first ∷ rest) = elim first.obsolete_tag [
  | none ↦ some (err (missing_transaction_builder_field FieldName.obsolete_tag))
  | some obsolete_tag ↦ do
    (hash, builders) ← find_hash s fuel obsolete_tag first rest
    some (ok (set_bundle hash builders))
]

-- The tests on the fields, in their order; the value is what the rest goes on with.
unfoldable pub required : TransactionBuilder → Result OutgoingBundleBuilderError ℤ
required b = elim b.payload [
  | none ↦ err (missing_transaction_builder_field FieldName.payload)
  | some payload ↦ elim b.address [
    | none ↦ err (missing_transaction_builder_field FieldName.address)
    | some address ↦ elim b.value [
      | none ↦ err (missing_transaction_builder_field FieldName.value)
      | some value ↦ elim b.tag [
        | none ↦ err (missing_transaction_builder_field FieldName.tag)
        | some tag ↦ ok value
      ]
    ]
  ]
]

-- The sum with one more value, if it does not exceed the supply.
unfoldable pub add_value : Bool → ℤ → ℤ → Answer ℤ
add_value overflow_checks sum value = do
  sum' ← add_i64 overflow_checks sum value
  magnitude ← abs_i64 overflow_checks sum'
  some (if ltb_ℤ (pos iota_supply) magnitude then err (invalid_value sum') else ok sum')

-- The loop over the builders: the builders with their indices, and the sum.
unfoldable pub seal_all : Bool → ℕ → ℕ → ℤ → Builders → Answer (Builders × ℤ)
seal_all checks last_index index sum [] = some (ok ([], sum))
seal_all checks last_index index sum (b ∷ bs) = and_then (some (required b)) λ value.
    and_then (add_value checks sum value) λ sum'.
      and_then (seal_all checks last_index (index + 1) sum' bs) λ (sealed, total).
        some (ok (with_last_index last_index (with_index index b) ∷ sealed, total))

-- What follows the loop.
unfoldable pub seal_hash : Settings → ℕ → Builders → ℤ → Answer Builders
seal_hash s fuel builders sum =
    if not (nat_abs sum == 0)
    then some (err (invalid_value sum))
    else calculate_bundle_hash s fuel builders

-- `len() - 1` comes first, so that an empty bundle panics where overflow is checked for.
unfoldable pub seal : Settings → ℕ → Builders → Answer Builders
seal s fuel [] = if s.overflow_checks then none else some (err empty)
seal s fuel (b ∷ bs) =
    and_then (seal_all s.overflow_checks (length (b ∷ bs) - 1) 0 (pos 0) (b ∷ bs))
      λ (sealed, sum). seal_hash s fuel sealed sum

-- The value of a sealed builder is there, and `unwrap` cannot panic.
unfoldable pub has_no_input : Builders → Answer (Unit {0})
has_no_input [] = some (ok tt)
has_no_input (b ∷ bs) =
    let more = has_no_input bs in
    elim b.value [
      | none ↦ none
      | some value ↦ if ltb 0 (neg_part value) then some (err unsigned_input) else more
    ]

-- `attach_local` and `attach_remote` of a sealed bundle; the hashes are not used.
abbrev pub attach : Trits → Trits → Builders → Answer Builders
attach trunk branch builders = and_then (has_no_input builders) λ _. some (ok builders)

abbrev pub map_err :
    {A : Type 0}
    → (TransactionError → OutgoingBundleBuilderError)
    → Option (Result TransactionError A)
    → Answer A
map_err f none = none
map_err f (some (err e)) = some (err (f e))
map_err f (some (ok a)) = some (ok a)

-- `build` of an attached bundle.
unfoldable pub build : Bool → Builders → Answer (List Transaction)
build checks [] = some (ok [])
build checks (b ∷ bs) =
    and_then (map_err transaction_error (Builder.build checks b))
      λ t. and_then (build checks bs) λ ts. some (ok (t ∷ ts))
