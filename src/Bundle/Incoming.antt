-- ===== src/Bundle/Incoming.antt =====
-- bee-bundle/src/bundle/incoming_bundle_builder.rs. The sponge and the signature scheme are type
-- parameters of the builder: what they give is a parameter here.
pub mod Accepts
use bee_p.Common.{
  ℕ, ◌+◌, ◌-◌, Bool, true, false, not, ◌&&◌, Option, none, some, List, [], ◌∷◌, ◌++◌, length, ltb,
  ◌==◌, if◌then◌else◌, Result, ok, err, ◌>>=◌,
}
use bee_p.Common.Int.{ℤ, pos, nat_abs, ltb_ℤ, add_i64}
use bee_p.Bundle.Transaction.{Trits, Transaction, iota_supply, hash_eq, trits_eq}
use bee_p.Bundle.Builder.{abs_i64}

pub data IncomingBundleBuilderError : Type 0 where
  empty : IncomingBundleBuilderError
  invalid_index : ℕ → IncomingBundleBuilderError
  invalid_last_index : ℕ → IncomingBundleBuilderError
  invalid_value : ℤ → IncomingBundleBuilderError
  invalid_signature : IncomingBundleBuilderError
  invalid_bundle_hash : IncomingBundleBuilderError
  invalid_branch_inconsistency : IncomingBundleBuilderError

-- `overflow_checks`: whether the build checks for overflow. `squeeze`: the trits of the new sponge,
-- or nothing where it fails. `verify`: what the signature scheme says of the empty signature.
pub record Scheme : Type 0 where
  pub overflow_checks : Bool
  pub squeeze : Option Trits
  pub verify : Result (Unit {0}) Bool

abbrev pub push : Transaction → List Transaction → List Transaction
push transaction transactions = transactions ++ (transaction ∷ [])

-- It does not look at the transactions.
abbrev pub calculate_hash : Scheme → Option Trits
calculate_hash s = s.squeeze

unfoldable pub validate_signatures : Scheme → Result IncomingBundleBuilderError (Unit {0})
validate_signatures s = elim s.verify [
  | ok valid ↦ if valid then ok tt else err invalid_signature
  | err _ ↦ err invalid_signature
]

-- The checks of one round of the loop; `none` is a panic. The result is the new sum.
unfoldable pub check_one :
    Scheme → Trits → Trits → ℕ → ℕ → ℤ → Transaction → Option (Result IncomingBundleBuilderError ℤ)
check_one s bundle_hash first_branch last_index index sum transaction =
    if not (index == transaction.index)
    then some (err (invalid_index transaction.index))
    else if not (last_index == transaction.last_index)
    then some (err (invalid_last_index transaction.last_index))
    else (do
      sum' ← add_i64 s.overflow_checks sum transaction.value
      magnitude ← abs_i64 s.overflow_checks sum'
      some (
          if ltb_ℤ (pos iota_supply) magnitude
          then err (invalid_value sum')
          else if (index == 0) && not (trits_eq bundle_hash transaction.bundle)
          then err invalid_bundle_hash
          else if ltb 0 index && not (hash_eq transaction.branch first_branch)
          then err invalid_branch_inconsistency
          else ok sum'))

-- The loop over the transactions that are left.
unfoldable pub check_all :
    Scheme
    → Trits
    → Trits
    → ℕ
    → ℕ
    → ℤ
    → List Transaction
    → Option (Result IncomingBundleBuilderError ℤ)
check_all s bundle_hash first_branch last_index index sum [] = some (ok sum)
check_all s bundle_hash first_branch last_index index sum (transaction ∷ transactions) =
    elim (check_one s bundle_hash first_branch last_index index sum transaction) [
      | none ↦ none
      | some (err e) ↦ some (err e)
      | some (ok sum') ↦
          check_all s bundle_hash first_branch last_index (index + 1) sum' transactions
    ]

-- What follows the loop.
unfoldable pub conclude :
    Scheme
    → List Transaction
    → Result IncomingBundleBuilderError ℤ
    → Result IncomingBundleBuilderError (List Transaction)
conclude s transactions (err e) = err e
conclude s transactions (ok sum) =
    if not (nat_abs sum == 0)
    then err (invalid_value sum)
    else elim (validate_signatures s) [ err e ↦ err e | ok _ ↦ ok transactions ]

unfoldable pub validate :
    Scheme → List Transaction → Option (Result IncomingBundleBuilderError (List Transaction))
validate s [] = some (err empty)
validate s (first ∷ rest) = do
  bundle_hash ← calculate_hash s
  checked ←
      check_all s bundle_hash first.branch (length (first ∷ rest) - 1) 0 (pos 0) (first ∷ rest)
  some (conclude s (first ∷ rest) checked)
