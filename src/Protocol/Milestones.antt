-- ===== src/Protocol/Milestones.antt =====
-- bee-protocol/src/milestone/{milestone,builder}.rs and bee-protocol/src/worker/milestone_validator.rs.
-- `verify` of the public key is a parameter, which can panic, too; a panic is `none`.
pub mod Validated
use bee_p.Common.{
  ℕ, zero, suc, ◌-◌, ◌*◌, ◌%◌, ◌^◌, ◌==◌, ltb, Bool, true, false, Option, none, some, List, [], ◌∷◌,
  ◌++◌, length, get_elem?, Result, ok, err, if◌then◌else◌, ◌>>=◌,
}
use bee_p.Common.Int.{ℤ, as_u64}
use bee_p.Ternary.{TritsI64ConversionError, i64_try_from}
use bee_p.Bundle.Transaction.{Trits, Transaction}
use bee_p.Signing.Normalize.{normalize_hash}
use bee_p.Protocol.{Protocol, ProtocolConfig}
use bee_p.Tangle.{
  Tangle, TransactionRef, get_transaction, add_milestone, update_last_milestone_index,
}

abbrev pub payload_trit_len : ℕ
payload_trit_len = 6561

pub record Milestone : Type 0 where
  pub hash : ℕ
  pub index : ℕ

pub data MilestoneBuilderError (E : Type 0) : Type 0 where
  empty : MilestoneBuilderError E
  invalid_signature : MilestoneBuilderError E
  signature_error : E → MilestoneBuilderError E
  invalid_index : TritsI64ConversionError → MilestoneBuilderError E

pub record MilestoneBuilder : Type 0 where
  pub hash : ℕ
  pub index : ℕ
  pub depth : ℕ
  pub transactions : List Transaction

pub data MilestoneValidatorWorkerError (E : Type 0) : Type 0 where
  unknown_tail : MilestoneValidatorWorkerError E
  not_a_tail : MilestoneValidatorWorkerError E
  incomplete_bundle : MilestoneValidatorWorkerError E
  invalid_milestone : MilestoneBuilderError E → MilestoneValidatorWorkerError E

-- The payloads one behind the other. `copy_from` panics on another length.
unfoldable pub signature_buf : List Transaction → Option Trits
signature_buf [] = some []
signature_buf (t ∷ ts) = do
  rest ← signature_buf ts
  if length t.payload == payload_trit_len then some (t.payload ++ rest) else none

-- `as u32`
abbrev pub as_u32 : ℤ → ℕ
as_u32 v = as_u64 v % 2 ^ 32

abbrev pub build : MilestoneBuilder → Milestone
build b = record { hash = b.hash; index = b.index }

-- The loop along the trunks: as many transactions behind this one.
unfoldable pub collect_trunk : ℕ → TransactionRef → Tangle → Option (List Transaction)
collect_trunk zero t tangle = some []
collect_trunk (suc n) t tangle = do
  next ← get_transaction t.trunk tangle
  rest ← collect_trunk n next tangle
  some (next.content ∷ rest)

abbrev pub built :
    {E : Type 0}
    → Result (MilestoneBuilderError E) MilestoneBuilder
    → Result (MilestoneValidatorWorkerError E) Milestone
built (ok b) = ok (build b)
built (err e) = err (invalid_milestone e)

-- What `run` does with a milestone.
abbrev pub on_milestone : Milestone → Tangle → Tangle
on_milestone milestone tangle =
    if ltb tangle.last_milestone_index milestone.index
    then update_last_milestone_index milestone.index
        (add_milestone milestone.index milestone.hash tangle)
    else add_milestone milestone.index milestone.hash tangle

-- The public key of a depth, the index, the signature and the normalized hash.
module _ {E : Type 0} (verify : Trits → ℕ → ℕ → Trits → Trits → Option (Result E Bool)) where
  abbrev pub verified : Result E Bool → Result (MilestoneBuilderError E) (Unit {0})
  verified (ok true) = ok tt
  verified (ok false) = err invalid_signature
  verified (err e) = err (signature_error e)

  -- With one transaction `len() - 2` is below 0, which panics, here or at the `unwrap`.
  unfoldable pub validate_signatures :
      MilestoneBuilder → Option (Result (MilestoneBuilderError E) (Unit {0}))
  validate_signatures b = do
    signature ← signature_buf b.transactions
    first ← get_elem? b.transactions 0
    root ←
        if ltb (length b.transactions) 2
        then none
        else get_elem? b.transactions (length b.transactions - 2)
    hash ← normalize_hash root.trunk
    answer ← verify first.address b.depth b.index signature hash
    some (verified answer)

  abbrev pub indexed :
      MilestoneBuilder
      → Result TritsI64ConversionError ℤ
      → Option (Result (MilestoneBuilderError E) MilestoneBuilder)
  indexed b (err e) = some (err (invalid_index e))
  indexed b (ok v) = do
    checked ← validate_signatures (record b { index = as_u32 v })
    elim checked [ ok _ ↦ some (ok (record b { index = as_u32 v })) | err e ↦ some (err e) ]

  unfoldable pub validate :
      MilestoneBuilder → Option (Result (MilestoneBuilderError E) MilestoneBuilder)
  validate b = elim (get_elem? b.transactions 0) [
    | none ↦ some (err empty)
    | some first ↦ indexed b (i64_try_from first.obsolete_tag)
  ]

  unfoldable pub validate_milestone :
      ProtocolConfig → ℕ → Tangle → Option (Result (MilestoneValidatorWorkerError E) Milestone)
  validate_milestone config tail_hash tangle = elim (get_transaction tail_hash tangle) [
    | none ↦ some (err unknown_tail)
    | some tail ↦
        if tail.index == 0
        then elim (collect_trunk config.coordinator_security_level tail tangle) [
          | none ↦ some (err incomplete_bundle)
          | some rest ↦ (do
            r ← validate (record {
              hash = tail_hash;
              index = 0;
              depth = config.coordinator_depth;
              transactions = tail.content ∷ rest;
            })
            some (built r))
        ]
        else some (err not_a_tail)
  ]

  -- The loop's body in `run`.
  unfoldable pub on_tail : ProtocolConfig → ℕ → Tangle → Option Tangle
  on_tail config tail_hash tangle = do
    r ← validate_milestone config tail_hash tangle
    elim r [ ok milestone ↦ some (on_milestone milestone tangle) | err e ↦ some tangle ]
