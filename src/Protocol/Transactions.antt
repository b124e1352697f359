-- ===== src/Protocol/Transactions.antt =====
-- `TransactionWorker` of bee-protocol/src/worker/transaction/transaction.rs. A panic is `none`, and
-- so is a walk that does not end within the fuel.
pub mod Delivery
pub mod Total
use bee_p.Common.{
  ℕ, Bool, true, false, not, ◌&&◌, ◌||◌, ◌==◌, ltb, Option, none, some, List, [], ◌∷◌, ◌++◌, length,
  Result, ok, err, if◌then◌else◌, ◌>>=◌,
}
use bee_p.Common.Assoc.{lookup, erase}
use bee_p.Bundle.Transaction.{Trits, Transaction, TransactionError, hash_eq, trits_eq, is_tail}
use bee_p.Bundle.FromTrits.{from_trits}
use bee_p.HashCache
use bee_p.Message.TransactionBroadcast.{TransactionBroadcast}
use bee_p.Protocol.Codec.{decode_broadcast}
use bee_p.Protocol.{
  Protocol, ProtocolConfig, broadcast_transaction_message, trigger_transaction_solidification,
  trigger_milestone_solidification,
}
use bee_p.Tangle.{TransactionRef, transaction_ref, hash_number, insert_transaction, is_synced}
use bee_p.Tangle.Hash.{hash_weight}
use bee_p.Tangle.Walk.Trunk.{Found, trunk_walk_approvers}

-- `is_empty` of the map of requests.
abbrev pub is_empty {ℓ} : {A : Type ℓ} → List A → Bool
is_empty [] = true
is_empty (x ∷ xs) = false

-- `chain.last()`, where it is a tail.
unfoldable pub last_tail : List Found → Option ℕ
last_tail [] = none
last_tail ((r, hash) ∷ []) = if r.index == 0 then some hash else none
last_tail (first ∷ second ∷ rest) = last_tail (second ∷ rest)

-- Solidification, if this node lags behind and asks for nothing.
abbrev pub catch_up : Protocol → Protocol
catch_up p =
    if not (is_synced p.tangle) && is_empty p.requested
    then trigger_milestone_solidification p
    else p

-- A transaction that was asked for is not passed on.
abbrev pub announce : ℕ → TransactionBroadcast → ℕ → Protocol → Protocol
announce from message hash p = elim (lookup hash p.requested) [
  | some index ↦
      trigger_transaction_solidification hash index
        (record p { requested = erase hash p.requested })
  | none ↦ broadcast_transaction_message (some from) message p
]

abbrev pub of_coordinator : ProtocolConfig → Transaction → Bool
of_coordinator config t =
    trits_eq t.address config.coordinator_public_key || trits_eq t.address config.null_address

abbrev pub same_bundle : Transaction → TransactionRef → Bool
same_bundle t r = hash_eq r.content.bundle t.bundle

unfoldable pub find_tail : ℕ → Transaction → ℕ → Protocol → Option (Option ℕ)
find_tail fuel t hash p =
    if is_tail t
    then some (some hash)
    else elim (trunk_walk_approvers (same_bundle t) p.tangle fuel hash) [
      | none ↦ none
      | some chain ↦ some (last_tail chain)
    ]

abbrev pub send_tail : Option ℕ → Protocol → Protocol
send_tail none p = p
send_tail (some tail) p = record p {
  milestone_validator_worker = p.milestone_validator_worker ++ (tail ∷ []);
}

unfoldable pub check_milestone : ProtocolConfig → ℕ → Transaction → ℕ → Protocol → Option Protocol
check_milestone config fuel t hash p =
    if of_coordinator config t
    then (do tail ← find_tail fuel t hash p; some (send_tail tail p))
    else some p

-- The hash function of the cache and `curl.digest` are parameters.
module _ (xx_hash : List ℕ → ℕ) (digest : Trits → Trits) (checks : Bool) (fuel : ℕ)
    (config : ProtocolConfig) where
  -- From `insert_transaction` on.
  unfoldable pub store : ℕ → TransactionBroadcast → Transaction → ℕ → Protocol → Option Protocol
  store from message t hash p =
      let (tangle, inserted) = insert_transaction (transaction_ref t) hash p.tangle in
      let stored = record p { tangle = tangle } in
      elim inserted [
        | none ↦ some stored
        | some _ ↦ check_milestone config fuel t hash (announce from message hash (catch_up stored))
      ]

  -- From the digest on. `from_inner_unchecked` panics on a hash of another length.
  unfoldable pub accept :
      ℕ → TransactionBroadcast → Trits → Transaction → Protocol → Option Protocol
  accept from message trits t p =
      if length (digest trits) == 243
      then (do
        weight ← hash_weight (digest trits)
        if ltb weight config.mwm
            then some p
            else store from message t (hash_number (digest trits)) p)
      else none

  unfoldable pub build : ℕ → TransactionBroadcast → Trits → Protocol → Option Protocol
  build from message trits p = do
    built ← from_trits checks trits
    elim built [ ok t ↦ accept from message trits t p | err e ↦ some p ]

  -- The block that makes `transaction_buf`, and what follows it.
  unfoldable pub read : ℕ → TransactionBroadcast → Protocol → Option Protocol
  read from message p = do
    decoded ← decode_broadcast message
    elim decoded [ some trits ↦ build from message trits p | none ↦ some p ]

  unfoldable pub process_transaction_broadcast :
      ℕ → TransactionBroadcast → Protocol → Option Protocol
  process_transaction_broadcast from message p = do
    (cache, inserted) ← HashCache.insert xx_hash message.transaction p.cache
    if inserted
        then read from message (record p { cache = cache })
        else some (record p { cache = cache })
