-- ===== src/Protocol/Transactions/Total.antt =====
-- The transaction worker does not panic on what a peer can send.
use bee_p.Common.{ℕ, ◌≡◌, ok, false, some, List, length}
use bee_p.Bundle.Transaction.{Trits, Transaction}
use bee_p.Bundle.FromTrits.{from_trits}
use bee_p.HashCache
use bee_p.Message.TransactionBroadcast.{TransactionBroadcast}
use bee_p.Protocol.Codec.{decode_broadcast}
use bee_p.Protocol.{Protocol, ProtocolConfig}
use bee_p.Protocol.Transactions.{same_bundle}
use bee_p.Tangle.{Tangle, insert_transaction, transaction_ref, hash_number}
use bee_p.Tangle.Walk.Trunk.{IsRanked}

-- Once this transaction is stored under this hash, the transactions rank above their trunks, up to n.
abbrev pub StaysRanked : ℕ → Transaction → ℕ → Tangle → Type 0
StaysRanked n t hash tangle =
    (rank : ℕ → ℕ) × IsRanked (same_bundle t) (insert_transaction (transaction_ref t) hash tangle).0
      n rank

-- The digest has the length of a hash, on whatever trits.
module _ (xx_hash : List ℕ → ℕ) (digest : Trits → Trits)
    (sized : (trits : Trits) → length (digest trits) ≡ 243) (n : ℕ) (config : ProtocolConfig) where
  -- What is read as a transaction keeps the ranks.
  abbrev pub IsAcyclic : TransactionBroadcast → Tangle → Type 0
  IsAcyclic m tangle =
      (trits : Trits) (t : Transaction)
      → decode_broadcast m ≡ some (some trits)
      → from_trits false trits ≡ some (ok t)
      → StaysRanked n t (hash_number (digest trits)) tangle
