-- ===== src/Protocol/Requests/Answers.antt =====
-- What the responders and the broadcaster do.
use bee_p.Common.{
  ℕ, ◌^◌, ◌<◌, ◌≤◌, ◌≡◌, refl, Bool, false, Option, some, List, [], ◌∷◌, length, ok, arith,
  if◌then◌else◌,
}
use mathlib.Core.Path.{subst}
use mathlib.Core.List.{map}
use bee_p.Common.Set.{has}
use bee_p.Bundle.Transaction.{Trits}
use bee_p.Bundle.FromTrits.{from_trits}
use bee_p.Bundle.IntoTrits.Writes.{IsValid}
use bee_p.Message.TransactionBroadcast.{TransactionBroadcast}
use bee_p.Protocol.Codec.{decode_bytes, encode_bytes, decode_hash, decode_broadcast}
use bee_p.Protocol.Codec.RoundTrip.{decode_bytes-encode_bytes, broadcast_roundtrip}
use bee_p.Protocol.{Protocol, Sent, send}
use bee_p.Protocol.Requests.{
  answer, respond_transaction, transaction_request_for, broadcast, is_other,
}
use bee_p.Tangle.{TransactionRef, get_transaction}
use bee_p.Tangle.Hash.{hash_trits, hash_trit_len, hash_number-hash_trits, length-hash_trits}

-- The hash of a request is the one that it was made for.
decode_hash-request :
    (hash : ℕ)
    → decode_hash (encode_bytes (hash_trits 243 hash)) ≡ some (hash_trits hash_trit_len hash)
unfolding decode_hash
decode_hash-request hash =
    subst (λ n. decode_bytes (encode_bytes (hash_trits 243 hash)) n ≡ some (hash_trits 243 hash))
      (length-hash_trits 243 hash) (decode_bytes-encode_bytes (hash_trits 243 hash)).1

-- The peer that asks gets this message, if it is handshaked.
answer_lem :
    (checks : Bool) (epid : ℕ) (r : TransactionRef) (p : Protocol)
    → IsValid r.content
    → (m : TransactionBroadcast) × (answer epid (some r) p
        ≡ some (send epid (Sent.transaction_broadcast m) p))
      × (292 ≤ length m.transaction)
      × (length m.transaction ≤ 1604)
      × (trits : Trits) × (decode_broadcast m ≡ some (some trits))
      × (from_trits checks trits ≡ some (ok r.content))
answer_lem checks epid r p v =
    let (m, e, low, high, trits, decoded, built) = broadcast_roundtrip checks r.content v in
    (m, rw (e) refl, low, high, trits, decoded, built)

-- A peer that requests the hash of a transaction of the tangle, where it is valid, is sent, if it is handshaked, a broadcast
-- that is within the size range, and whose receiver reads the same transaction from it.
pub request_answered :
    (checks : Bool) (epid hash : ℕ) (r : TransactionRef) (p : Protocol)
    → hash < 3 ^ hash_trit_len
    → get_transaction hash p.tangle ≡ some r
    → IsValid r.content
    → (m : TransactionBroadcast) × (respond_transaction epid (transaction_request_for hash) p
        ≡ some (send epid (Sent.transaction_broadcast m) p))
      × (292 ≤ length m.transaction)
      × (length m.transaction ≤ 1604)
      × (trits : Trits) × (decode_broadcast m ≡ some (some trits))
      × (from_trits checks trits ≡ some (ok r.content))
unfolding respond_transaction
request_answered checks epid hash r p small there v =
    let (m, e, low, high, trits, decoded, built) = answer_lem checks epid r p v in
    (
      m,
      rw
          (
            respond_transaction,
            decode_hash-request hash,
            hash_number-hash_trits hash_trit_len hash small,
            there,
          )
          e,
      low,
      high,
      trits,
      decoded,
      built,
    )

-- The broadcaster gives the message to the network for each handshaked peer but the one that it
-- came from, and for no one else.
pub broadcast_to :
    (from : Option ℕ) (bytes : List ℕ) (peers : List ℕ) (to : ℕ)
    → has to (map (λ (x : ℕ × List ℕ). x.0) (broadcast from bytes peers))
      ≡ (if is_other from to then has to peers else false)
unfolding broadcast has
broadcast_to from bytes [] to = ground arith
broadcast_to from bytes (peer ∷ peers) to = ground (arith, broadcast_to from bytes peers to)
