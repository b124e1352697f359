-- ===== src/Protocol/Requests.antt =====
-- bee-protocol/src/worker/{requester,responder}/{transaction,milestone}.rs and broadcaster.rs. The
-- random number of a requester is a parameter.
pub mod Answers
use bee_p.Common.{
  ℕ, ◌==◌, ◌&&◌, not, Bool, true, false, Option, none, some, List, [], ◌∷◌, ◌++◌, length, get_elem?,
  if◌then◌else◌, ◌>>=◌,
}
use bee_p.Common.Assoc.{insert}
use bee_p.Message.MilestoneRequest.{MilestoneRequest}
use bee_p.Message.TransactionBroadcast.{TransactionBroadcast, transaction_broadcast}
use bee_p.Message.TransactionRequest.{TransactionRequest}
use bee_p.Message.Tlv.{tlv_into_bytes}
use bee_p.Protocol.Codec.{decode_hash, encode_broadcast, encode_bytes}
use bee_p.Protocol.{
  Protocol, Sent, send, TransactionRequesterWorkerEntry, MilestoneRequesterWorkerEntry,
  BroadcasterWorkerEvent,
}
use bee_p.Tangle.{
  Tangle, TransactionRef, hash_number, get_transaction, get_milestone, is_solid_entry_point,
  contains_transaction, contains_milestone,
}
use bee_p.Tangle.Hash.{hash_trits, hash_trit_len}

abbrev pub answer : ℕ → Option TransactionRef → Protocol → Option Protocol
answer epid none p = some p
answer epid (some transaction) p = do
  message ← encode_broadcast transaction.content
  some (send epid (Sent.transaction_broadcast message) p)

-- `TransactionResponderWorker::process_request`
unfoldable pub respond_transaction : ℕ → TransactionRequest → Protocol → Option Protocol
respond_transaction epid request p = elim (decode_hash request.hash) [
  | none ↦ some p
  | some hash ↦ answer epid (get_transaction (hash_number hash) p.tangle) p
]

-- The index 0 asks for the last milestone.
abbrev pub asked_index : ℕ → Tangle → ℕ
asked_index index t = if index == 0 then t.last_milestone_index else index

-- `MilestoneResponderWorker::process_request`
unfoldable pub respond_milestone : ℕ → MilestoneRequest → Protocol → Option Protocol
respond_milestone epid request p =
    answer epid (get_milestone (asked_index request.index p.tangle) p.tangle) p

abbrev pub transaction_request_for : ℕ → TransactionRequest
transaction_request_for hash = record { hash = encode_bytes (hash_trits hash_trit_len hash) }

abbrev pub send_to_some : Option ℕ → Sent → Protocol → Protocol
send_to_some none message p = p
send_to_some (some epid) message p = send epid message p

-- `TransactionRequesterWorker::process_request`, with the peer that the random number picks.
unfoldable pub request_transaction_now : ℕ → ℕ → ℕ → Protocol → Protocol
request_transaction_now random hash index p =
    if length p.handshaked_peers == 0
    then p
    else send_to_some (get_elem? p.handshaked_peers random)
        (Sent.transaction_request (transaction_request_for hash))
        (record p { requested = insert hash index p.requested })

-- The loop's body in `TransactionRequesterWorker::run`, for an entry that was popped.
unfoldable pub on_transaction_entry : ℕ → TransactionRequesterWorkerEntry → Protocol → Protocol
on_transaction_entry random entry p =
    if not (is_solid_entry_point entry.hash p.tangle)
      && not (contains_transaction entry.hash p.tangle)
    then request_transaction_now random entry.hash entry.index p
    else p

-- The endpoint that a request of a milestone goes to.
abbrev pub milestone_target : ℕ → Option ℕ → Protocol → Option ℕ
milestone_target random (some epid) p = some epid
milestone_target random none p = get_elem? p.handshaked_peers random

-- `MilestoneRequesterWorker::process_request`
unfoldable pub request_milestone_now : ℕ → ℕ → Option ℕ → Protocol → Protocol
request_milestone_now random index epid p =
    if length p.handshaked_peers == 0
    then p
    else send_to_some (milestone_target random epid p)
        (Sent.milestone_request (record { index = index })) p

unfoldable pub on_milestone_entry : ℕ → MilestoneRequesterWorkerEntry → Protocol → Protocol
on_milestone_entry random entry p =
    if not (contains_milestone entry.index p.tangle)
    then request_milestone_now random entry.index entry.to p
    else p

abbrev pub is_other : Option ℕ → ℕ → Bool
is_other (some from) epid = not (from == epid)
is_other none epid = true

-- `BroadcasterWorker::broadcast`: what the network is given. Its answers are only logged.
unfoldable pub broadcast : Option ℕ → List ℕ → List ℕ → List (ℕ × List ℕ)
broadcast from bytes [] = []
broadcast from bytes (epid ∷ epids) =
    let rest = broadcast from bytes epids in
    if is_other from epid then (epid, bytes) ∷ rest else rest

-- The loop's body in `BroadcasterWorker::run`.
unfoldable pub on_broadcaster_event : BroadcasterWorkerEvent → Protocol → Option (List (ℕ × List ℕ))
on_broadcaster_event event p = do
  bytes ← tlv_into_bytes transaction_broadcast event.transaction_broadcast
  some (broadcast event.from bytes p.handshaked_peers)
