-- ===== src/Peer/Worker/Answers.antt =====
-- What one message does to the `PeerWorker` of bee-protocol/src/worker/peer/peer.rs.
use mathlib.Core.Option
use bee_p.Common.{
  ◌==◌, if◌then◌else◌, Bool, ℕ, ◌+◌, ◌^◌, ◌<◌, ◌≡◌, ◌≢◌, none, some, List, arith, All, leb, ◌&&◌,
  ◌||◌, length,
}
use bee_p.Common.Bytes.{AreBytes}
use bee_p.Message.{Message, contains}
use bee_p.Message.Header.{Header}
use bee_p.Message.Tlv.RoundTrip.{tlv_from_bytes_answers}
use bee_p.Message.MilestoneRequest
use bee_p.Message.MilestoneRequest.{milestone_request, milestone_request-IsLawful}
use bee_p.Message.TransactionBroadcast
use bee_p.Message.TransactionBroadcast.{transaction_broadcast, transaction_broadcast-IsLawful}
use bee_p.Message.TransactionRequest
use bee_p.Message.TransactionRequest.{transaction_request, transaction_request-IsLawful}
use bee_p.Message.Heartbeat
use bee_p.Message.Heartbeat.{heartbeat, heartbeat-IsLawful}
use bee_p.Peer.Metrics.{ProtocolMetrics}
use bee_p.Peer.Reader.{fresh}
use bee_p.Peer.Reader.Total.{receive_answers}
use bee_p.Peer.Worker.{PeerWorker, process_message, handle, run}

-- A message of bytes never panics.
process_message_answers :
    (h : Header) (bytes : List ℕ) (w : PeerWorker)
    → AreBytes bytes
    → process_message h bytes w ≢ none
unfolding process_message
process_message_answers h bytes w b e = ground (
  arith,
  tlv_from_bytes_answers milestone_request MilestoneRequest.IsValid MilestoneRequest.layout
      milestone_request-IsLawful h bytes b,
  tlv_from_bytes_answers transaction_broadcast TransactionBroadcast.IsValid
      TransactionBroadcast.layout transaction_broadcast-IsLawful h bytes b,
  tlv_from_bytes_answers transaction_request TransactionRequest.IsValid TransactionRequest.layout
      transaction_request-IsLawful h bytes b,
  tlv_from_bytes_answers heartbeat Heartbeat.IsValid Heartbeat.layout heartbeat-IsLawful h bytes b,
)

pub handle_answers :
    (h : Header) (bytes : List ℕ) (w : PeerWorker) → AreBytes bytes → handle h bytes w ≢ none
unfolding handle
handle_answers h bytes w b e =
    process_message_answers h bytes w b ((Option.map-eq-none_iff _ (process_message h bytes w)).0 e)

-- Whatever bytes a handshaked peer sends, in whatever chunks, its worker deals with all of them: no
-- message makes it panic, and its loop ends on each chunk.
pub run_answers :
    (chunks : List (List ℕ)) (w : PeerWorker)
    → All AreBytes chunks
    → (w' : PeerWorker) × (run chunks w ≡ some w')
unfolding run
run_answers chunks w b =
    let (context', w', e, _) = receive_answers handle handle_answers fresh chunks w tt b in
    (w', rw e)

-- The messages of any kind that were counted.
abbrev received : ProtocolMetrics → ℕ
received m =
    m.invalid_messages_received + m.milestone_request_received + m.transaction_broadcast_received
    + m.transaction_request_received + m.heartbeat_received

-- The bounds under which no counter that a message can touch wraps.
abbrev CanCount : ProtocolMetrics → Type 0
CanCount m = received m + 1 < 2 ^ 64

abbrev once : Bool → ℕ
once b = if b then 1 else 0

-- One message of a kind more than before; an invalid one is of kind 0.
abbrev pub MovesOnly : ℕ → ProtocolMetrics → ProtocolMetrics → Type 0
MovesOnly kind m m' =
    (m'.invalid_messages_received ≡ m.invalid_messages_received + once (kind == 0))
    × (m'.milestone_request_received ≡ m.milestone_request_received + once (kind == 3))
    × (m'.transaction_broadcast_received ≡ m.transaction_broadcast_received + once (kind == 4))
    × (m'.transaction_request_received ≡ m.transaction_request_received + once (kind == 5))
    × (m'.heartbeat_received ≡ m.heartbeat_received + once (kind == 6))

-- The payload has a size that messages of this type can have.
abbrev pub fits : ℕ → ℕ → Bool
fits kind size =
    ((kind == 3) && (size == 4))
    || ((kind == 4) && leb 292 size && leb size 1604)
    || ((kind == 5) && (size == 49))
    || ((kind == 6) && (size == 8))

-- The kind that a message counts as: its type, if its payload has the length that the header says, and fits; else 0.
abbrev pub kind_of : Header → List ℕ → ℕ
kind_of h bytes =
    if (h.message_length == length bytes) && fits h.message_type (length bytes)
    then h.message_type
    else 0

-- The type, the length and the size range are right.
abbrev good : {M : Type 0} → Message M → Header → List ℕ → Bool
good m h bytes =
    (h.message_type == m.id)
    && (h.message_length == length bytes)
    && contains m.size_range (length bytes)
