-- ===== src/Peer/Worker.antt =====
-- `PeerWorker` of bee-protocol/src/worker/peer/peer.rs, with the fields of `HandshakedPeer`
-- (bee-protocol/src/peer/handshaked_peer.rs) that it writes, the global metrics, and the senders of
-- the channels to the other workers. Logging is left out.
pub mod Answers
pub mod Delivery
use mathlib.Core.Option
use bee_p.Common.{
  ℕ, Bool, true, false, Option, none, some, List, [], ◌∷◌, ◌++◌, ◌==◌, if◌then◌else◌, Result, ok,
  err, ◌>>=◌,
}
use bee_p.Message.Header.{Header}
use bee_p.Message.Tlv.{TlvError, tlv_from_bytes}
use bee_p.Message.MilestoneRequest.{MilestoneRequest, milestone_request}
use bee_p.Message.TransactionBroadcast.{TransactionBroadcast, transaction_broadcast}
use bee_p.Message.TransactionRequest.{TransactionRequest, transaction_request}
use bee_p.Message.Heartbeat.{Heartbeat, heartbeat}
use bee_p.Peer.Metrics
use bee_p.Peer.Metrics.{ProtocolMetrics}
use bee_p.Peer.Reader.{ReadContext, fresh, receive}

-- An `mpsc::Sender`: what was sent, and whether the receiver is still there. `send` waits where the
-- channel is full, so it fails only where the receiver is gone.
pub record Channel (E : Type 0) : Type 0 where
  pub is_connected : Bool
  pub sent : List E

pub data PeerWorkerError : Type 0 where
  failed_send : PeerWorkerError

-- Each event carries the `epid` of the peer that it came from.
pub record MilestoneResponderWorkerEvent : Type 0 where
  pub epid : ℕ
  pub request : MilestoneRequest

pub record TransactionWorkerEvent : Type 0 where
  pub from : ℕ
  pub transaction_broadcast : TransactionBroadcast

pub record TransactionResponderWorkerEvent : Type 0 where
  pub epid : ℕ
  pub request : TransactionRequest

pub record PeerWorker : Type 0 where
  pub epid : ℕ
  pub solid_milestone_index : ℕ
  pub snapshot_milestone_index : ℕ
  pub metrics : ProtocolMetrics
  pub protocol_metrics : ProtocolMetrics
  pub transaction_worker : Channel TransactionWorkerEvent
  pub transaction_responder_worker : Channel TransactionResponderWorkerEvent
  pub milestone_responder_worker : Channel MilestoneResponderWorkerEvent

unfoldable pub send : {E : Type 0} → E → Channel E → Option (Channel E)
send e c = if c.is_connected then some (record c { sent = c.sent ++ (e ∷ []) }) else none

abbrev pub Outcome : Type 0
Outcome = PeerWorker × Result PeerWorkerError (Unit {0})

-- Both metrics, the peer's and the global ones, count alike.
abbrev pub count : (ProtocolMetrics → ProtocolMetrics) → PeerWorker → PeerWorker
count inc w = record w { metrics = inc w.metrics; protocol_metrics = inc w.protocol_metrics }

abbrev pub invalid : PeerWorker → Outcome
invalid w = (count Metrics.invalid_messages_received_inc w, ok tt)

abbrev pub on_milestone_request : Result TlvError MilestoneRequest → PeerWorker → Outcome
on_milestone_request (err e) w = invalid w
on_milestone_request (ok message) w =
    elim (send (record { epid = w.epid; request = message }) w.milestone_responder_worker) [
      | none ↦ (w, err failed_send)
      | some channel ↦ (
        count Metrics.milestone_request_received_inc
            (record w { milestone_responder_worker = channel }),
        ok tt,
      )
    ]

abbrev pub on_transaction_broadcast : Result TlvError TransactionBroadcast → PeerWorker → Outcome
on_transaction_broadcast (err e) w = invalid w
on_transaction_broadcast (ok message) w =
    elim (send (record { from = w.epid; transaction_broadcast = message }) w.transaction_worker) [
      | none ↦ (w, err failed_send)
      | some channel ↦ (
        count Metrics.transaction_broadcast_received_inc
            (record w { transaction_worker = channel }),
        ok tt,
      )
    ]

abbrev pub on_transaction_request : Result TlvError TransactionRequest → PeerWorker → Outcome
on_transaction_request (err e) w = invalid w
on_transaction_request (ok message) w =
    elim (send (record { epid = w.epid; request = message }) w.transaction_responder_worker) [
      | none ↦ (w, err failed_send)
      | some channel ↦ (
        count Metrics.transaction_request_received_inc
            (record w { transaction_responder_worker = channel }),
        ok tt,
      )
    ]

abbrev pub on_heartbeat : Result TlvError Heartbeat → PeerWorker → Outcome
on_heartbeat (err e) w = invalid w
on_heartbeat (ok message) w = (
  count Metrics.heartbeat_received_inc (record w {
    solid_milestone_index = message.solid_milestone_index;
    snapshot_milestone_index = message.snapshot_milestone_index;
  }),
  ok tt,
)

-- The match on `header.message_type`.
unfoldable pub process_message : Header → List ℕ → PeerWorker → Option Outcome
process_message h bytes w =
    if h.message_type == 3
    then (do r ← tlv_from_bytes milestone_request h bytes; some (on_milestone_request r w))
    else if h.message_type == 4
    then (do r ← tlv_from_bytes transaction_broadcast h bytes; some (on_transaction_broadcast r w))
    else if h.message_type == 5
    then (do r ← tlv_from_bytes transaction_request h bytes; some (on_transaction_request r w))
    else if h.message_type == 6
    then (do r ← tlv_from_bytes heartbeat h bytes; some (on_heartbeat r w))
    else some (invalid w)

-- What `message_handler` goes on with: it only logs the error.
unfoldable pub handle : Header → List ℕ → PeerWorker → Option PeerWorker
handle h bytes w = Option.map (λ (o : Outcome). o.0) (process_message h bytes w)

-- The loop of `run` over the chunks that arrive before the shutdown.
unfoldable pub run : List (List ℕ) → PeerWorker → Option PeerWorker
run chunks w = do (_, w') ← receive handle fresh chunks w; some w'
