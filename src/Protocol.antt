-- ===== src/Protocol.antt =====
-- bee-protocol/src/protocol/{protocol,helpers}.rs: what the workers of a node share, and how they
-- call one another. The receivers of all channels are there as long as the node runs, so a channel
-- is the list of what was sent and not yet received. Logging is left out.
pub mod Codec
pub mod Queue
pub mod Transactions
pub mod Requests
pub mod Milestones
pub mod Solidification
mod Tests
use bee_p.Common.{◌+◌, ℕ, Bool, List, [], ◌∷◌, ◌++◌, Option, none, some, if◌then◌else◌}
use bee_p.Common.Assoc.{Assoc}
use bee_p.Common.Set.{has}
use bee_p.Bundle.Transaction.{Trits}
use bee_p.HashCache.{TinyHashCache}
use bee_p.Message.Heartbeat.{Heartbeat}
use bee_p.Message.MilestoneRequest.{MilestoneRequest}
use bee_p.Message.TransactionBroadcast.{TransactionBroadcast}
use bee_p.Message.TransactionRequest.{TransactionRequest}
use bee_p.Tangle.{Tangle}

-- What the workers read of `ProtocolConfig`.
pub record ProtocolConfig : Type 0 where
  pub mwm : ℕ
  pub coordinator_public_key : Trits
  pub coordinator_security_level : ℕ
  pub coordinator_depth : ℕ
  pub null_address : Trits

pub record BroadcasterWorkerEvent : Type 0 where
  pub from : Option ℕ
  pub transaction_broadcast : TransactionBroadcast

pub record TransactionRequesterWorkerEntry : Type 0 where
  pub hash : ℕ
  pub index : ℕ

pub record MilestoneRequesterWorkerEntry : Type 0 where
  pub index : ℕ
  pub to : Option ℕ

pub record TransactionSolidifierWorkerEvent : Type 0 where
  pub hash : ℕ
  pub index : ℕ

-- A message for one of the four `SenderWorker`s of a peer.
pub data Sent : Type 0 where
  milestone_request : MilestoneRequest → Sent
  transaction_broadcast : TransactionBroadcast → Sent
  transaction_request : TransactionRequest → Sent
  heartbeat : Heartbeat → Sent

-- The handshaked peers are their endpoints, in the order of an iteration. `sent` is what the sender
-- workers of the peers were given, and `milestone_solidifier_worker` counts its empty events.
pub record Protocol : Type 0 where
  pub tangle : Tangle
  pub cache : TinyHashCache
  pub requested : Assoc ℕ
  pub handshaked_peers : List ℕ
  pub transaction_requester_worker : List TransactionRequesterWorkerEntry
  pub milestone_requester_worker : List MilestoneRequesterWorkerEntry
  pub transaction_solidifier_worker : List TransactionSolidifierWorkerEvent
  pub milestone_solidifier_worker : ℕ
  pub milestone_validator_worker : List ℕ
  pub broadcaster_worker : List BroadcasterWorkerEvent
  pub sent : List (ℕ × Sent)

-- `SenderWorker::send`
unfoldable pub send : ℕ → Sent → Protocol → Protocol
send epid message p =
    if has epid p.handshaked_peers then record p { sent = p.sent ++ ((epid, message) ∷ []) } else p

abbrev pub request_milestone : ℕ → Option ℕ → Protocol → Protocol
request_milestone index to p = record p {
  milestone_requester_worker =
      p.milestone_requester_worker ++ (record { index = index; to = to } ∷ []);
}

abbrev pub request_last_milestone : Option ℕ → Protocol → Protocol
request_last_milestone to p = request_milestone 0 to p

abbrev pub broadcast_transaction_message : Option ℕ → TransactionBroadcast → Protocol → Protocol
broadcast_transaction_message from message p = record p {
  broadcaster_worker =
      p.broadcaster_worker ++ (record { from = from; transaction_broadcast = message } ∷ []);
}

abbrev pub request_transaction : ℕ → ℕ → Protocol → Protocol
request_transaction hash index p = record p {
  transaction_requester_worker =
      p.transaction_requester_worker ++ (record { hash = hash; index = index } ∷ []);
}

abbrev pub send_heartbeat : ℕ → ℕ → ℕ → Protocol → Protocol
send_heartbeat to solid snapshot p =
    send to
      (Sent.heartbeat
        (record { solid_milestone_index = solid; snapshot_milestone_index = snapshot }))
      p

-- The loop over the handshaked peers.
unfoldable pub heartbeat_each : List ℕ → ℕ → ℕ → Protocol → Protocol
heartbeat_each [] solid snapshot p = p
heartbeat_each (epid ∷ epids) solid snapshot p =
    heartbeat_each epids solid snapshot (send_heartbeat epid solid snapshot p)

abbrev pub broadcast_heartbeat : ℕ → ℕ → Protocol → Protocol
broadcast_heartbeat solid snapshot p = heartbeat_each p.handshaked_peers solid snapshot p

abbrev pub trigger_transaction_solidification : ℕ → ℕ → Protocol → Protocol
trigger_transaction_solidification hash index p = record p {
  transaction_solidifier_worker =
      p.transaction_solidifier_worker ++ (record { hash = hash; index = index } ∷ []);
}

abbrev pub trigger_milestone_solidification : Protocol → Protocol
trigger_milestone_solidification p = record p {
  milestone_solidifier_worker = p.milestone_solidifier_worker + 1;
}
