-- ===== src/Peer/Sender.antt =====
-- `SenderWorker` of bee-protocol/src/worker/sender.rs, for any message type: the macro there makes
-- one copy for each, with the counter to increment.
use bee_p.Common.{Bool, Option, some, List, [], ◌∷◌, ◌++◌, ℕ, ◌>>=◌, if◌then◌else◌}
use bee_p.Message.{Message}
use bee_p.Message.Tlv.{tlv_into_bytes}
use bee_p.Peer.Metrics.{ProtocolMetrics}

-- What the network was given for this peer, and the two metrics.
pub record Sender : Type 0 where
  pub network : List (List ℕ)
  pub metrics : ProtocolMetrics
  pub protocol_metrics : ProtocolMetrics

module _ {M : Type 0} (m : Message M) (incrementor : ProtocolMetrics → ProtocolMetrics) where
  -- The loop over the messages that arrive before the shutdown, each with whether the network
  -- accepts it. A refusal is only logged.
  unfoldable pub run : List (M × Bool) → Sender → Option Sender
  run [] s = some s
  run ((message, accepted) ∷ messages) s = do
    bytes ← tlv_into_bytes m message
    run messages (
        if accepted
        then record {
          network = s.network ++ (bytes ∷ []);
          metrics = incrementor s.metrics;
          protocol_metrics = incrementor s.protocol_metrics;
        }
        else s)
