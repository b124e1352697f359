-- ===== src/Peer/Tests.antt =====
-- The theorems about peers at concrete inputs.
use bee_p.Common.{
  ℕ, ◌≡◌, refl, true, false, some, List, [], ◌∷◌, ◌++◌, replicate, Result, ok, arith,
}
use mathlib.Core.List.{map}
use bee_p.Common.Bytes.{AreBytes, to_be_bytes, split_at, copy_from_slice}
use bee_p.Message.Header
use bee_p.Message.Header.{Header}
use bee_p.Message.Heartbeat
use bee_p.Message.Tlv.{tlv_into_bytes}
use bee_p.Message.TransactionBroadcast
use bee_p.Message.TransactionBroadcast.{TransactionBroadcast, transaction_broadcast}
use bee_p.Peer.Metrics
use bee_p.Peer.Metrics.{ProtocolMetrics}
use bee_p.Peer.Reader.{ReadContext, fresh, message_handler, receive}
use bee_p.Peer.Reader.Chunks.{concat, receive_chunks}
use bee_p.Peer.Reader.Total.{receive_answers}
use bee_p.Peer.Sender
use bee_p.Peer.Sender.{Sender}
use bee_p.Peer.Worker.{PeerWorker, PeerWorkerError, handle, run}
use bee_p.Peer.Worker.Answers.{handle_answers, run_answers}
use bee_p.Peer.Worker.Delivery.{CanSend, accepted, event, broadcasts_delivered}

abbrev worker : PeerWorker
worker = record {
  epid = 9;
  solid_milestone_index = 0;
  snapshot_milestone_index = 0;
  metrics = Metrics.default;
  protocol_metrics = Metrics.default;
  transaction_worker = record { is_connected = true; sent = [] };
  transaction_responder_worker = record { is_connected = true; sent = [] };
  milestone_responder_worker = record { is_connected = false; sent = [] };
}

-- A heartbeat of 7 and 5.
abbrev beat_header : Header
beat_header = record { message_type = 6; message_length = 8 }

abbrev beat_bytes : List ℕ
beat_bytes = 0 ∷ 0 ∷ 0 ∷ 7 ∷ 0 ∷ 0 ∷ 0 ∷ 5 ∷ []

abbrev first_chunk : List ℕ
first_chunk = 6 ∷ 0 ∷ []

abbrev second_chunk : List ℕ
second_chunk = 8 ∷ beat_bytes

receive_chunks_example :
    receive handle fresh (first_chunk ∷ second_chunk ∷ []) worker
    ≡ message_handler handle fresh (concat (first_chunk ∷ second_chunk ∷ [])) worker
receive_chunks_example = receive_chunks handle fresh first_chunk (second_chunk ∷ []) worker

run_answers_example : (w : PeerWorker) × (run (first_chunk ∷ second_chunk ∷ []) worker ≡ some w)
run_answers_example = run_answers (first_chunk ∷ second_chunk ∷ []) worker (omega arith)

receive_answers_example :
    (context : ReadContext) × (w : PeerWorker) × (receive handle fresh (first_chunk ∷ []) worker
      ≡ some (context, w))
    × AreBytes context.buffer
receive_answers_example =
    receive_answers handle handle_answers fresh (first_chunk ∷ []) worker tt (omega arith)

abbrev counted : PeerWorker
counted = record worker {
  solid_milestone_index = 7;
  snapshot_milestone_index = 5;
  metrics = Metrics.heartbeat_received_inc Metrics.default;
  protocol_metrics = Metrics.heartbeat_received_inc Metrics.default;
}

abbrev dealt_with : Result PeerWorkerError (Unit {0})
dealt_with = ok tt

abbrev broadcast : TransactionBroadcast
broadcast = record { transaction = replicate 300 1 }

broadcast-CanSend : CanSend broadcast
broadcast-CanSend = record { valid = record { are_bytes = omega arith }; fits = refl }

abbrev idle : Sender
idle = record { network = []; metrics = Metrics.default; protocol_metrics = Metrics.default }

abbrev message_bytes : List ℕ
message_bytes = 4 ∷ 1 ∷ 44 ∷ replicate 300 1

abbrev sent : Sender
sent = record {
  network = message_bytes ∷ [];
  metrics = Metrics.transaction_broadcast_sent_inc Metrics.default;
  protocol_metrics = Metrics.transaction_broadcast_sent_inc Metrics.default;
}

broadcast_sent :
    Sender.run transaction_broadcast Metrics.transaction_broadcast_sent_inc
      (map accepted (broadcast ∷ []))
      idle
    ≡ some sent
unfolding Sender.run tlv_into_bytes TransactionBroadcast.size TransactionBroadcast.into_bytes
    split_at copy_from_slice Header.to_bytes to_be_bytes
broadcast_sent = refl

broadcasts_delivered_example :
    (w' : PeerWorker) × (run ((4 ∷ []) ∷ (1 ∷ 44 ∷ replicate 300 1) ∷ []) worker ≡ some w')
    × (w'.transaction_worker.sent ≡ [] ++ map (event worker) (broadcast ∷ []))
broadcasts_delivered_example =
    broadcasts_delivered (broadcast ∷ []) Metrics.transaction_broadcast_sent_inc idle sent (4 ∷ [])
      ((1 ∷ 44 ∷ replicate 300 1) ∷ []) worker (broadcast-CanSend, tt) refl broadcast_sent refl refl
