-- ===== src/Peer/Worker/Delivery.antt =====
-- From the sender of one node (bee-protocol/src/worker/sender.rs) to the workers of the other (peer.rs).
use mathlib.Core.List.{map}
use bee_p.Common.{
  ℕ, ◌≡◌, refl, sym, ◌∙◌, ap, Bool, true, some, List, [], ◌∷◌, ◌++◌, All, append_assoc, append-nil,
  length,
}
use bee_p.Message.{contains}
use bee_p.Message.Header.{Header, header_bytes}
use bee_p.Message.Tlv.{tlv_into_bytes}
use bee_p.Message.Tlv.RoundTrip.{tlv_from_bytes-accept, tlv_into_bytes-layout, range_small}
use bee_p.Message.TransactionBroadcast
use bee_p.Message.TransactionBroadcast.{
  TransactionBroadcast, transaction_broadcast, transaction_broadcast-IsLawful,
}
use bee_p.Peer.Metrics
use bee_p.Peer.Metrics.{ProtocolMetrics}
use bee_p.Peer.Reader.Chunks.{concat, wire, IsFramed, process_all, receive-wire}
use bee_p.Peer.Sender
use bee_p.Peer.Sender.{Sender}
use bee_p.Peer.Worker.{
  PeerWorker, TransactionWorkerEvent, process_message, handle, run, count, send,
}

-- A broadcast that can be sent: bytes, of a number in the size range.
pub record CanSend (x : TransactionBroadcast) : Type 0 where
  pub valid : TransactionBroadcast.IsValid x
  pub fits : contains transaction_broadcast.size_range (length x.transaction) ≡ true

abbrev pub header_for : TransactionBroadcast → Header
header_for x = record { message_type = 4; message_length = length x.transaction }

abbrev pub frame : TransactionBroadcast → Header × List ℕ
frame x = (header_for x, x.transaction)

-- All the messages, each accepted by the network.
abbrev pub accepted : TransactionBroadcast → TransactionBroadcast × Bool
accepted x = (x, true)

encoded :
    (x : TransactionBroadcast)
    → CanSend x
    → tlv_into_bytes transaction_broadcast x ≡ some (header_bytes (header_for x) ++ x.transaction)
encoded x c =
    tlv_into_bytes-layout transaction_broadcast TransactionBroadcast.IsValid
      TransactionBroadcast.layout transaction_broadcast-IsLawful x c.valid c.fits

concat-append : (xs ys : List (List ℕ)) → concat (xs ++ ys) ≡ concat xs ++ concat ys
concat-append [] ys = refl
concat-append (x ∷ xs) ys =
    ap (λ zs. x ++ zs) (concat-append xs ys) ∙ sym (append_assoc x (concat xs) (concat ys))

-- The sender never panics on such messages: what it gave to the network is what it had given before, and the wire of the messages.
pub sent-wire :
    (inc : ProtocolMetrics → ProtocolMetrics) (xs : List TransactionBroadcast) (s : Sender)
    → All CanSend xs
    → (s' : Sender) × (Sender.run transaction_broadcast inc (map accepted xs) s ≡ some s')
      × (concat s'.network ≡ concat s.network ++ wire (map frame xs))
unfolding Sender.run
sent-wire inc [] s c = (s, refl, sym (append-nil (concat s.network)))
sent-wire inc (x ∷ xs) s (c, cs) =
    let bytes : List ℕ = header_bytes (header_for x) ++ x.transaction in
    let next : Sender = record {
      network = s.network ++ (bytes ∷ []);
      metrics = inc s.metrics;
      protocol_metrics = inc s.protocol_metrics;
    } in
    let (s', e, whole) = sent-wire inc xs next cs in
    (
      s',
      rw (encoded x c) e,
      whole
          ∙ ap (λ ys. ys ++ wire (map frame xs)) (concat-append s.network (bytes ∷ []))
          ∙ append_assoc (concat s.network) (bytes ++ []) (wire (map frame xs))
          ∙ ap (λ ys. concat s.network ++ (ys ++ wire (map frame xs))) (append-nil bytes)
          ∙ ap (λ ys. concat s.network ++ ys)
              (append_assoc (header_bytes (header_for x)) x.transaction (wire (map frame xs))),
    )

-- The worker once it has dealt with a broadcast.
abbrev pub event : PeerWorker → TransactionBroadcast → TransactionWorkerEvent
event w x = record { from = w.epid; transaction_broadcast = x }

abbrev after : PeerWorker → TransactionBroadcast → PeerWorker
after w x = count Metrics.transaction_broadcast_received_inc (record w {
  transaction_worker = record w.transaction_worker {
    sent = w.transaction_worker.sent ++ (event w x ∷ []);
  };
})

handle-broadcast :
    (x : TransactionBroadcast) (w : PeerWorker)
    → CanSend x
    → w.transaction_worker.is_connected ≡ true
    → handle (header_for x) x.transaction w ≡ some (after w x)
unfolding handle process_message send TransactionBroadcast.from_bytes
handle-broadcast x w c connected = rw (
  tlv_from_bytes-accept transaction_broadcast TransactionBroadcast.IsValid
      TransactionBroadcast.layout transaction_broadcast-IsLawful x.transaction x refl c.fits,
  connected,
)

process_all-broadcasts :
    (xs : List TransactionBroadcast) (w : PeerWorker)
    → All CanSend xs
    → w.transaction_worker.is_connected ≡ true
    → (w' : PeerWorker) × (process_all handle (map frame xs) w ≡ some w')
      × (w'.transaction_worker.sent ≡ w.transaction_worker.sent ++ map (event w) xs)
process_all-broadcasts [] w c connected = (w, refl, sym (append-nil w.transaction_worker.sent))
process_all-broadcasts (x ∷ xs) w (c, cs) connected =
    let (w', e, sent) = process_all-broadcasts xs (after w x) cs connected in
    (
      w',
      rw (handle-broadcast x w c connected) e,
      sent ∙ append_assoc w.transaction_worker.sent (event w x ∷ []) (map (event w) xs),
    )

frames-IsFramed : (xs : List TransactionBroadcast) → All CanSend xs → All IsFramed (map frame xs)
frames-IsFramed [] c = tt
frames-IsFramed (x ∷ xs) (c, cs) = (
  (
    refl,
    range_small transaction_broadcast TransactionBroadcast.IsValid TransactionBroadcast.layout
        transaction_broadcast-IsLawful x.transaction c.fits,
  ),
  frames-IsFramed xs cs,
)

-- Broadcasts that one node's sender has written to the network, however the network cuts their
-- bytes into chunks, reach the transaction worker of the other node if that worker is there: all of
-- them, in order, each with the id of the peer, and nothing else does.
pub broadcasts_delivered :
    (xs : List TransactionBroadcast) (inc : ProtocolMetrics → ProtocolMetrics) (s s' : Sender)
    (chunk : List ℕ) (chunks : List (List ℕ)) (w : PeerWorker)
    → All CanSend xs
    → s.network ≡ []
    → Sender.run transaction_broadcast inc (map accepted xs) s ≡ some s'
    → concat (chunk ∷ chunks) ≡ concat s'.network
    → w.transaction_worker.is_connected ≡ true
    → (w' : PeerWorker) × (run (chunk ∷ chunks) w ≡ some w')
      × (w'.transaction_worker.sent ≡ w.transaction_worker.sent ++ map (event w) xs)
unfolding run
broadcasts_delivered xs inc s s' chunk chunks w c start ran same connected =
    let (s₁, e, sent) = sent-wire inc xs s c in
    let (w', all, delivered) = process_all-broadcasts xs w c connected in
    let final : s' ≡ s₁ = cc (ran, e) in
    (
      w',
      rw (
        receive-wire handle (map frame xs) chunk chunks w (frames-IsFramed xs c) (
            same
            ∙ ap (λ (t : Sender). concat t.network) final
            ∙ sent
            ∙ ap (λ ns. concat ns ++ wire (map frame xs)) start),
        all,
      ),
      delivered,
    )
