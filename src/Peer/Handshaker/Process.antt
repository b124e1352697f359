-- ===== src/Peer/Handshaker/Process.antt =====
-- The state of `PeerHandshakerWorker` (bee-protocol/src/worker/peer/handshaker.rs), its
-- `process_message` and its `run`, with what bee-protocol/src/protocol/helpers.rs does for it. The
-- queues of the other workers are the lists of what was put into them.
pub mod Known
pub mod Ends
use bee_p.Common.{
  ℕ, ◌+◌, Bool, true, false, Option, none, some, List, [], ◌∷◌, ◌++◌, ◌==◌, if◌then◌else◌, Result,
  ok, err, ◌>>=◌,
}
use bee_p.Common.Assoc.{lookup, is_some}
use bee_p.Message.Header.{Header}
use bee_p.Message.Handshake
use bee_p.Message.Handshake.{Handshake, handshake}
use bee_p.Message.Heartbeat.{Heartbeat}
use bee_p.Message.Tlv.{TlvError, tlv_from_bytes, tlv_into_bytes}
use bee_p.Message.Version.{messages_versions}
use bee_p.Peer.Manager
use bee_p.Peer.Manager.{PeerManager, Address, HandshakedPeer}
use bee_p.Peer.Metrics
use bee_p.Peer.Metrics.{ProtocolMetrics}
use bee_p.Peer.Reader.{ReadContext, fresh, message_handler}
use bee_p.Peer.Handshaker.{
  HandshakeError, HandshakeStatus, awaiting, done, duplicate, Context, validate_handshake, Verdict,
}

pub record Handshaker : Type 0 where
  pub status : HandshakeStatus
  pub manager : PeerManager
  pub protocol_metrics : ProtocolMetrics
  -- the commands to the network: the bytes sent to this peer
  pub network : List (List ℕ)
  -- the messages for the heartbeat senders, by peer
  pub heartbeats : List (ℕ × Heartbeat)
  -- the entries of the milestone requester: an index, and whom to ask
  pub milestone_requests : List (ℕ × Option ℕ)
  -- the events of the milestone solidifier
  pub solidifications : ℕ

-- `Protocol::send_heartbeat`: nothing is sent to a peer that is not handshaked.
abbrev pub send_heartbeat : ℕ → Heartbeat → Handshaker → Handshaker
send_heartbeat to beat w =
    if is_some (lookup to w.manager.handshaked_peers)
    then record w { heartbeats = w.heartbeats ++ ((to, beat) ∷ []) }
    else w

-- `Protocol::request_last_milestone`, which asks for the index 0.
abbrev pub request_last_milestone : Option ℕ → Handshaker → Handshaker
request_last_milestone to w = record w {
  milestone_requests = w.milestone_requests ++ ((0, to) ∷ []);
}

-- `Protocol::trigger_milestone_solidification`
abbrev pub trigger_milestone_solidification : Handshaker → Handshaker
trigger_milestone_solidification w = record w { solidifications = w.solidifications + 1 }

abbrev pub on_verdict : Context → Result HandshakeError Address → Handshaker → Handshaker
on_verdict c (err e) w = w
on_verdict c (ok address) w =
    let w₁ = record w { manager = Manager.handshake c.peer.epid address w.manager } in
    let w₂ =
      send_heartbeat c.peer.epid
        (record {
          solid_milestone_index = c.solid_milestone_index;
          snapshot_milestone_index = c.snapshot_milestone_index;
        })
        w₁ in
    let w₃ = request_last_milestone (some c.peer.epid) w₂ in
    let w₄ = trigger_milestone_solidification w₃ in record w₄ { status = done }

abbrev pub invalid : Handshaker → Handshaker
invalid w = record w { protocol_metrics = Metrics.invalid_messages_received_inc w.protocol_metrics }

abbrev pub on_handshake : Context → Result TlvError Handshake → Handshaker → Option Handshaker
on_handshake c (err e) w = some (invalid w)
on_handshake c (ok h) w = do
  (status, verdict) ← validate_handshake c w.status w.manager.handshaked_peers h
  some (on_verdict c verdict (record w { status = status }))

unfoldable pub process_message : Context → Header → List ℕ → Handshaker → Option Handshaker
process_message c h bytes w =
    if h.message_type == 1
    then (do r ← tlv_from_bytes handshake h bytes; on_handshake c r w)
    else some (invalid w)

-- The handshaker's `message_handler` is that of the `PeerWorker`, for its own `process_message`.
abbrev pub handle_chunk :
    Context → ReadContext → List ℕ → Handshaker → Option (ReadContext × Handshaker)
handle_chunk c = message_handler (process_message c)

abbrev pub is_awaiting : HandshakeStatus → Bool
is_awaiting awaiting = true
is_awaiting done = false
is_awaiting duplicate = false

-- The loop of `run` over the chunks that arrive before the shutdown: the worker, and the chunks that
-- it has not taken.
unfoldable pub wait :
    Context → ReadContext → List (List ℕ) → Handshaker → Option (Handshaker × List (List ℕ))
wait c context [] w = some (w, [])
wait c context (chunk ∷ chunks) w = do
  (context', w') ← handle_chunk c context chunk w
  let more = wait c context' chunks w'
  if is_awaiting w'.status then more else some (w', chunks)

-- How `run` ends: a `PeerWorker` is spawned on the receiver, with what is left in it; or the network
-- is told to disconnect; or nothing is done.
pub data Ending : Type 0 where
  spawned : HandshakedPeer → List (List ℕ) → Ending
  disconnected : Ending
  stopped : Ending

abbrev pub finish :
    Context → HandshakeStatus → Handshaker → List (List ℕ) → Option (Handshaker × Ending)
finish c done w rest = do
  peer ← lookup c.peer.epid w.manager.handshaked_peers
  some (w, spawned peer rest)
finish c duplicate w rest = some (w, disconnected)
finish c awaiting w rest = some (w, stopped)

unfoldable pub run : Context → List (List ℕ) → Handshaker → Option (Handshaker × Ending)
run c chunks w = do
  bytes ← tlv_into_bytes handshake (Handshake.new c.now 1337 c.coordinator c.mwm messages_versions)
  (w', rest) ← wait c fresh chunks (record w { network = w.network ++ (bytes ∷ []) })
  finish c w'.status w' rest
