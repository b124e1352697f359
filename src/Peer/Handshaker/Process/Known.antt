-- ===== src/Peer/Handshaker/Process/Known.antt =====
-- When `process_message` and `run` of bee-protocol/src/worker/peer/handshaker.rs answer, and where
-- the peer is found in the peer manager then.
use bee_p.Common.{
  ℕ, ◌==◌, ◌≡◌, ◌≢◌, ◌⊎◌, inl, inr, true, none, some, List, ok, err, arith, Option-cases,
  Bool-cases,
}
use mathlib.Core.Path.{subst}
use bee_p.Common.Assoc.{lookup, lookup-insert, is_some}
use bee_p.Message.Header.{Header}
use bee_p.Message.Handshake.{Handshake, handshake}
use bee_p.Message.Tlv.{tlv_from_bytes}
use bee_p.Peer.Manager
use bee_p.Peer.Manager.{Address, HandshakedPeer}
use bee_p.Peer.Handshaker.{
  HandshakeError, HandshakeStatus, done, duplicate, Context, validate_handshake,
}
use bee_p.Peer.Handshaker.Process.{Handshaker, process_message, on_handshake, on_verdict, invalid}

-- The peer is handshaked; or it is known, and the handshake is not done.
pub data IsKnown (epid : ℕ) (w : Handshaker) : Type 0 where
  handshaked : is_some (lookup epid w.manager.handshaked_peers) ≡ true → IsKnown epid w
  known : is_some (lookup epid w.manager.peers) ≡ true → w.status ≢ done → IsKnown epid w

handshake-handshaked :
    (epid : ℕ) (address : Address) (m : Manager.PeerManager)
    → (is_some (lookup epid m.peers) ≡ true) ⊎ (is_some (lookup epid m.handshaked_peers) ≡ true)
    → is_some (lookup epid (Manager.handshake epid address m).handshaked_peers) ≡ true
unfolding Manager.handshake
handshake-handshaked epid address m k =
    ground
      (arith, lookup-insert epid epid (Manager.new_handshaked_peer epid address) m.handshaked_peers)

status_of_error :
    (c : Context) (w : Handshaker) (h : Handshake) (status : HandshakeStatus) (e : HandshakeError)
    → validate_handshake c w.status w.manager.handshaked_peers h ≡ some (status, err e)
    → (status ≡ w.status) ⊎ (status ≡ duplicate)
unfolding validate_handshake
status_of_error c w h status e r = ground arith

either :
    (epid : ℕ) (w : Handshaker)
    → IsKnown epid w
    → (is_some (lookup epid w.manager.peers) ≡ true)
      ⊎ (is_some (lookup epid w.manager.handshaked_peers) ≡ true)
either epid w (handshaked e) = inr e
either epid w (known e _) = inl e

-- A refused handshake leaves the peer where it is, and makes nothing done.
refused :
    (epid : ℕ) (w : Handshaker) (status : HandshakeStatus)
    → (status ≡ w.status) ⊎ (status ≡ duplicate)
    → IsKnown epid w
    → IsKnown epid (record w { status = status })
refused epid w status same (handshaked e) = handshaked e
refused epid w status same (known e n) = known e (λ d. ground arith)

accepted :
    (c : Context) (w : Handshaker) (status : HandshakeStatus) (address : Address)
    → IsKnown c.peer.epid w
    → IsKnown c.peer.epid (on_verdict c (ok address) (record w { status = status }))
accepted c w status address k =
    let there = handshake-handshaked c.peer.epid address w.manager (either c.peer.epid w k) in
    handshaked (ground arith)

on_handshake-IsKnown :
    (c : Context) (h : Handshake) (w w' : Handshaker)
    → IsKnown c.peer.epid w
    → on_handshake c (ok h) w ≡ some w'
    → IsKnown c.peer.epid w'
on_handshake-IsKnown c h w w' k e =
    elim (Option-cases (validate_handshake c w.status w.manager.handshaked_peers h)) [
      | inl f ↦ let no : none ≡ some w' = rw f at e in ground arith
      | inr ((status, err error), f) ↦
          let same : record w { status = status } ≡ w' = ground arith in
          subst (IsKnown c.peer.epid) same
            (refused c.peer.epid w status (status_of_error c w h status error f) k)
      | inr ((status, ok address), f) ↦
          let same : on_verdict c (ok address) (record w { status = status }) ≡ w' = ground arith in
          subst (IsKnown c.peer.epid) same (accepted c w status address k)
    ]

invalid-IsKnown :
    (epid : ℕ) (w w' : Handshaker) → IsKnown epid w → some (invalid w) ≡ some w' → IsKnown epid w'
invalid-IsKnown epid w w' k e =
    let kept : IsKnown epid (invalid w) = elim k [
      | handshaked there ↦ handshaked there
      | known there n ↦ known there n
    ] in
    subst (IsKnown epid) (ground arith) kept

pub process_message-IsKnown :
    (c : Context) (h : Header) (bytes : List ℕ) (w w' : Handshaker)
    → IsKnown c.peer.epid w
    → process_message c h bytes w ≡ some w'
    → IsKnown c.peer.epid w'
unfolding process_message
process_message-IsKnown c h bytes w w' k e = elim (Bool-cases (h.message_type == 1)) [
  | inr other ↦ invalid-IsKnown c.peer.epid w w' k (ground arith)
  | inl is_handshake ↦ elim (Option-cases (tlv_from_bytes handshake h bytes)) [
    | inl f ↦ absurd (ground arith)
    | inr (err error, f) ↦ invalid-IsKnown c.peer.epid w w' k (ground arith)
    | inr (ok m, f) ↦ on_handshake-IsKnown c m w w' k (ground arith)
  ]
]
