-- ===== src/Peer/Handshaker.antt =====
-- `PeerHandshakerWorker` of bee-protocol/src/worker/peer/handshaker.rs, with `slice_eq` of
-- bee-protocol/src/config/config.rs.
pub mod Validate
pub mod Process
mod Tests
use mathlib.Core.Option
use bee_p.Common.{
  ℕ, ◌+◌, ◌-◌, ◌%◌, ◌^◌, Bool, true, false, not, ◌&&◌, Option, none, some, List, [], ◌∷◌, ◌++◌,
  length, ltb, ◌==◌, if◌then◌else◌, Result, ok, err, ◌>>=◌,
}
use bee_p.Common.Int.{ℤ, pos, negsuc, ltb_ℤ}
use bee_p.Common.Assoc.{Assoc, lookup}
use bee_p.Message.Header.{Header}
use bee_p.Message.Handshake.{Handshake}
use bee_p.Message.Handshake
use bee_p.Message.Tlv.{TlvError, tlv_from_bytes}
use bee_p.Message.Version.{messages_supported_version}
use bee_p.Peer.Manager
use bee_p.Peer.Manager.{
  Origin, inbound, outbound, unbound, Address, same_address, Peer, HandshakedPeer, PeerManager,
}

pub data HandshakeError : Type 0 where
  invalid_timestamp_diff : ℤ → HandshakeError
  coordinator_mismatch : HandshakeError
  mwm_mismatch : ℕ → ℕ → HandshakeError
  unsupported_version : ℕ → HandshakeError
  port_mismatch : ℕ → ℕ → HandshakeError
  unbound_peer : HandshakeError
  already_handshaked : HandshakeError

pub data HandshakeStatus : Type 0 where
  awaiting done duplicate : HandshakeStatus

-- What the worker reads and does not change: whether the build checks for overflow, the clock in
-- ms, the configuration, the peer, and the indices of the tangle.
pub record Context : Type 0 where
  pub overflow_checks : Bool
  pub now : ℕ
  pub coordinator : List ℕ
  pub mwm : ℕ
  pub peer : Peer
  pub solid_milestone_index : ℕ
  pub snapshot_milestone_index : ℕ

equal_from : List ℕ → List ℕ → Bool
equal_from (x ∷ xs) (y ∷ ys) = if not (x == y) then false else equal_from xs ys
equal_from _ _ = true

-- The loop runs to `a.len()`, which is that of `b`.
unfoldable pub slice_eq : List ℕ → List ℕ → Bool
unfolding equal_from
slice_eq a b = if not (length a == length b) then false else equal_from a b

-- `((timestamp - handshake.timestamp) as i64).abs()` on `u64`: with overflow checks the subtraction
-- and `abs` panic where they overflow, without them they wrap.
unfoldable pub timestamp_diff : Bool → ℕ → ℕ → Option ℤ
timestamp_diff overflow_checks now timestamp =
    if overflow_checks && ltb now timestamp
    then none
    else let diff = (now + 2 ^ 64 - timestamp) % 2 ^ 64 in
      if ltb diff (2 ^ 63)
      then some (pos diff)
      else if not (diff == 2 ^ 63)
      then some (pos (2 ^ 64 - diff))
      else if overflow_checks
      then none
      else some (negsuc (2 ^ 63 - 1))

-- `match self.peer.origin`
unfoldable pub address_of : Peer → Handshake → Result HandshakeError Address
address_of peer h = elim peer.origin [
  | outbound ↦
      if not (peer.address.port == h.port)
      then err (port_mismatch peer.address.port h.port)
      else ok peer.address
  | inbound ↦ ok (record { ip = peer.address.ip; port = h.port })
  | unbound ↦ err unbound_peer
]

-- The loop over the handshaked peers.
unfoldable pub is_handshaked : Address → Assoc HandshakedPeer → Bool
is_handshaked address [] = false
is_handshaked address ((_, peer) ∷ peers) =
    if same_address peer.address address then true else is_handshaked address peers

abbrev pub Verdict : Type 0
Verdict = HandshakeStatus × Result HandshakeError Address

abbrev pub check_duplicate :
    HandshakeStatus → Assoc HandshakedPeer → Result HandshakeError Address → Verdict
check_duplicate status peers (err e) = (status, err e)
check_duplicate status peers (ok address) =
    if is_handshaked address peers
    then (duplicate, err already_handshaked)
    else (status, ok address)

abbrev pub check_version :
    Context → HandshakeStatus → Assoc HandshakedPeer → Handshake → Result ℕ ℕ → Verdict
check_version c status peers h (err version) = (status, err (unsupported_version version))
check_version c status peers h (ok _) = check_duplicate status peers (address_of c.peer h)

-- The new status, and the verdict.
unfoldable pub validate_handshake :
    Context → HandshakeStatus → Assoc HandshakedPeer → Handshake → Option Verdict
validate_handshake c status peers h = do
  diff ← timestamp_diff c.overflow_checks c.now h.timestamp
  if ltb_ℤ (pos 5000) diff
      then some (status, err (invalid_timestamp_diff diff))
      else if not (slice_eq c.coordinator h.coordinator)
      then some (status, err coordinator_mismatch)
      else if not (c.mwm == h.minimum_weight_magnitude)
      then some (status, err (mwm_mismatch c.mwm h.minimum_weight_magnitude))
      else (do
        version ← messages_supported_version h.supported_versions
        some (check_version c status peers h version))
