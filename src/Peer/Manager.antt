-- ===== src/Peer/Manager.antt =====
-- bee-protocol/src/peer/{peer,handshaked_peer,manager}.rs. An `EndpointId` and an `IpAddr` are
-- numbers that stand for their values. Of a handshaked peer the channels of its sender workers and
-- its metrics are left out, and so is what `spawn` starts.
use bee_p.Common.{ℕ, Bool, ◌&&◌, ◌==◌, [], if◌then◌else◌}
use bee_p.Common.Assoc.{Assoc, lookup, insert, erase, is_some}

pub data Origin : Type 0 where
  inbound outbound unbound : Origin

pub record Address : Type 0 where
  pub ip : ℕ
  pub port : ℕ

abbrev pub same_address : Address → Address → Bool
same_address a b = (a.ip == b.ip) && (a.port == b.port)

pub record Peer : Type 0 where
  pub epid : ℕ
  pub address : Address
  pub origin : Origin

pub record HandshakedPeer : Type 0 where
  pub epid : ℕ
  pub address : Address
  pub solid_milestone_index : ℕ
  pub snapshot_milestone_index : ℕ

abbrev pub new_handshaked_peer : ℕ → Address → HandshakedPeer
new_handshaked_peer epid address = record {
  epid = epid;
  address = address;
  solid_milestone_index = 0;
  snapshot_milestone_index = 0;
}

pub record PeerManager : Type 0 where
  pub peers : Assoc Peer
  pub handshaked_peers : Assoc HandshakedPeer

abbrev pub new : PeerManager
new = record { peers = []; handshaked_peers = [] }

unfoldable pub add : Peer → PeerManager → PeerManager
add peer m = record m { peers = insert peer.epid peer m.peers }

unfoldable pub handshake : ℕ → Address → PeerManager → PeerManager
handshake epid address m =
    if is_some (lookup epid m.peers)
    then record {
      peers = erase epid m.peers;
      handshaked_peers = insert epid (new_handshaked_peer epid address) m.handshaked_peers;
    }
    else record m { peers = erase epid m.peers }

-- The shutdown signal to the peer's sender of milestone requests is left out.
unfoldable pub remove : ℕ → PeerManager → PeerManager
remove epid m = record {
  peers = erase epid m.peers;
  handshaked_peers = erase epid m.handshaked_peers;
}
