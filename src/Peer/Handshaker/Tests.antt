-- ===== src/Peer/Handshaker/Tests.antt =====
-- The theorems about the handshaker at concrete inputs.
use bee_p.Common.{
  ℕ, ◌/◌, ◌%◌, ◌≡◌, ◌↔◌, refl, false, true, none, some, List, [], ◌∷◌, replicate, ok, arith,
}
use bee_p.Common.Assoc.{Assoc, lookup}
use bee_p.Common.Int.{pos}
use bee_p.Message.Handshake.{Handshake}
use bee_p.Peer.Manager.{HandshakedPeer, Peer, inbound}
use bee_p.Peer.Metrics
use bee_p.Peer.Handshaker.{Context, awaiting, validate_handshake, timestamp_diff}
use bee_p.Peer.Handshaker.Validate.{
  IsFree, validate_handshake_accepts, future_timestamp, AddressIs, TimestampFits,
}
use bee_p.Peer.Handshaker.Process.{Handshaker, run, Ending}
use bee_p.Peer.Handshaker.Process.Ends.{run_ends, EndsBy}

abbrev peer : Peer
peer = record { epid = 9; address = record { ip = 3; port = 4000 }; origin = inbound }

abbrev coordinator : List ℕ
coordinator = replicate 49 1

abbrev context : Context
context = record {
  overflow_checks = false;
  now = 1_600_000_000_000;
  coordinator = coordinator;
  mwm = 14;
  peer = peer;
  solid_milestone_index = 7;
  snapshot_milestone_index = 5;
}

abbrev greeting : Handshake
greeting = record {
  port = 15600;
  timestamp = 1_600_000_000_100;
  coordinator = coordinator;
  minimum_weight_magnitude = 14;
  supported_versions = 2 ∷ [];
}

-- One peer that has another port.
abbrev known : Assoc HandshakedPeer
known =
    (
      9,
      record {
        epid = 9;
        address = record { ip = 3; port = 15601 };
        solid_milestone_index = 7;
        snapshot_milestone_index = 5;
      },
    )
    ∷ []

validate_handshake_accepts_example :
    (validate_handshake context awaiting known greeting
      ≡ some (awaiting, ok (record { ip = 3; port = 15600 })))
    ↔ (TimestampFits false 1_600_000_000_000 1_600_000_000_100
        × (coordinator ≡ coordinator)
        × (context.mwm ≡ greeting.minimum_weight_magnitude)
        × (2 / 2 % 2 ≡ 1)
        × AddressIs peer greeting (record { ip = 3; port = 15600 })
        × IsFree (record { ip = 3; port = 15600 }) known
        × (awaiting ≡ awaiting))
validate_handshake_accepts_example =
    validate_handshake_accepts context awaiting awaiting known greeting
      (record { ip = 3; port = 15600 }) 2 [] refl (omega arith) (omega arith) (omega arith)

future_timestamp_example :
    (timestamp_diff false 100 400 ≡ some (pos 300)) × (timestamp_diff true 100 400 ≡ none)
future_timestamp_example = future_timestamp 100 400 (omega arith) (omega arith) (omega arith)

abbrev handshaker : Handshaker
handshaker = record {
  status = awaiting;
  manager = record { peers = (9, peer) ∷ []; handshaked_peers = [] };
  protocol_metrics = Metrics.default;
  network = [];
  heartbeats = [];
  milestone_requests = [];
  solidifications = 0;
}

run_ends_example :
    (w' : Handshaker) × (ending : Ending) × (run context ((1 ∷ 2 ∷ []) ∷ (3 ∷ []) ∷ []) handshaker
      ≡ some (w', ending))
    × EndsBy 9 w' ending
unfolding lookup
run_ends_example =
    run_ends context ((1 ∷ 2 ∷ []) ∷ (3 ∷ []) ∷ []) handshaker refl
      (record {
        coordinator_length = refl;
        coordinator_bytes = omega arith;
        mwm_byte = omega arith;
      })
      (omega arith) refl refl
