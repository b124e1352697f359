-- ===== src/Protocol/Solidification.antt =====
-- bee-protocol/src/worker/solidifier/{transaction,milestone}.rs. A milestone index is a `u32`; a panic is
-- `none`.
pub mod Missing
pub mod Advance
use bee_p.Common.{
  ℕ, zero, suc, ◌+◌, ◌-◌, ◌%◌, ◌^◌, ltb, not, Bool, true, false, Option, none, some, List, [], ◌∷◌,
  if◌then◌else◌, ◌>>=◌,
}
use bee_p.Common.Set.{add}
use bee_p.Protocol.{
  Protocol, request_transaction, request_milestone, broadcast_heartbeat,
  trigger_transaction_solidification,
}
use bee_p.Tangle.{
  Vertex, is_solid, contains_milestone, get_milestone_hash, is_solid_transaction,
  update_solid_milestone_index,
}
use bee_p.Tangle.Walk.{walk_approvees_depth_first}

abbrev pub not_solid : Vertex → Bool
not_solid v = not (is_solid v)

-- The set of the missing hashes, from the calls of `on_missing`.
unfoldable pub collect : List ℕ → List ℕ → List ℕ
collect [] missing_hashes = missing_hashes
collect (hash ∷ hashes) missing_hashes = collect hashes (add hash missing_hashes)

unfoldable pub request_all : List ℕ → ℕ → Protocol → Protocol
request_all [] index p = p
request_all (hash ∷ hashes) index p = request_all hashes index (request_transaction hash index p)

-- `TransactionSolidifierWorker::solidify`
unfoldable pub solidify : ℕ → ℕ → Protocol → Option (Protocol × Bool)
solidify hash index p = do
  calls ← walk_approvees_depth_first not_solid hash p.tangle
  elim (collect calls.missing []) [
    | [] ↦ some (p, true)
    | missing ∷ others ↦ some (request_all (missing ∷ others) index p, false)
  ]

abbrev pub milestone_request_range : ℕ
milestone_request_range = 50

-- `+` of two `u32`
unfoldable pub add_u32 : Bool → ℕ → ℕ → Option ℕ
add_u32 overflow_checks a b =
    if ltb (a + b) (2 ^ 32)
    then some (a + b)
    else if overflow_checks
    then none
    else some ((a + b) % 2 ^ 32)

-- `for index in start..end`, with `end - start` for n: no index is above the end.
unfoldable pub request_range : ℕ → ℕ → Protocol → Protocol
request_range zero start p = p
request_range (suc n) start p =
    request_range n (start + 1)
      (if contains_milestone start p.tangle then p else request_milestone start none p)

-- `MilestoneSolidifierWorker::request_milestones`
unfoldable pub request_milestones : Bool → Protocol → Option Protocol
request_milestones overflow_checks p = do
  end ← add_u32 overflow_checks p.tangle.solid_milestone_index milestone_request_range
  some (request_range (end - p.tangle.solid_milestone_index) p.tangle.solid_milestone_index p)

abbrev pub advance : ℕ → Protocol → Protocol
advance target_index p =
    broadcast_heartbeat target_index p.tangle.snapshot_milestone_index
      (record p { tangle = update_solid_milestone_index target_index p.tangle })

-- `solidify_milestone`, with the target index.
unfoldable pub solidify_target : ℕ → Protocol → Protocol
solidify_target target_index p = elim (get_milestone_hash target_index p.tangle) [
  | none ↦ p
  | some target_hash ↦
      if is_solid_transaction target_hash p.tangle
      then advance target_index p
      else trigger_transaction_solidification target_hash target_index p
]

-- `MilestoneSolidifierWorker::solidify_milestone`
unfoldable pub solidify_milestone : Bool → Protocol → Option Protocol
solidify_milestone overflow_checks p = do
  target_index ← add_u32 overflow_checks p.tangle.solid_milestone_index 1
  some (solidify_target target_index p)

-- The loop's body in `MilestoneSolidifierWorker::run`.
unfoldable pub on_milestone_event : Bool → Protocol → Option Protocol
on_milestone_event overflow_checks p = do
  requested ← request_milestones overflow_checks p
  solidify_milestone overflow_checks requested
