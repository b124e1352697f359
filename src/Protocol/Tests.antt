-- ===== src/Protocol/Tests.antt =====
-- The theorems about the workers at concrete inputs.
use bee_p.Common.{
  false, ℕ, ◌+◌, ◌<◌, ◌≤◌, ◌≡◌, ◌⊎◌, inl, inr, ◌↔◌, refl, Bool, true, not, Option, none, some, List,
  [], ◌∷◌, ◌++◌, ok, ◌==◌, ◌&&◌, leb, ltb, if◌then◌else◌, length, arith, Result,
}
use mathlib.Core.List.{map}
use bee_p.Common.Assoc.{lookup, insert, lookup-All}
use bee_p.Common.Set.{has, add, HasOnce}
use bee_p.Ternary.{plus_one, zeros}
use bee_p.Bundle.Transaction.{Trits}
use bee_p.Bundle.FromTrits.{from_trits}
use bee_p.Bundle.Samples.{blank, blank-IsValid}
use bee_p.HashCache
use bee_p.Message.TransactionBroadcast.{TransactionBroadcast}
use bee_p.Tangle
use bee_p.Tangle.{
  Tangle, hash_number, insert_transaction, transaction_ref, approve, approve_branch, store, send,
  contains_milestone,
}
use bee_p.Tangle.Hash.{hash_weight, weight_from}
use bee_p.Tangle.Walk.Rounds.{Leads, IsMissing}
use bee_p.Protocol
use bee_p.Protocol.{Protocol, ProtocolConfig, Sent}
use bee_p.Protocol.Codec.{decode_broadcast}
use bee_p.Protocol.Codec.RoundTrip.{broadcast_roundtrip}
use bee_p.Protocol.Requests.{respond_transaction, transaction_request_for}
use bee_p.Protocol.Requests.Answers.{request_answered}
use bee_p.Protocol.Transactions.{process_transaction_broadcast, is_empty}
use bee_p.Protocol.Transactions.Delivery.{IsDelivered, process_delivers}
use bee_p.Protocol.Solidification.{solidify, not_solid, on_milestone_event, milestone_request_range}
use bee_p.Protocol.Solidification.Missing
use bee_p.Protocol.Solidification.Missing.{solidify_requests}
use bee_p.Protocol.Solidification.Advance
use bee_p.Protocol.Solidification.Advance.{Advances, Stays, on_milestone_event_lem}
use bee_p.Protocol.Milestones.{on_tail}
use bee_p.Protocol.Milestones.Validated.{
  AreShaped, vertices-AreShaped, Outcome, Verifies, on_tail_answers,
}
use bee_p.Protocol.Queue
use bee_p.Protocol.Queue.{BinaryHeap, WaitPriorityQueue, poll}
use bee_p.Protocol.Queue.Wakes.{IsHeap, polled, second_future_waits}

abbrev config : ProtocolConfig
config = record {
  mwm = 14;
  coordinator_public_key = plus_one ∷ zeros 242;
  coordinator_security_level = 1;
  coordinator_depth = 2;
  null_address = zeros 243;
}

abbrev idle : Protocol
idle = record {
  tangle = Tangle.new;
  cache = HashCache.new 5;
  requested = [];
  handshaked_peers = 8 ∷ 9 ∷ [];
  transaction_requester_worker = [];
  milestone_requester_worker = [];
  transaction_solidifier_worker = [];
  milestone_solidifier_worker = 0;
  milestone_validator_worker = [];
  broadcaster_worker = [];
  sent = [];
}

-- The broadcast of the blank transaction, and its trits.
abbrev answered : TransactionBroadcast
answered = (broadcast_roundtrip true blank blank-IsValid).0

abbrev answered_trits : Trits
answered_trits = (broadcast_roundtrip true blank blank-IsValid).4

-- A digest that gives one and the same hash.
abbrev digest : Trits → Trits
digest _ = plus_one ∷ zeros 242

abbrev one_hash : ℕ
one_hash = hash_number (plus_one ∷ zeros 242)

abbrev rank : ℕ → ℕ
rank n = if n == one_hash then 1 else 0

process_delivers_example :
    (p' : Protocol) × (process_transaction_broadcast (λ _. 3) digest true 2 config 7 answered idle
      ≡ some p')
    × IsDelivered 7 answered blank one_hash idle p'
unfolding HashCache.insert HashCache.make_room hash_weight weight_from zeros lookup
    insert_transaction approve approve_branch store send insert hash_number has add
process_delivers_example =
    process_delivers (λ _. 3) digest true 1 config 7 answered idle
      (record { max_capacity = 5; cache = 3 ∷ []; elem_order = 3 ∷ [] }) answered_trits blank 242
      rank refl (broadcast_roundtrip true blank blank-IsValid).5
      (broadcast_roundtrip true blank blank-IsValid).6 refl refl (omega arith) refl
      (λ hash v e.
        lookup-All (λ h u. (rank u.inner.trunk < rank h) × (rank h ≤ 1) × (u.id ≡ h)) hash v
          (insert_transaction (transaction_ref blank) one_hash Tangle.new).0.vertices
          ((omega arith, omega arith, refl), tt) e)

-- A tangle of the blank transaction, under 5 and under its own trunk.
abbrev trunk_hash : ℕ
trunk_hash = hash_number (zeros 243)

abbrev tangle : Tangle
tangle =
    (insert_transaction (transaction_ref blank) trunk_hash
      (insert_transaction (transaction_ref blank) 5 Tangle.new).0).0

abbrev filled : Protocol
filled = record idle { tangle = tangle }

request_answered_example :
    (m : TransactionBroadcast) × (respond_transaction 8 (transaction_request_for 5) filled
      ≡ some (Protocol.send 8 (Sent.transaction_broadcast m) filled))
    × (292 ≤ length m.transaction)
    × (length m.transaction ≤ 1604)
    × (trits : Trits) × (decode_broadcast m ≡ some (some trits))
    × (from_trits true trits ≡ some (ok blank))
unfolding insert_transaction approve approve_branch store send lookup insert hash_number zeros
request_answered_example =
    request_answered true 8 5 (transaction_ref blank) filled (omega arith) refl blank-IsValid

solidify_requests_example :
    (hashes : List ℕ) × (solidify 5 1 filled
      ≡ some (Missing.asked hashes 1 filled, is_empty hashes))
    × HasOnce hashes
    × ((hash : ℕ)
        → (has hash hashes ≡ true) ↔ (Leads not_solid tangle 5 hash × IsMissing tangle hash))
solidify_requests_example = solidify_requests 5 1 filled

filled_start : filled.tangle.solid_milestone_index ≡ 0
unfolding insert_transaction approve approve_branch store send lookup insert zeros hash_number
filled_start = refl

on_milestone_event_lem_example :
    (p' : Protocol) × (on_milestone_event true filled ≡ some p')
    × (indices : List ℕ) × (p'.milestone_requester_worker
        ≡ filled.milestone_requester_worker ++ map Advance.entry_for indices)
    × ((i : ℕ)
        → has i indices ≡ (
            leb filled.tangle.solid_milestone_index i
            && ltb i (filled.tangle.solid_milestone_index + milestone_request_range)
            && not (contains_milestone i filled.tangle)))
    × (Advances filled p' ⊎ Stays filled p')
on_milestone_event_lem_example = on_milestone_event_lem true filled (omega (arith, filled_start))

-- A stack serves as a heap of entries that are all equal.
abbrev stack_pop : List ℕ → Option (ℕ × List ℕ)
stack_pop [] = none
stack_pop (x ∷ xs) = some (x, xs)

abbrev stack : BinaryHeap ℕ (List ℕ)
stack = record { push = λ x xs. x ∷ xs; pop = stack_pop }

stack-pop :
    (xs : List ℕ)
    → ((stack_pop xs ≡ none) × (length xs ≡ 0))
      ⊎ ((x : ℕ) × (rest : List ℕ) × (stack_pop xs ≡ some (x, rest))
          × (length xs ≡ length rest + 1))
stack-pop [] = inl (refl, refl)
stack-pop (x ∷ xs) = inr (x, xs, refl, omega arith)

stack-IsHeap : IsHeap stack (λ xs. length xs)
stack-IsHeap = record { size-push = λ x xs. omega arith; size-pop = stack-pop }

abbrev waited_for : WaitPriorityQueue (List ℕ)
waited_for = polled stack 7 8 (record { heap = []; wakers = [] })

second_future_waits_example :
    (entry : ℕ) × (rest : List ℕ) × (wakers : List ℕ) × ((Queue.insert stack 4 waited_for).1
      ≡ some 7)
    × ((Queue.insert stack 5 (Queue.insert stack 4 waited_for).0).1 ≡ some 7)
    × (poll stack 7 (Queue.insert stack 5 (Queue.insert stack 4 waited_for).0).0
        ≡ (record { heap = rest; wakers = wakers }, some entry))
    × (length rest ≡ 1)
    × (wakers ≡ 8 ∷ [])
second_future_waits_example =
    second_future_waits stack (λ xs. length xs) [] 7 8 4 5 stack-IsHeap refl

-- A public key that accepts any signature of two payloads, and panics on others.
abbrev accepts : Trits → ℕ → ℕ → Trits → Trits → Option (Result ℕ Bool)
accepts _ _ _ signature _ = if length signature == 13122 then some (ok true) else none

accepts_full :
    (address signature hash : Trits) (depth index : ℕ)
    → length signature ≡ 13122
    → accepts address depth index signature hash ≡ some (ok true)
accepts_full address signature hash depth index size =
    let full : (length signature == 13122) ≡ true = ground (arith, size) in rw (full) refl

accepts-Verifies : Verifies accepts config
accepts-Verifies address signature hash index size low normalized =
    (ok true, accepts_full address signature hash config.coordinator_depth index (omega arith))

tangle-AreShaped : AreShaped tangle
unfolding insert_transaction approve approve_branch store send lookup insert zeros hash_number
tangle-AreShaped = vertices-AreShaped tangle ((refl, refl), ((refl, refl), tt))

on_tail_answers_example :
    (t' : Tangle) × (on_tail accepts config 5 tangle ≡ some t') × Outcome accepts config 5 tangle t'
on_tail_answers_example =
    on_tail_answers accepts config 5 tangle (omega arith) accepts-Verifies tangle-AreShaped

-- The broadcast of the blank transaction, for a node without overflow checks.
abbrev unchecked : TransactionBroadcast
unchecked = (broadcast_roundtrip false blank blank-IsValid).0
