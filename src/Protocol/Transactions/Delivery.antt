-- ===== src/Protocol/Transactions/Delivery.antt =====
-- What the transaction worker does with a broadcast that it can read.
use bee_p.Common.{
  ℕ, suc, ◌≤◌, ◌≡◌, ◌∙◌, sym, refl, not, ◌&&◌, Bool, true, false, Option, none, some, List, [], ◌∷◌,
  ◌++◌, length, ltb, ok, arith, Bool-cases, Option-cases, inl, inr, ◌==◌, ◌⊎◌,
}
use mathlib.Core.Path.{subst}
use bee_p.Common.Assoc.{lookup, lookup-insert, lookup-erase, erase}
use bee_p.Bundle.Transaction.{Trits, Transaction, is_tail}
use bee_p.Bundle.FromTrits.{from_trits}
use bee_p.HashCache
use bee_p.HashCache.{TinyHashCache}
use bee_p.Message.TransactionBroadcast.{TransactionBroadcast}
use bee_p.Protocol.Codec.{decode_broadcast}
use bee_p.Protocol.{
  Protocol, ProtocolConfig, trigger_milestone_solidification, trigger_transaction_solidification,
  broadcast_transaction_message,
}
use bee_p.Protocol.Transactions.{
  process_transaction_broadcast, read, build, accept, store, check_milestone, find_tail, last_tail,
  same_bundle, of_coordinator, announce, catch_up, send_tail, is_empty,
}
use bee_p.Tangle
use bee_p.Tangle.{
  Tangle, is_synced, TransactionRef, approve, approve_branch, vertex_from, transaction_ref,
  hash_number, insert_transaction, get_transaction,
}
use bee_p.Tangle.Hash.{hash_weight}
use bee_p.Tangle.Walk.Trunk.{IsRanked, trunk_walk_approvers_chain}

find_tail_ends :
    (n : ℕ) (t : Transaction) (hash : ℕ) (rank : ℕ → ℕ) (p : Protocol)
    → IsRanked (same_bundle t) p.tangle n rank
    → (tail : Option ℕ) × (find_tail (suc n) t hash p ≡ some tail)
unfolding find_tail
find_tail_ends n t hash rank p r = elim (Bool-cases (is_tail t)) [
  | inl c ↦ (some hash, rw (c) refl)
  | inr c ↦
      let (found, e, _, _) = trunk_walk_approvers_chain (same_bundle t) p.tangle n hash rank r in
      (last_tail found, rw (c, e) refl)
]

-- If no transaction approves itself, a tail is looked for and sent, or nothing is.
pub check_milestone_ends :
    (config : ProtocolConfig) (n : ℕ) (t : Transaction) (hash : ℕ) (rank : ℕ → ℕ) (p : Protocol)
    → IsRanked (same_bundle t) p.tangle n rank
    → (tail : Option ℕ) × (check_milestone config (suc n) t hash p ≡ some (send_tail tail p))
unfolding check_milestone
check_milestone_ends config n t hash rank p r = elim (Bool-cases (of_coordinator config t)) [
  | inl c ↦ let (tail, e) = find_tail_ends n t hash rank p r in (tail, rw (c, e) refl)
  | inr c ↦ (none, rw (c) refl)
]

insert_transaction-new :
    (r : TransactionRef) (hash : ℕ) (t : Tangle)
    → lookup hash t.vertices ≡ none
    → ((insert_transaction r hash t).1 ≡ some r)
      × (get_transaction hash (insert_transaction r hash t).0 ≡ some r)
unfolding insert_transaction approve approve_branch Tangle.store Tangle.send
insert_transaction-new r hash t new = elim (Bool-cases (r.trunk == r.branch)) [
  | inl c ↦
      rw (c, new) (refl, ground (arith, lookup-insert hash hash (vertex_from r hash) t.vertices))
  | inr c ↦
      rw (c, new) (refl, ground (arith, lookup-insert hash hash (vertex_from r hash) t.vertices))
]

-- What has become of a protocol `p` that has stored a transaction under a hash.
pub record IsDelivered (from : ℕ) (m : TransactionBroadcast) (t : Transaction) (hash : ℕ)
    (p p' : Protocol) : Type 0 where
  pub stored : get_transaction hash p'.tangle ≡ some (transaction_ref t)
  pub not_requested : lookup hash p'.requested ≡ none
  pub announced :
      ((lookup hash p.requested ≡ none)
        × (p'.broadcaster_worker
            ≡ p.broadcaster_worker ++ (record { from = some from; transaction_broadcast = m } ∷ []))
        × (p'.transaction_solidifier_worker ≡ p.transaction_solidifier_worker))
      ⊎ ((index : ℕ) × (lookup hash p.requested ≡ some index)
          × (p'.broadcaster_worker ≡ p.broadcaster_worker)
          × (p'.transaction_solidifier_worker
              ≡ p.transaction_solidifier_worker ++ (record { hash = hash; index = index } ∷ [])))

announce-IsDelivered :
    (from : ℕ) (m : TransactionBroadcast) (t : Transaction) (hash : ℕ) (p : Protocol)
    → get_transaction hash p.tangle ≡ some (transaction_ref t)
    → IsDelivered from m t hash p (announce from m hash p)
announce-IsDelivered from m t hash p stored = elim (Option-cases (lookup hash p.requested)) [
  | inl e ↦
      let made : announce from m hash p ≡ broadcast_transaction_message (some from) m p =
        rw (announce, e) refl in
      rw (made) (record { stored = stored; not_requested = e; announced = inl (e, refl, refl) })
  | inr (index, e) ↦
      let q : Protocol = record p { requested = erase hash p.requested } in
      let made : announce from m hash p ≡ trigger_transaction_solidification hash index q =
        rw (announce, e) refl in
      let erased : lookup hash (erase hash p.requested) ≡ none =
        ground (arith, lookup-erase hash hash p.requested) in
      rw (made)
        (record { stored = stored; not_requested = erased; announced = inr (index, e, refl, refl) })
]

catch_up-IsDelivered :
    (from : ℕ) (m : TransactionBroadcast) (t : Transaction) (hash : ℕ) (p : Protocol)
    → get_transaction hash p.tangle ≡ some (transaction_ref t)
    → IsDelivered from m t hash p (announce from m hash (catch_up p))
catch_up-IsDelivered from m t hash p stored =
    elim (Bool-cases (not (is_synced p.tangle) && is_empty p.requested)) [
      | inl c ↦
          let d : IsDelivered from m t hash (trigger_milestone_solidification p)
              (announce from m hash (trigger_milestone_solidification p)) =
            announce-IsDelivered from m t hash (trigger_milestone_solidification p) stored in
          rw (c)
            (record { stored = d.stored; not_requested = d.not_requested; announced = d.announced })
      | inr c ↦ rw (c) (announce-IsDelivered from m t hash p stored)
    ]

send_tail-IsDelivered :
    (from : ℕ) (m : TransactionBroadcast) (t : Transaction) (hash : ℕ) (p q : Protocol)
    (tail : Option ℕ)
    → IsDelivered from m t hash p q
    → IsDelivered from m t hash p (send_tail tail q)
send_tail-IsDelivered from m t hash p q none d = d
send_tail-IsDelivered from m t hash p q (some tail) d = record {
  stored = d.stored;
  not_requested = d.not_requested;
  announced = d.announced;
}

pub tangle-announce :
    (from : ℕ) (m : TransactionBroadcast) (hash : ℕ) (p : Protocol)
    → (announce from m hash p).tangle ≡ p.tangle
tangle-announce from m hash p = elim (Option-cases (lookup hash p.requested)) [
  | inl e ↦ rw (announce, e) refl
  | inr (index, e) ↦ rw (announce, e) refl
]

pub tangle-catch_up : (p : Protocol) → (catch_up p).tangle ≡ p.tangle
tangle-catch_up p = elim (Bool-cases (not (is_synced p.tangle) && is_empty p.requested)) [
  | inl c ↦ rw (c) refl
  | inr c ↦ rw (c) refl
]

module _ (xx_hash : List ℕ → ℕ) (digest : Trits → Trits) (checks : Bool) (n : ℕ)
    (config : ProtocolConfig) where
  store_delivers :
      (from : ℕ) (m : TransactionBroadcast) (p : Protocol) (t : Transaction) (hash : ℕ)
      (tangle : Tangle) (rank : ℕ → ℕ)
      → (insert_transaction (transaction_ref t) hash p.tangle).0 ≡ tangle
      → (insert_transaction (transaction_ref t) hash p.tangle).1 ≡ some (transaction_ref t)
      → get_transaction hash tangle ≡ some (transaction_ref t)
      → IsRanked (same_bundle t) tangle n rank
      → (p' : Protocol) × (store xx_hash digest checks (suc n) config from m t hash p ≡ some p')
        × IsDelivered from m t hash p p'
  unfolding store
  store_delivers from m p t hash tangle rank left stored there r =
      let q : Protocol = record p { tangle = tangle } in
      let announced = announce from m hash (catch_up q) in
      let same : tangle ≡ announced.tangle =
        sym (tangle-announce from m hash (catch_up q) ∙ tangle-catch_up q) in
      let (tail, e) =
        check_milestone_ends config n t hash rank announced
          (subst (λ x. IsRanked (same_bundle t) x n rank) same r) in
      let d : IsDelivered from m t hash q (send_tail tail announced) =
        send_tail-IsDelivered from m t hash q announced tail
          (catch_up-IsDelivered from m t hash q there) in
      (
        send_tail tail announced,
        rw (store, stored, left) e,
        record { stored = d.stored; not_requested = d.not_requested; announced = d.announced },
      )

  -- A broadcast whose bytes are new to the cache, that is read as a transaction, whose hash has 243 trits and enough weight and is
  -- new to the tangle: the worker does not panic, if the transactions rank
  -- above their trunks, up to n, once it is stored. The tangle then holds this transaction under its hash, which is not among the
  -- requested ones. If it was, then it is handed to the solidifier with the index of the
  -- request, and is not passed on; otherwise the broadcaster gets the message and its origin.
  pub process_delivers :
      (from : ℕ) (m : TransactionBroadcast) (p : Protocol) (cache : TinyHashCache) (trits : Trits)
      (t : Transaction) (weight : ℕ) (rank : ℕ → ℕ)
      → HashCache.insert xx_hash m.transaction p.cache ≡ some (cache, true)
      → decode_broadcast m ≡ some (some trits)
      → from_trits checks trits ≡ some (ok t)
      → length (digest trits) ≡ 243
      → hash_weight (digest trits) ≡ some weight
      → config.mwm ≤ weight
      → lookup (hash_number (digest trits)) p.tangle.vertices ≡ none
      → IsRanked
          (same_bundle t)
          (insert_transaction (transaction_ref t) (hash_number (digest trits)) p.tangle).0
          n
          rank
      → (p' : Protocol) × (process_transaction_broadcast xx_hash digest checks
            (suc n)
            config
            from
            m
            p
          ≡ some p')
        × IsDelivered from m t (hash_number (digest trits)) p p'
  unfolding process_transaction_broadcast read build accept
  process_delivers from m p cache trits t weight rank fresh decoded made sized heavy enough new r =
      let hash = hash_number (digest trits) in
      let (stored, there) = insert_transaction-new (transaction_ref t) hash p.tangle new in
      let (p', e, d) =
        store_delivers from m (record p { cache = cache }) t hash
          (insert_transaction (transaction_ref t) hash p.tangle).0 rank refl stored there r in
      let full : (length (digest trits) == 243) ≡ true = ground (arith, sized) in
      let light : ltb weight config.mwm ≡ false = ground arith in
      (
        p',
        rw (fresh, decoded, made, full, heavy, light) e,
        record { stored = d.stored; not_requested = d.not_requested; announced = d.announced },
      )
