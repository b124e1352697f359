-- ===== src/Protocol/Solidification/Advance.antt =====
-- What the milestone solidifier does with an event.
use mathlib.Core.List.{map}
use bee_p.Common.{
  ℕ, Bool, zero, suc, ◌+◌, ◌-◌, ◌^◌, ◌<◌, ◌≡◌, ◌⊎◌, inl, inr, ◌∙◌, refl, sym, ap, true, false, not,
  none, some, List, [], ◌∷◌, ◌++◌, append_assoc, append-nil, arith, ◌==◌, ◌&&◌, ltb, leb,
  if◌then◌else◌, Bool-cases, Option-cases, All,
}
use bee_p.Common.Set.{has, has_cons}
use bee_p.Protocol.{
  Protocol, Sent, MilestoneRequesterWorkerEntry, send, heartbeat_each, request_milestone,
  trigger_transaction_solidification,
}
use bee_p.Protocol.Solidification.{
  add_u32, request_range, request_milestones, solidify_target, solidify_milestone,
  on_milestone_event, milestone_request_range,
}
use bee_p.Tangle.{
  Tangle, contains_milestone, get_milestone_hash, is_solid_transaction,
  update_solid_milestone_index,
}

-- The indices from `start` on, of `n`, that the tangle has no milestone for.
abbrev pub missing_from : ℕ → ℕ → Tangle → List ℕ
missing_from zero start t = []
missing_from (suc n) start t =
    if contains_milestone start t
    then missing_from n (start + 1) t
    else start ∷ missing_from n (start + 1) t

has-missing_from :
    (i n start : ℕ) (t : Tangle)
    → has i (missing_from n start t)
      ≡ (leb start i && ltb i (start + n) && not (contains_milestone i t))
unfolding has
has-missing_from i zero start t = ground arith
has-missing_from i (suc n) start t = elim (Bool-cases (i == start)) [
  | inl same ↦
      let e : i ≡ start = ground arith in
      rw (e) (ground (arith, has-missing_from start n (start + 1) t))
  | inr other ↦ ground (arith, has-missing_from i n (start + 1) t)
]

abbrev pub entry_for : ℕ → MilestoneRequesterWorkerEntry
entry_for index = record { index = index; to = none }

abbrev pub asked : List ℕ → Protocol → Protocol
asked indices p = record p {
  milestone_requester_worker = p.milestone_requester_worker ++ map entry_for indices;
}

request_range_lem :
    (n start : ℕ) (p : Protocol) → request_range n start p ≡ asked (missing_from n start p.tangle) p
unfolding request_range
request_range_lem zero start p =
    ap (λ (q : List MilestoneRequesterWorkerEntry). record p { milestone_requester_worker = q })
      (sym (append-nil p.milestone_requester_worker))
request_range_lem (suc n) start p = elim (Bool-cases (contains_milestone start p.tangle)) [
  | inl c ↦ rw (c) (request_range_lem n (start + 1) p)
  | inr c ↦ rw (c) (
      request_range_lem n (start + 1) (request_milestone start none p)
      ∙ ap (λ (q : List MilestoneRequesterWorkerEntry). record p { milestone_requester_worker = q })
          (append_assoc p.milestone_requester_worker (entry_for start ∷ [])
            (map entry_for (missing_from n (start + 1) p.tangle))))
]

abbrev pub heartbeat_for : ℕ → ℕ → ℕ → ℕ × Sent
heartbeat_for solid snapshot epid = (
  epid,
  Sent.heartbeat (record { solid_milestone_index = solid; snapshot_milestone_index = snapshot }),
)

heartbeat_each_lem :
    (epids : List ℕ) (solid snapshot : ℕ) (p : Protocol)
    → All (λ epid. has epid p.handshaked_peers ≡ true) epids
    → heartbeat_each epids solid snapshot p
      ≡ record p { sent = p.sent ++ map (heartbeat_for solid snapshot) epids }
unfolding heartbeat_each send
heartbeat_each_lem [] solid snapshot p h =
    ap (λ (q : List (ℕ × Sent)). record p { sent = q }) (sym (append-nil p.sent))
heartbeat_each_lem (epid ∷ epids) solid snapshot p (there, h) =
    let q : Protocol = record p { sent = p.sent ++ (heartbeat_for solid snapshot epid ∷ []) } in
    rw (there) (
      heartbeat_each_lem epids solid snapshot q h
      ∙ ap (λ (q : List (ℕ × Sent)). record p { sent = q })
          (append_assoc p.sent (heartbeat_for solid snapshot epid ∷ [])
            (map (heartbeat_for solid snapshot) epids)))

All-has_cons :
    (y : ℕ) (xs ys : List ℕ) → All (λ x. has x ys ≡ true) xs → All (λ x. has x (y ∷ ys) ≡ true) xs
All-has_cons y [] ys h = tt
All-has_cons y (x ∷ xs) ys (there, h) = (ground (arith, has_cons x y ys), All-has_cons y xs ys h)

All-has : (xs : List ℕ) → All (λ x. has x xs ≡ true) xs
All-has [] = tt
All-has (x ∷ xs) = (ground (arith, has_cons x x xs), All-has_cons x xs xs (All-has xs))

-- The next milestone is known and solid: it becomes the last solid one, and all handshaked peers are told.
abbrev pub Advances : Protocol → Protocol → Type 0
Advances p p' =
    (hash : ℕ) × (get_milestone_hash (p.tangle.solid_milestone_index + 1) p.tangle ≡ some hash)
    × (is_solid_transaction hash p.tangle ≡ true)
    × (p'.tangle ≡ update_solid_milestone_index (p.tangle.solid_milestone_index + 1) p.tangle)
    × (p'.sent
        ≡ p.sent
          ++ map
              (heartbeat_for (p.tangle.solid_milestone_index + 1) p.tangle.snapshot_milestone_index)
              p.handshaked_peers)
    × (p'.transaction_solidifier_worker ≡ p.transaction_solidifier_worker)

-- Else the tangle stays and no one is told; a milestone that is known is to be solidified.
abbrev pub Stays : Protocol → Protocol → Type 0
Stays p p' =
    (p'.tangle ≡ p.tangle)
    × (p'.sent ≡ p.sent)
    × (((get_milestone_hash (p.tangle.solid_milestone_index + 1) p.tangle ≡ none)
          × (p'.transaction_solidifier_worker ≡ p.transaction_solidifier_worker))
        ⊎ ((hash : ℕ) × (get_milestone_hash (p.tangle.solid_milestone_index + 1) p.tangle
              ≡ some hash)
            × (is_solid_transaction hash p.tangle ≡ false)
            × (p'.transaction_solidifier_worker
                ≡ p.transaction_solidifier_worker
                  ++ (record { hash = hash; index = p.tangle.solid_milestone_index + 1 } ∷ []))))

solidify_target-cases :
    (p : Protocol)
    → ((solidify_target (p.tangle.solid_milestone_index + 1) p).milestone_requester_worker
        ≡ p.milestone_requester_worker)
      × (Advances p (solidify_target (p.tangle.solid_milestone_index + 1) p)
          ⊎ Stays p (solidify_target (p.tangle.solid_milestone_index + 1) p))
unfolding solidify_target
solidify_target-cases p =
    let next = p.tangle.solid_milestone_index + 1 in
    elim (Option-cases (get_milestone_hash next p.tangle)) [
      | inl e ↦
          let same : solidify_target next p ≡ p = rw (solidify_target, e) refl in
          rw (same) (refl, inr (refl, refl, inl (e, refl)))
      | inr (hash, e) ↦ elim (Bool-cases (is_solid_transaction hash p.tangle)) [
        | inl c ↦
            let same : solidify_target next p ≡ record p {
              tangle = update_solid_milestone_index next p.tangle;
              sent =
                  p.sent
                  ++ map (heartbeat_for next p.tangle.snapshot_milestone_index) p.handshaked_peers;
            } =
              rw (solidify_target, e, c)
                (heartbeat_each_lem p.handshaked_peers next p.tangle.snapshot_milestone_index
                  (record p { tangle = update_solid_milestone_index next p.tangle })
                  (All-has p.handshaked_peers)) in
            rw (same) (refl, inl (hash, e, c, refl, refl, refl))
        | inr c ↦
            let same : solidify_target next p ≡ trigger_transaction_solidification hash next p =
              rw (solidify_target, e, c) refl in
            rw (same) (refl, inr (refl, refl, inr (hash, e, c, refl)))
      ]
    ]

-- If the last solid index is a `u32` from which 50 more can be counted, then on an event the milestone solidifier does not
-- panic, and requests exactly the milestones from the last solid index on, 50 of them, that the
-- tangle has none for. If the milestone behind the last solid one is known and solid, its index becomes
-- the last solid one, nothing else of the tangle changes, and every handshaked peer is
-- sent a heartbeat with it; otherwise the tangle stays, no heartbeat is sent, and a milestone that is known is handed to the
-- transaction solidifier.
pub on_milestone_event_lem :
    (checks : Bool) (p : Protocol)
    → p.tangle.solid_milestone_index + milestone_request_range < 2 ^ 32
    → (p' : Protocol) × (on_milestone_event checks p ≡ some p')
      × (indices : List ℕ) × (p'.milestone_requester_worker
          ≡ p.milestone_requester_worker ++ map entry_for indices)
      × ((i : ℕ)
          → has i indices ≡ (
              leb p.tangle.solid_milestone_index i
              && ltb i (p.tangle.solid_milestone_index + milestone_request_range)
              && not (contains_milestone i p.tangle)))
      × (Advances p p' ⊎ Stays p p')
unfolding on_milestone_event request_milestones solidify_milestone add_u32
on_milestone_event_lem checks p low =
    let start = p.tangle.solid_milestone_index in
    let indices = missing_from milestone_request_range start p.tangle in
    let (requests, moves) = solidify_target-cases (asked indices p) in
    let last : ltb (start + milestone_request_range) (2 ^ 32) ≡ true = ground (arith, low) in
    let next : ltb (start + 1) (2 ^ 32) ≡ true = ground (arith, low) in
    let count : start + milestone_request_range - start ≡ milestone_request_range = omega arith in
    (
      solidify_target (start + 1) (asked indices p),
      rw (last, count, request_range_lem milestone_request_range start p, next) refl,
      indices,
      requests,
      λ i. has-missing_from i milestone_request_range start p.tangle,
      moves,
    )
