-- ===== src/Peer/Handshaker/Validate.antt =====
-- `validate_handshake` of bee-protocol/src/worker/peer/handshaker.rs.
use bee_p.Common.{
  ℕ, ◌+◌, ◌-◌, ◌%◌, ◌/◌, ◌^◌, ◌≤◌, ◌<◌, ◌≡◌, ◌↔◌, ◌⊎◌, inl, inr, refl, Bool, true, false, not,
  Option, none, some, List, [], ◌∷◌, length, ok, arith, All, ◌≢◌, Bool-cases,
}
use bee_p.Common.Int.{ℤ, pos, ltb_ℤ}
use bee_p.Common.Assoc.{Assoc}
use bee_p.Message.Handshake.{Handshake}
use bee_p.Message.Version.{messages_supported_version}
use bee_p.Message.Version.Supported.{messages_supported_version_lem}
use bee_p.Peer.Manager.{inbound, outbound, Address, same_address, Peer, HandshakedPeer}
use bee_p.Peer.Handshaker.{
  HandshakeStatus, Context, equal_from, slice_eq, timestamp_diff, address_of, is_handshaked,
  validate_handshake,
}

equal_from-eq : (xs ys : List ℕ) → length xs ≡ length ys → equal_from xs ys ≡ true → xs ≡ ys
unfolding equal_from
equal_from-eq [] [] l e = refl
equal_from-eq [] (y ∷ ys) l e = absurd (omega arith)
equal_from-eq (x ∷ xs) [] l e = absurd (omega arith)
equal_from-eq (x ∷ xs) (y ∷ ys) l e = ground (arith, equal_from-eq xs ys)

equal_from_refl : (xs : List ℕ) → equal_from xs xs ≡ true
unfolding equal_from
equal_from_refl [] = refl
equal_from_refl (x ∷ xs) = ground (arith, equal_from_refl xs)

-- The loop of `slice_eq` decides equality.
pub slice_eq_iff : (a b : List ℕ) → (slice_eq a b ≡ true) ↔ (a ≡ b)
unfolding slice_eq
slice_eq_iff a b =
    (λ e. ground (arith, equal_from-eq a b), λ e. rw (← e) (ground (arith, equal_from_refl a)))

-- Two clocks at most five seconds apart; with overflow checks, that of the peer not ahead; without
-- them, also two that differ by exactly 2 ^ 63, since that distance wraps to a negative number.
abbrev pub TimestampFits : Bool → ℕ → ℕ → Type 0
TimestampFits true now timestamp = (timestamp ≤ now) × (now ≤ timestamp + 5000)
TimestampFits false now timestamp =
    ((timestamp ≤ now + 5000) × (now ≤ timestamp + 5000)) ⊎ (now + 2 ^ 63 ≡ timestamp)

-- A clock that neither is within five seconds of its start nor has reached 2 ^ 63.
abbrev pub IsClock : ℕ → Type 0
IsClock now = (5000 ≤ now) × (now < 2 ^ 63)

abbrev within : Option ℤ → Bool
within none = false
within (some diff) = not (ltb_ℤ (pos 5000) diff)

-- The test on the timestamp passes, without a panic.
abbrev pub timely : Bool → ℕ → ℕ → Bool
timely checks now timestamp = within (timestamp_diff checks now timestamp)

-- The test on the timestamp passes exactly for clocks at most five seconds apart, and, where the
-- build checks for overflow, only if the peer's clock is not ahead: there it panics instead.
-- Without the checks it also passes for two clocks exactly 2 ^ 63 ms apart.
pub timely_iff :
    (checks : Bool) (now timestamp : ℕ)
    → IsClock now
    → timestamp < 2 ^ 64
    → (timely checks now timestamp ≡ true) ↔ TimestampFits checks now timestamp
unfolding timestamp_diff
timely_iff true now timestamp h k = (λ e. ground arith, λ f. ground arith)
timely_iff false now timestamp h k = (λ e. ground arith, λ f. ground arith)

-- A peer whose clock is ahead, but within the five seconds: the handshake is in time where the
-- build does not check for overflow, and panics where it does.
pub future_timestamp :
    (now timestamp : ℕ)
    → now < timestamp
    → timestamp ≤ now + 5000
    → timestamp < 2 ^ 64
    → (timestamp_diff false now timestamp ≡ some (pos (timestamp - now)))
      × (timestamp_diff true now timestamp ≡ none)
unfolding timestamp_diff
future_timestamp now timestamp h k w = ground arith

-- The address that the peer is known by afterwards: its own, if this node has dialled it, and the
-- port of the handshake must then be right; its own with the port of the handshake, if it has
-- dialled this node.
abbrev pub AddressIs : Peer → Handshake → Address → Type 0
AddressIs peer h address =
    ((peer.origin ≡ outbound) × (peer.address.port ≡ h.port) × (address ≡ peer.address))
    ⊎ ((peer.origin ≡ inbound) × (address ≡ record { ip = peer.address.ip; port = h.port }))

address_of_iff :
    (peer : Peer) (h : Handshake) (address : Address)
    → (address_of peer h ≡ ok address) ↔ AddressIs peer h address
unfolding address_of
address_of_iff peer h address = (λ e. ground arith, λ a. ground arith)

-- No handshaked peer has this address.
abbrev pub IsFree : Address → Assoc HandshakedPeer → Type 0
IsFree address = All (λ entry. entry.1.address ≢ address)

same_address_iff : (a b : Address) → (same_address a b ≡ true) ↔ (a ≡ b)
same_address_iff a b = (λ e. ground arith, λ e. rw (e) (ground arith))

is_handshaked_iff :
    (address : Address) (peers : Assoc HandshakedPeer)
    → (is_handshaked address peers ≡ false) ↔ IsFree address peers
unfolding is_handshaked
is_handshaked_iff address [] = (λ _. tt, λ _. refl)
is_handshaked_iff address ((epid, peer) ∷ peers) =
    let (to, from) = is_handshaked_iff address peers in
    let (equal, same) = same_address_iff peer.address address in
    elim (Bool-cases (same_address peer.address address)) [
      | inl c ↦ (λ e. absurd (ground (arith, c, e)), λ (other, _). absurd (other (equal c)))
      | inr c ↦ (
        λ e. (λ s. absurd (ground (arith, c, same s)), to (ground (arith, c, e))),
        λ (_, free). rw (is_handshaked, c) (from free),
      )
    ]

bit_of_supported :
    (b : ℕ) (versions : List ℕ) (v : ℕ)
    → b < 256
    → messages_supported_version (b ∷ versions) ≡ some (ok v)
    → b / 2 % 2 ≡ 1
bit_of_supported b versions v byte e = elim (messages_supported_version_lem b versions byte) [
  | inl (bit, _) ↦ bit
  | inr (_, (w, refused)) ↦ cc (e, refused)
]

supported_of_bit :
    (b : ℕ) (versions : List ℕ)
    → b < 256
    → b / 2 % 2 ≡ 1
    → messages_supported_version (b ∷ versions) ≡ some (ok 2)
supported_of_bit b versions byte bit = elim (messages_supported_version_lem b versions byte) [
  | inl (_, supported) ↦ supported
  | inr (clear, _) ↦ absurd (omega arith)
]

-- What a handshake that is accepted has passed, with the tests still in the words of the code.
abbrev Passed :
    Context
    → HandshakeStatus
    → HandshakeStatus
    → Assoc HandshakedPeer
    → Handshake
    → Address
    → Type 0
Passed c status status' peers h address =
    (timely c.overflow_checks c.now h.timestamp ≡ true)
    × (slice_eq c.coordinator h.coordinator ≡ true)
    × (c.mwm ≡ h.minimum_weight_magnitude)
    × ((v : ℕ) × (messages_supported_version h.supported_versions ≡ some (ok v)))
    × (address_of c.peer h ≡ ok address)
    × (is_handshaked address peers ≡ false)
    × (status' ≡ status)

validate_handshake-Passed :
    (c : Context) (status status' : HandshakeStatus) (peers : Assoc HandshakedPeer) (h : Handshake)
    (address : Address)
    → (validate_handshake c status peers h ≡ some (status', ok address))
      ↔ Passed c status status' peers h address
unfolding validate_handshake
validate_handshake-Passed c status status' peers h address = (λ e. ground arith, λ p. ground arith)

-- A handshake is accepted exactly when its timestamp is in time, the coordinator and the minimum
-- weight magnitude are those of this node, the second bit of its versions is set, and the address
-- that it gives belongs to no handshaked peer; the worker's status stays. `b` and `versions` are its
-- list of versions.
pub validate_handshake_accepts :
    (c : Context) (status status' : HandshakeStatus) (peers : Assoc HandshakedPeer) (h : Handshake)
    (address : Address) (b : ℕ) (versions : List ℕ)
    → h.supported_versions ≡ b ∷ versions
    → b < 256
    → IsClock c.now
    → h.timestamp < 2 ^ 64
    → (validate_handshake c status peers h ≡ some (status', ok address)) ↔ (
        TimestampFits c.overflow_checks c.now h.timestamp
        × (c.coordinator ≡ h.coordinator)
        × (c.mwm ≡ h.minimum_weight_magnitude)
        × (b / 2 % 2 ≡ 1)
        × AddressIs c.peer h address
        × IsFree address peers
        × (status' ≡ status))
validate_handshake_accepts c status status' peers h address b versions vs byte now stamp =
    (accepted→facts, λ (t, co, m, bit, a, free, same). facts→accepted t co m bit a free same)
  where
    accepted→facts :
        validate_handshake c status peers h ≡ some (status', ok address)
        → TimestampFits c.overflow_checks c.now h.timestamp
          × (c.coordinator ≡ h.coordinator)
          × (c.mwm ≡ h.minimum_weight_magnitude)
          × (b / 2 % 2 ≡ 1)
          × AddressIs c.peer h address
          × IsFree address peers
          × (status' ≡ status)
    accepted→facts e =
        let (t, co, m, (v, supported), a, free, same) =
          (validate_handshake-Passed c status status' peers h address).0 e in
        (
          (timely_iff c.overflow_checks c.now h.timestamp now stamp).0 t,
          (slice_eq_iff c.coordinator h.coordinator).0 co,
          m,
          bit_of_supported b versions v byte (rw vs at supported),
          (address_of_iff c.peer h address).0 a,
          (is_handshaked_iff address peers).0 free,
          same,
        )

    facts→accepted :
        TimestampFits c.overflow_checks c.now h.timestamp
        → c.coordinator ≡ h.coordinator
        → c.mwm ≡ h.minimum_weight_magnitude
        → b / 2 % 2 ≡ 1
        → AddressIs c.peer h address
        → IsFree address peers
        → status' ≡ status
        → validate_handshake c status peers h ≡ some (status', ok address)
    facts→accepted t co m bit a free same =
        (validate_handshake-Passed c status status' peers h address).1 (
          (timely_iff c.overflow_checks c.now h.timestamp now stamp).1 t,
          (slice_eq_iff c.coordinator h.coordinator).1 co,
          m,
          (2, rw vs (supported_of_bit b versions byte bit)),
          (address_of_iff c.peer h address).1 a,
          (is_handshaked_iff address peers).1 free,
          same,
        )
