-- ===== src/Message/Handshake.antt =====
-- bee-protocol/src/message/v0/handshake.rs. `new` takes the time of `SystemTime::now` as an argument.
use bee_p.Common.{
  ℕ, ◌+◌, ◌≤◌, ◌<◌, ◌^◌, ◌%◌, ◌≡◌, Option, some, List, ◌++◌, length, ◌>>=◌, arith, length-append,
  All-left, All-right, sym, ◌∙◌, All-append, replicate,
}
use bee_p.Common.Bytes.{
  AreBytes, split_at, copy_from_slice, to_be_bytes, from_be_bytes, be_value, length-to_be_bytes,
  copy_from_slice-eq, split_at-parts, split_at-append, be_value-to_be_bytes, to_be_bytes-AreBytes,
  from_be_bytes-some, be_value-lt, to_be_bytes-be_value, IsByte,
}
use bee_p.Message.{Message, IsLawful}

abbrev port_size : ℕ
port_size = 2

abbrev timestamp_size : ℕ
timestamp_size = 8

abbrev pub coordinator_size : ℕ
coordinator_size = 49

abbrev minimum_weight_magnitude_size : ℕ
minimum_weight_magnitude_size = 1

abbrev pub constant_size : ℕ
constant_size = port_size + timestamp_size + coordinator_size + minimum_weight_magnitude_size

abbrev variable_min_size : ℕ
variable_min_size = 1

abbrev variable_max_size : ℕ
variable_max_size = 32

-- A `u16`, a `u64`, a `[u8; COORDINATOR_SIZE]`, a `u8` and a `Vec<u8>`.
pub record Handshake : Type 0 where
  pub port : ℕ
  pub timestamp : ℕ
  pub coordinator : List ℕ
  pub minimum_weight_magnitude : ℕ
  pub supported_versions : List ℕ

pub record IsValid (m : Handshake) : Type 0 where
  pub port_word : m.port < 2 ^ 16
  pub timestamp_word : m.timestamp < 2 ^ 64
  pub coordinator_length : length m.coordinator ≡ coordinator_size
  pub coordinator_bytes : AreBytes m.coordinator
  pub mwm_byte : m.minimum_weight_magnitude < 2 ^ 8
  pub versions_bytes : AreBytes m.supported_versions

-- `now` is the time since the epoch in ms, a `u128` that `as u64` cuts.
unfoldable pub new : ℕ → ℕ → List ℕ → ℕ → List ℕ → Handshake
new now port coordinator minimum_weight_magnitude supported_versions = record {
  port = port;
  timestamp = now % 2 ^ 64;
  coordinator = coordinator;
  minimum_weight_magnitude = minimum_weight_magnitude;
  supported_versions = supported_versions;
}

abbrev default_coordinator : List ℕ
default_coordinator = replicate coordinator_size 0

unfoldable pub from_bytes : List ℕ → Option Handshake
from_bytes bytes = do
  (bytes, next) ← split_at port_size bytes
  port ← from_be_bytes 2 bytes
  (bytes, next) ← split_at timestamp_size next
  timestamp ← from_be_bytes 8 bytes
  (bytes, next) ← split_at coordinator_size next
  coordinator ← copy_from_slice default_coordinator bytes
  (bytes, next) ← split_at minimum_weight_magnitude_size next
  minimum_weight_magnitude ← from_be_bytes 1 bytes
  some (record {
    port = port;
    timestamp = timestamp;
    coordinator = coordinator;
    minimum_weight_magnitude = minimum_weight_magnitude;
    supported_versions = next;
  })

unfoldable pub size : Handshake → ℕ
size m = constant_size + length m.supported_versions

unfoldable pub into_bytes : Handshake → List ℕ → Option (List ℕ)
into_bytes m bytes = do
  (bytes, next) ← split_at port_size bytes
  port ← copy_from_slice bytes (to_be_bytes 2 m.port)
  (bytes, next) ← split_at timestamp_size next
  timestamp ← copy_from_slice bytes (to_be_bytes 8 m.timestamp)
  (bytes, next) ← split_at coordinator_size next
  coordinator ← copy_from_slice bytes m.coordinator
  (bytes, next) ← split_at minimum_weight_magnitude_size next
  minimum_weight_magnitude ← copy_from_slice bytes (to_be_bytes 1 m.minimum_weight_magnitude)
  supported_versions ← copy_from_slice next m.supported_versions
  some (port ++ (timestamp ++ (coordinator ++ (minimum_weight_magnitude ++ supported_versions))))

abbrev pub handshake : Message Handshake
handshake = record {
  id = 1;
  size_range = record {
    start = constant_size + variable_min_size;
    end = constant_size + variable_max_size + 1;
  };
  from_bytes = from_bytes;
  size = size;
  into_bytes = into_bytes;
}

-- The five fields in order, words big-endian.
abbrev after_coordinator : Handshake → List ℕ
after_coordinator m = to_be_bytes 1 m.minimum_weight_magnitude ++ m.supported_versions

abbrev after_timestamp : Handshake → List ℕ
after_timestamp m = m.coordinator ++ after_coordinator m

abbrev after_port : Handshake → List ℕ
after_port m = to_be_bytes 8 m.timestamp ++ after_timestamp m

abbrev pub layout : Handshake → List ℕ
layout m = to_be_bytes 2 m.port ++ after_port m

pub length-layout :
    (m : Handshake) → IsValid m → length (layout m) ≡ constant_size + length m.supported_versions
length-layout m v = omega (
  arith,
  length-append (to_be_bytes 2 m.port) (after_port m),
  length-append (to_be_bytes 8 m.timestamp) (after_timestamp m),
  length-append m.coordinator (after_coordinator m),
  length-append (to_be_bytes 1 m.minimum_weight_magnitude) m.supported_versions,
  length-to_be_bytes,
  v.coordinator_length,
)

layout-AreBytes : (m : Handshake) → IsValid m → AreBytes (layout m)
layout-AreBytes m v =
    All-append IsByte (to_be_bytes 2 m.port) (after_port m) (to_be_bytes-AreBytes 2 _) (
      All-append IsByte (to_be_bytes 8 m.timestamp) (after_timestamp m) (to_be_bytes-AreBytes 8 _) (
        All-append IsByte m.coordinator (after_coordinator m) v.coordinator_bytes (
          All-append IsByte (to_be_bytes 1 m.minimum_weight_magnitude) m.supported_versions
            (to_be_bytes-AreBytes 1 _) v.versions_bytes)))

into_bytes-layout :
    (m : Handshake) (buffer : List ℕ)
    → IsValid m
    → length buffer ≡ constant_size + length m.supported_versions
    → into_bytes m buffer ≡ some (layout m)
unfolding into_bytes
into_bytes-layout m buffer v e =
    let (b₁, n₁, s₁, l₁, t₁, _) = split_at-parts port_size buffer (omega arith) in
    let (b₂, n₂, s₂, l₂, t₂, _) = split_at-parts timestamp_size n₁ (omega arith) in
    let (b₃, n₃, s₃, l₃, t₃, _) = split_at-parts coordinator_size n₂ (omega arith) in
    let (b₄, n₄, s₄, l₄, t₄, _) = split_at-parts minimum_weight_magnitude_size n₃ (omega arith) in
    rw (
      s₁,
      copy_from_slice-eq b₁ (to_be_bytes 2 m.port) (omega (arith, length-to_be_bytes)),
      s₂,
      copy_from_slice-eq b₂ (to_be_bytes 8 m.timestamp) (omega (arith, length-to_be_bytes)),
      s₃,
      copy_from_slice-eq b₃ m.coordinator (omega (arith, v.coordinator_length)),
      s₄,
      copy_from_slice-eq b₄ (to_be_bytes 1 m.minimum_weight_magnitude)
          (omega (arith, length-to_be_bytes)),
      copy_from_slice-eq n₄ m.supported_versions (omega arith),
    )

from_bytes-append :
    (p t c w vs : List ℕ)
    → length p ≡ port_size
    → length t ≡ timestamp_size
    → length c ≡ coordinator_size
    → length w ≡ minimum_weight_magnitude_size
    → from_bytes (p ++ (t ++ (c ++ (w ++ vs))))
      ≡ some (record {
        port = be_value 0 p;
        timestamp = be_value 0 t;
        coordinator = c;
        minimum_weight_magnitude = be_value 0 w;
        supported_versions = vs;
      })
unfolding from_bytes
from_bytes-append p t c w vs lp lt lc lw = rw (
  split_at-append port_size p (t ++ (c ++ (w ++ vs))) lp,
  from_be_bytes-some 2 p lp,
  split_at-append timestamp_size t (c ++ (w ++ vs)) lt,
  from_be_bytes-some 8 t lt,
  split_at-append coordinator_size c (w ++ vs) lc,
  copy_from_slice-eq default_coordinator c (sym lc),
  split_at-append minimum_weight_magnitude_size w vs lw,
  from_be_bytes-some 1 w lw,
)

from_bytes-layout : (m : Handshake) → IsValid m → from_bytes (layout m) ≡ some m
from_bytes-layout m v = rw (
  from_bytes-append (to_be_bytes 2 m.port) (to_be_bytes 8 m.timestamp) m.coordinator
      (to_be_bytes 1 m.minimum_weight_magnitude) m.supported_versions (length-to_be_bytes 2 _)
      (length-to_be_bytes 8 _) v.coordinator_length (length-to_be_bytes 1 _),
  be_value-to_be_bytes 2 m.port v.port_word,
  be_value-to_be_bytes 8 m.timestamp v.timestamp_word,
  be_value-to_be_bytes 1 m.minimum_weight_magnitude v.mwm_byte,
)

-- The parts of a buffer that is long enough for the constant fields.
parts :
    (bytes : List ℕ)
    → constant_size ≤ length bytes
    → (p : List ℕ) × (t : List ℕ) × (c : List ℕ) × (w : List ℕ) × (vs : List ℕ) × (bytes
        ≡ p ++ (t ++ (c ++ (w ++ vs))))
      × (length p ≡ port_size)
      × (length t ≡ timestamp_size)
      × (length c ≡ coordinator_size)
      × (length w ≡ minimum_weight_magnitude_size)
parts bytes e =
    let (p, n₁, _, l₁, t₁, e₁) = split_at-parts port_size bytes (omega arith) in
    let (t, n₂, _, l₂, t₂, e₂) = split_at-parts timestamp_size n₁ (omega arith) in
    let (c, n₃, _, l₃, t₃, e₃) = split_at-parts coordinator_size n₂ (omega arith) in
    let (w, vs, _, l₄, t₄, e₄) = split_at-parts minimum_weight_magnitude_size n₃ (omega arith) in
    (p, t, c, w, vs, cc (e₁, e₂, e₃, e₄), l₁, l₂, l₃, l₄)

from_bytes-decodes :
    (bytes : List ℕ)
    → AreBytes bytes
    → constant_size ≤ length bytes
    → (m : Handshake) × (from_bytes bytes ≡ some m) × IsValid m × (layout m ≡ bytes)
from_bytes-decodes bytes h e =
    let (p, t, c, w, vs, whole, lp, lt, lc, lw) = parts bytes e in
    let are : AreBytes (p ++ (t ++ (c ++ (w ++ vs)))) = rw whole at h in
    let are_p : AreBytes p = All-left IsByte p (t ++ (c ++ (w ++ vs))) are in
    let are₁ : AreBytes (t ++ (c ++ (w ++ vs))) = All-right IsByte p (t ++ (c ++ (w ++ vs))) are in
    let are_t : AreBytes t = All-left IsByte t (c ++ (w ++ vs)) are₁ in
    let are₂ : AreBytes (c ++ (w ++ vs)) = All-right IsByte t (c ++ (w ++ vs)) are₁ in
    let are₃ : AreBytes (w ++ vs) = All-right IsByte c (w ++ vs) are₂ in
    let are_w : AreBytes w = All-left IsByte w vs are₃ in
    (
      _,
      rw whole (from_bytes-append p t c w vs lp lt lc lw),
      record {
        port_word = be_value-lt 2 p lp are_p;
        timestamp_word = be_value-lt 8 t lt are_t;
        coordinator_length = lc;
        coordinator_bytes = All-left IsByte c (w ++ vs) are₂;
        mwm_byte = be_value-lt 1 w lw are_w;
        versions_bytes = All-right IsByte w vs are₃;
      },
      rw
          (
            to_be_bytes-be_value 2 p lp are_p,
            to_be_bytes-be_value 8 t lt are_t,
            to_be_bytes-be_value 1 w lw are_w,
          )
          (sym whole),
    )

-- The handshake is a lawful message: what it writes is its layout, every valid handshake is read
-- back from its layout, and every buffer in its size range is the layout of the handshake read from
-- it.
pub handshake-IsLawful : IsLawful handshake IsValid layout
unfolding size
handshake-IsLawful = record {
  id_byte = omega arith;
  range_word = omega arith;
  sizes = λ m v. sym (length-layout m v);
  bytes = layout-AreBytes;
  writes = λ m buffer v e. into_bytes-layout m buffer v (e ∙ length-layout m v);
  reads = λ m v _. from_bytes-layout m v;
  decodes = λ bytes h r. from_bytes-decodes bytes h (ground arith);
}
