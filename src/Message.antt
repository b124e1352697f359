-- ===== src/Message.antt =====
-- The trait of bee-protocol/src/message/message.rs, as a record of its constant and its methods,
-- and what a message type has to satisfy for the encoding above it.
pub mod Header
pub mod Tlv
pub mod Handshake
pub mod Heartbeat
pub mod Compression
pub mod Version
pub mod MilestoneRequest
pub mod TransactionBroadcast
pub mod TransactionRequest
pub mod LegacyGossip
mod Tests
use bee_p.Common.{ℕ, ◌≡◌, true, Bool, ◌&&◌, ◌<◌, ◌≤◌, ◌^◌, Option, some, List, ltb, leb, length}
use bee_p.Common.Bytes.{AreBytes}

-- `Range<usize>`
pub record Range : Type 0 where
  pub start : ℕ
  pub end : ℕ

abbrev pub contains : Range → ℕ → Bool
contains r n = leb r.start n && ltb n r.end

-- `from_bytes` and `into_bytes` panic on buffers of a wrong size; `into_bytes` is given the buffer
-- that it writes to, and returns its new contents.
pub record Message (M : Type 0) : Type 0 where
  pub id : ℕ
  pub size_range : Range
  pub from_bytes : List ℕ → Option M
  pub size : M → ℕ
  pub into_bytes : M → List ℕ → Option (List ℕ)

-- `IsValid` says which values the fields of the Rust struct can hold, and `layout` which bytes stand
-- for a value.
pub record IsLawful {M : Type 0} (m : Message M) (IsValid : M → Type 0) (layout : M → List ℕ)
    : Type 0 where
  pub id_byte : m.id < 256
  pub range_word : m.size_range.end ≤ 2 ^ 16
  pub sizes : (x : M) → IsValid x → m.size x ≡ length (layout x)
  pub bytes : (x : M) → IsValid x → AreBytes (layout x)
  pub writes :
      (x : M) (buffer : List ℕ)
      → IsValid x
      → length buffer ≡ length (layout x)
      → m.into_bytes x buffer ≡ some (layout x)
  pub reads :
      (x : M)
      → IsValid x
      → contains m.size_range (length (layout x)) ≡ true
      → m.from_bytes (layout x) ≡ some x
  pub decodes :
      (bytes : List ℕ)
      → AreBytes bytes
      → contains m.size_range (length bytes) ≡ true
      → (x : M) × (m.from_bytes bytes ≡ some x) × IsValid x × (layout x ≡ bytes)
