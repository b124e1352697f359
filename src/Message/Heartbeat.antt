-- ===== src/Message/Heartbeat.antt =====
-- bee-protocol/src/message/v2/heartbeat.rs
use bee_p.Common.{
  ℕ, ◌+◌, ◌<◌, ◌^◌, ◌≡◌, Option, some, List, ◌++◌, length, ◌>>=◌, arith, length-append, All-left,
  All-right, sym, ◌∙◌, All-append,
}
use bee_p.Common.Bytes.{
  AreBytes, split_at, copy_from_slice, to_be_bytes, from_be_bytes, be_value, length-to_be_bytes,
  copy_from_slice-eq, split_at-parts, split_at-append, split_at-all, be_value-to_be_bytes,
  to_be_bytes-AreBytes, from_be_bytes-some, be_value-lt, to_be_bytes-be_value, IsByte,
}
use bee_p.Message.{Message, IsLawful}

abbrev solid_milestone_index_size : ℕ
solid_milestone_index_size = 4

abbrev snapshot_milestone_index_size : ℕ
snapshot_milestone_index_size = 4

abbrev constant_size : ℕ
constant_size = solid_milestone_index_size + snapshot_milestone_index_size

-- Two `u32`.
pub record Heartbeat : Type 0 where
  pub solid_milestone_index : ℕ
  pub snapshot_milestone_index : ℕ

pub record IsValid (m : Heartbeat) : Type 0 where
  pub solid : m.solid_milestone_index < 2 ^ 32
  pub snapshot : m.snapshot_milestone_index < 2 ^ 32

unfoldable pub from_bytes : List ℕ → Option Heartbeat
from_bytes bytes = do
  (bytes, next) ← split_at solid_milestone_index_size bytes
  solid ← from_be_bytes 4 bytes
  (bytes, _) ← split_at snapshot_milestone_index_size next
  snapshot ← from_be_bytes 4 bytes
  some (record { solid_milestone_index = solid; snapshot_milestone_index = snapshot })

unfoldable pub size : Heartbeat → ℕ
size _ = constant_size

unfoldable pub into_bytes : Heartbeat → List ℕ → Option (List ℕ)
into_bytes m bytes = do
  (front, back) ← split_at solid_milestone_index_size bytes
  front' ← copy_from_slice front (to_be_bytes 4 m.solid_milestone_index)
  back' ← copy_from_slice back (to_be_bytes 4 m.snapshot_milestone_index)
  some (front' ++ back')

abbrev pub heartbeat : Message Heartbeat
heartbeat = record {
  id = 6;
  size_range = record { start = constant_size; end = constant_size + 1 };
  from_bytes = from_bytes;
  size = size;
  into_bytes = into_bytes;
}

-- Eight bytes: the two indices, big-endian.
abbrev pub layout : Heartbeat → List ℕ
layout m = to_be_bytes 4 m.solid_milestone_index ++ to_be_bytes 4 m.snapshot_milestone_index

length-layout : (m : Heartbeat) → length (layout m) ≡ 8
length-layout m = omega (
  arith,
  length-append (to_be_bytes 4 m.solid_milestone_index) (to_be_bytes 4 m.snapshot_milestone_index),
  length-to_be_bytes,
)

into_bytes-layout :
    (m : Heartbeat) (buffer : List ℕ) → length buffer ≡ 8 → into_bytes m buffer ≡ some (layout m)
unfolding into_bytes
into_bytes-layout m buffer e =
    let (front, back, split, f, b, _) = split_at-parts 4 buffer (omega arith) in
    rw (
      split,
      copy_from_slice-eq front (to_be_bytes 4 m.solid_milestone_index)
          (omega (arith, length-to_be_bytes)),
      copy_from_slice-eq back (to_be_bytes 4 m.snapshot_milestone_index)
          (omega (arith, length-to_be_bytes)),
    )

from_bytes-append :
    (front back : List ℕ)
    → length front ≡ 4
    → length back ≡ 4
    → from_bytes (front ++ back)
      ≡ some (record {
        solid_milestone_index = be_value 0 front;
        snapshot_milestone_index = be_value 0 back;
      })
unfolding from_bytes
from_bytes-append front back e f = rw (
  split_at-append 4 front back e,
  from_be_bytes-some 4 front e,
  split_at-all 4 back f,
  from_be_bytes-some 4 back f,
)

from_bytes-layout : (m : Heartbeat) → IsValid m → from_bytes (layout m) ≡ some m
from_bytes-layout m v = rw (
  from_bytes-append (to_be_bytes 4 m.solid_milestone_index)
      (to_be_bytes 4 m.snapshot_milestone_index) (length-to_be_bytes 4 _) (length-to_be_bytes 4 _),
  be_value-to_be_bytes 4 m.solid_milestone_index v.solid,
  be_value-to_be_bytes 4 m.snapshot_milestone_index v.snapshot,
)

from_bytes-decodes :
    (bytes : List ℕ)
    → AreBytes bytes
    → length bytes ≡ 8
    → (m : Heartbeat) × (from_bytes bytes ≡ some m) × IsValid m × (layout m ≡ bytes)
from_bytes-decodes bytes h e =
    let (front, back, _, f, b, whole) = split_at-parts 4 bytes (omega arith) in
    let back_4 : length back ≡ 4 = omega arith in
    let are : AreBytes (front ++ back) = rw whole at h in
    let front_are : AreBytes front = All-left IsByte front back are in
    let back_are : AreBytes back = All-right IsByte front back are in
    (
      _,
      rw whole (from_bytes-append front back f back_4),
      record {
        solid = be_value-lt 4 front f front_are;
        snapshot = be_value-lt 4 back back_4 back_are;
      },
      rw (to_be_bytes-be_value 4 front f front_are, to_be_bytes-be_value 4 back back_4 back_are)
          (sym whole),
    )

-- The heartbeat is a lawful message: what it writes is its layout, every valid heartbeat is read
-- back from its layout, and every buffer of eight bytes is the layout of the heartbeat read from it.
pub heartbeat-IsLawful : IsLawful heartbeat IsValid layout
unfolding size
heartbeat-IsLawful = record {
  id_byte = omega arith;
  range_word = omega arith;
  sizes = λ m v. sym (length-layout m);
  bytes = λ m v.
      All-append IsByte (to_be_bytes 4 m.solid_milestone_index)
        (to_be_bytes 4 m.snapshot_milestone_index) (to_be_bytes-AreBytes 4 _)
        (to_be_bytes-AreBytes 4 _);
  writes = λ m buffer v e. into_bytes-layout m buffer (e ∙ length-layout m);
  reads = λ m v _. from_bytes-layout m v;
  decodes = λ bytes h r. from_bytes-decodes bytes h (ground arith);
}
