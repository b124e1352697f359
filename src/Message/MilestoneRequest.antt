-- ===== src/Message/MilestoneRequest.antt =====
-- bee-protocol/src/message/v2/milestone_request.rs
use bee_p.Common.{ℕ, ◌+◌, ◌<◌, ◌^◌, ◌≡◌, Option, some, List, length, ◌>>=◌, arith, sym}
use bee_p.Common.Bytes.{
  split_at, copy_from_slice, to_be_bytes, from_be_bytes, be_value, length-to_be_bytes,
  copy_from_slice-eq, split_at-all, be_value-to_be_bytes, to_be_bytes-AreBytes, from_be_bytes-some,
  be_value-lt, to_be_bytes-be_value,
}
use bee_p.Message.{Message, IsLawful}

abbrev index_size : ℕ
index_size = 4

abbrev constant_size : ℕ
constant_size = index_size

-- A `u32`.
pub record MilestoneRequest : Type 0 where
  pub index : ℕ

pub record IsValid (m : MilestoneRequest) : Type 0 where
  pub word : m.index < 2 ^ 32

-- `bytes[0..INDEX_SIZE]` is the front of a split at `INDEX_SIZE`.
unfoldable pub from_bytes : List ℕ → Option MilestoneRequest
from_bytes bytes = do
  (front, _) ← split_at index_size bytes
  index ← from_be_bytes 4 front
  some (record { index = index })

unfoldable pub size : MilestoneRequest → ℕ
size _ = constant_size

unfoldable pub into_bytes : MilestoneRequest → List ℕ → Option (List ℕ)
into_bytes m bytes = copy_from_slice bytes (to_be_bytes 4 m.index)

abbrev pub milestone_request : Message MilestoneRequest
milestone_request = record {
  id = 3;
  size_range = record { start = constant_size; end = constant_size + 1 };
  from_bytes = from_bytes;
  size = size;
  into_bytes = into_bytes;
}

-- Four bytes: the index, big-endian.
abbrev pub layout : MilestoneRequest → List ℕ
layout m = to_be_bytes 4 m.index

from_bytes-eq :
    (bytes : List ℕ)
    → length bytes ≡ 4
    → from_bytes bytes ≡ some (record { index = be_value 0 bytes })
unfolding from_bytes
from_bytes-eq bytes e = rw (split_at-all 4 bytes e, from_be_bytes-some 4 bytes e)

from_bytes-layout : (m : MilestoneRequest) → IsValid m → from_bytes (layout m) ≡ some m
from_bytes-layout m v = rw (
  from_bytes-eq (to_be_bytes 4 m.index) (length-to_be_bytes 4 _),
  be_value-to_be_bytes 4 m.index v.word,
)

-- The milestone request is a lawful message: what it writes is its layout, every valid request is
-- read back from its layout, and every buffer of four bytes is the layout of the request read from
-- it.
pub milestone_request-IsLawful : IsLawful milestone_request IsValid layout
unfolding size into_bytes
milestone_request-IsLawful = record {
  id_byte = omega arith;
  range_word = omega arith;
  sizes = λ m v. sym (length-to_be_bytes 4 m.index);
  bytes = λ m v. to_be_bytes-AreBytes 4 m.index;
  writes = λ m buffer v e. copy_from_slice-eq buffer (to_be_bytes 4 m.index) e;
  reads = λ m v _. from_bytes-layout m v;
  decodes = λ bytes h r.
      let four : length bytes ≡ 4 = ground arith in
      (
        _,
        from_bytes-eq bytes four,
        record { word = be_value-lt 4 bytes four h },
        to_be_bytes-be_value 4 bytes four h,
      );
}
