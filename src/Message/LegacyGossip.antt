-- ===== src/Message/LegacyGossip.antt =====
-- bee-protocol/src/message/v1/legacy_gossip.rs
use bee_p.Common.{
  ℕ, ◌+◌, ◌-◌, ◌≤◌, ◌≡◌, refl, Option, some, List, ◌++◌, length, ◌>>=◌, arith, length-append,
  All-left, All-right, sym, ◌∙◌, All-append, replicate,
}
use bee_p.Common.Bytes.{
  AreBytes, checked_sub, checked_sub-eq, split_at, copy_from_slice, copy_from_slice-eq,
  split_at-parts, split_at-append, IsByte,
}
use bee_p.Message.{Message, IsLawful}

abbrev hash_size : ℕ
hash_size = 49

abbrev constant_size : ℕ
constant_size = hash_size

abbrev variable_min_size : ℕ
variable_min_size = 292

abbrev variable_max_size : ℕ
variable_max_size = 1604

-- A `Vec<u8>` and a `[u8; HASH_SIZE]`.
pub record LegacyGossip : Type 0 where
  pub transaction : List ℕ
  pub hash : List ℕ

pub record IsValid (m : LegacyGossip) : Type 0 where
  pub transaction_bytes : AreBytes m.transaction
  pub hash_length : length m.hash ≡ hash_size
  pub hash_bytes : AreBytes m.hash

abbrev default_hash : List ℕ
default_hash = replicate hash_size 0

-- `bytes.len() - HASH_SIZE` underflows on a shorter buffer, and then `split_at` panics.
unfoldable pub from_bytes : List ℕ → Option LegacyGossip
from_bytes bytes = do
  at_hash ← checked_sub (length bytes) hash_size
  (front, next) ← split_at at_hash bytes
  hash ← copy_from_slice default_hash next
  some (record { transaction = front; hash = hash })

unfoldable pub size : LegacyGossip → ℕ
size m = length m.transaction + constant_size

unfoldable pub into_bytes : LegacyGossip → List ℕ → Option (List ℕ)
into_bytes m bytes = do
  (front, back) ← split_at (length m.transaction) bytes
  front' ← copy_from_slice front m.transaction
  back' ← copy_from_slice back m.hash
  some (front' ++ back')

abbrev pub legacy_gossip : Message LegacyGossip
legacy_gossip = record {
  id = 2;
  size_range = record {
    start = constant_size + variable_min_size;
    end = constant_size + variable_max_size + 1;
  };
  from_bytes = from_bytes;
  size = size;
  into_bytes = into_bytes;
}

-- The transaction, and then the hash.
abbrev pub layout : LegacyGossip → List ℕ
layout m = m.transaction ++ m.hash

into_bytes-layout :
    (m : LegacyGossip) (buffer : List ℕ)
    → length buffer ≡ length (layout m)
    → into_bytes m buffer ≡ some (layout m)
unfolding into_bytes
into_bytes-layout m buffer e =
    let total : length buffer ≡ length m.transaction + length m.hash =
      e ∙ length-append m.transaction m.hash in
    let (front, back, split, f, b, _) =
      split_at-parts (length m.transaction) buffer (omega arith) in
    rw (
      split,
      copy_from_slice-eq front m.transaction f,
      copy_from_slice-eq back m.hash (omega arith),
    )

from_bytes-append :
    (front back : List ℕ)
    → length back ≡ hash_size
    → from_bytes (front ++ back) ≡ some (record { transaction = front; hash = back })
unfolding from_bytes
from_bytes-append front back e =
    let total : length (front ++ back) ≡ length front + hash_size =
      length-append front back ∙ omega arith in
    rw (
      checked_sub-eq (length (front ++ back)) hash_size (length front) total,
      split_at-append (length front) front back refl,
      copy_from_slice-eq default_hash back (sym e),
    )

from_bytes-decodes :
    (bytes : List ℕ)
    → AreBytes bytes
    → hash_size ≤ length bytes
    → (m : LegacyGossip) × (from_bytes bytes ≡ some m) × IsValid m × (layout m ≡ bytes)
from_bytes-decodes bytes h e =
    let (front, back, _, f, b, whole) =
      split_at-parts (length bytes - hash_size) bytes (omega arith) in
    let back_size : length back ≡ hash_size = omega arith in
    let are : AreBytes (front ++ back) = rw whole at h in
    (
      record { transaction = front; hash = back },
      rw whole (from_bytes-append front back back_size),
      record {
        transaction_bytes = All-left IsByte front back are;
        hash_length = back_size;
        hash_bytes = All-right IsByte front back are;
      },
      sym whole,
    )

-- The legacy gossip is a lawful message: what it writes is its layout, every valid gossip is read
-- back from its layout, and every buffer in its size range is the layout of the gossip read from it.
pub legacy_gossip-IsLawful : IsLawful legacy_gossip IsValid layout
unfolding size
legacy_gossip-IsLawful = record {
  id_byte = omega arith;
  range_word = omega arith;
  sizes = λ m v. omega (arith, length-append m.transaction m.hash, v.hash_length);
  bytes = λ m v. All-append IsByte m.transaction m.hash v.transaction_bytes v.hash_bytes;
  writes = λ m buffer v e. into_bytes-layout m buffer e;
  reads = λ m v _. from_bytes-append m.transaction m.hash v.hash_length;
  decodes = λ bytes h r. from_bytes-decodes bytes h (ground arith);
}
