-- ===== src/Message/TransactionRequest.antt =====
-- bee-protocol/src/message/v2/transaction_request.rs
use bee_p.Common.{ℕ, ◌+◌, ◌≡◌, refl, Option, some, List, length, ◌>>=◌, arith, sym, replicate}
use bee_p.Common.Bytes.{AreBytes, split_at, copy_from_slice, copy_from_slice-eq, split_at-all}
use bee_p.Message.{Message, IsLawful}

abbrev hash_size : ℕ
hash_size = 49

abbrev constant_size : ℕ
constant_size = hash_size

-- A `[u8; HASH_SIZE]`.
pub record TransactionRequest : Type 0 where
  pub hash : List ℕ

pub record IsValid (m : TransactionRequest) : Type 0 where
  pub hash_length : length m.hash ≡ hash_size
  pub are_bytes : AreBytes m.hash

abbrev default_hash : List ℕ
default_hash = replicate hash_size 0

unfoldable pub from_bytes : List ℕ → Option TransactionRequest
unfolding split_at copy_from_slice
from_bytes bytes = do
  (front, _) ← split_at hash_size bytes
  hash ← copy_from_slice default_hash front
  some (record { hash = hash })

unfoldable pub size : TransactionRequest → ℕ
size _ = constant_size

unfoldable pub into_bytes : TransactionRequest → List ℕ → Option (List ℕ)
into_bytes m bytes = copy_from_slice bytes m.hash

abbrev pub transaction_request : Message TransactionRequest
transaction_request = record {
  id = 5;
  size_range = record { start = constant_size; end = constant_size + 1 };
  from_bytes = from_bytes;
  size = size;
  into_bytes = into_bytes;
}

-- The bytes of the hash.
abbrev pub layout : TransactionRequest → List ℕ
layout m = m.hash

from_bytes-eq :
    (bytes : List ℕ) → length bytes ≡ hash_size → from_bytes bytes ≡ some (record { hash = bytes })
unfolding from_bytes
from_bytes-eq bytes e =
    rw (split_at-all hash_size bytes e, copy_from_slice-eq default_hash bytes (sym e))

-- The transaction request is a lawful message: what it writes is its layout, every valid request is
-- read back from its layout, and every buffer of 49 bytes is the layout of the request read from it.
pub transaction_request-IsLawful : IsLawful transaction_request IsValid layout
unfolding size into_bytes
transaction_request-IsLawful = record {
  id_byte = omega arith;
  range_word = omega arith;
  sizes = λ m v. sym v.hash_length;
  bytes = λ m v. v.are_bytes;
  writes = λ m buffer v e. copy_from_slice-eq buffer m.hash e;
  reads = λ m v _. from_bytes-eq m.hash v.hash_length;
  decodes = λ bytes h r.
      let full : length bytes ≡ hash_size = ground arith in
      (
        record { hash = bytes },
        from_bytes-eq bytes full,
        record { hash_length = full; are_bytes = h },
        refl,
      );
}
