-- ===== src/Message/TransactionBroadcast.antt =====
-- bee-protocol/src/message/v2/transaction_broadcast.rs
use bee_p.Common.{ℕ, ◌+◌, refl, Option, some, List, length, arith}
use bee_p.Common.Bytes.{AreBytes, copy_from_slice, copy_from_slice-eq}
use bee_p.Message.{Message, IsLawful}

abbrev variable_min_size : ℕ
variable_min_size = 292

abbrev variable_max_size : ℕ
variable_max_size = 1604

pub record TransactionBroadcast : Type 0 where
  pub transaction : List ℕ

pub record IsValid (m : TransactionBroadcast) : Type 0 where
  pub are_bytes : AreBytes m.transaction

unfoldable pub from_bytes : List ℕ → Option TransactionBroadcast
from_bytes bytes = some (record { transaction = bytes })

unfoldable pub size : TransactionBroadcast → ℕ
size m = length m.transaction

unfoldable pub into_bytes : TransactionBroadcast → List ℕ → Option (List ℕ)
into_bytes m bytes = copy_from_slice bytes m.transaction

abbrev pub transaction_broadcast : Message TransactionBroadcast
transaction_broadcast = record {
  id = 4;
  size_range = record { start = variable_min_size; end = variable_max_size + 1 };
  from_bytes = from_bytes;
  size = size;
  into_bytes = into_bytes;
}

-- The bytes of the transaction, as they are.
abbrev pub layout : TransactionBroadcast → List ℕ
layout m = m.transaction

-- The transaction broadcast is a lawful message: what it writes is its layout, every broadcast is
-- read back from its layout, and every buffer is the layout of the broadcast read from it.
pub transaction_broadcast-IsLawful : IsLawful transaction_broadcast IsValid layout
unfolding size into_bytes from_bytes
transaction_broadcast-IsLawful = record {
  id_byte = omega arith;
  range_word = omega arith;
  sizes = λ m v. refl;
  bytes = λ m v. v.are_bytes;
  writes = λ m buffer v e. copy_from_slice-eq buffer m.transaction e;
  reads = λ m v _. refl;
  decodes = λ bytes h r. (record { transaction = bytes }, refl, record { are_bytes = h }, refl);
}
