-- ===== src/Message/Tlv.antt =====
-- bee-protocol/src/message/tlv/tlv.rs. The outer option is a panic.
pub mod RoundTrip
use bee_p.Common.{
  ℕ, ◌+◌, ◌%◌, ◌^◌, Option, none, some, List, ◌++◌, length, replicate, not, ◌==◌, if◌then◌else◌,
  Result, ok, err, ◌>>=◌,
}
use bee_p.Common.Bytes.{split_at}
use bee_p.Message.{Message, contains}
use bee_p.Message.Header
use bee_p.Message.Header.{Header, header_size}

pub data TlvError : Type 0 where
  invalid_advertised_type : ℕ → ℕ → TlvError
  invalid_advertised_length : ℕ → ℕ → TlvError
  invalid_length : ℕ → TlvError

module _ {M : Type 0} (m : Message M) where
  unfoldable pub tlv_from_bytes : Header → List ℕ → Option (Result TlvError M)
  tlv_from_bytes header bytes =
      if not (header.message_type == m.id)
      then some (err (invalid_advertised_type header.message_type m.id))
      else if not (header.message_length == length bytes)
      then some (err (invalid_advertised_length header.message_length (length bytes)))
      else if not (contains m.size_range (length bytes))
      then some (err (invalid_length (length bytes)))
      else (do message ← m.from_bytes bytes; some (ok message))

  unfoldable pub tlv_into_bytes : M → Option (List ℕ)
  tlv_into_bytes message = do
    let size = m.size message
    let bytes = replicate (header_size + size) 0
    (header, payload) ← split_at header_size bytes
    header' ←
        Header.to_bytes (record { message_type = m.id; message_length = size % 2 ^ 16 }) header
    payload' ← m.into_bytes message payload
    some (header' ++ payload')
