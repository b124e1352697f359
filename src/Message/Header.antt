-- ===== src/Message/Header.antt =====
-- bee-protocol/src/message/tlv/header.rs
use bee_p.Common.{
  ℕ, ◌-◌, ◌<◌, ◌^◌, ◌≡◌, refl, Option, none, some, List, [], ◌∷◌, length, take, drop, ◌>>=◌,
  get_elem?, leb, if◌then◌else◌, ◌&&◌, arith,
}
use bee_p.Common.Bytes.{
  copy_from_slice, to_be_bytes, from_be_bytes, be_value, from_be_bytes-to_be_bytes,
  length-to_be_bytes, copy_from_slice-eq,
}

abbrev header_type_size : ℕ
header_type_size = 1

abbrev header_length_size : ℕ
header_length_size = 2

abbrev pub header_size : ℕ
header_size = 3

-- A `u8` and a `u16`.
pub record Header : Type 0 where
  pub message_type : ℕ
  pub message_length : ℕ

-- `&bytes[from..to]`
unfoldable pub slice : ℕ → ℕ → List ℕ → Option (List ℕ)
slice from to bytes =
    if leb from to && leb to (length bytes) then some (take (to - from) (drop from bytes)) else none

unfoldable pub from_bytes : List ℕ → Option Header
unfolding slice
from_bytes bytes = do
  message_type ← get_elem? bytes 0
  length_bytes ← slice header_type_size header_size bytes
  message_length ← from_be_bytes header_length_size length_bytes
  some (record { message_type = message_type; message_length = message_length })

unfoldable pub to_bytes : Header → List ℕ → Option (List ℕ)
to_bytes h [] = none
to_bytes h (_ ∷ rest) = do
  rest' ← copy_from_slice rest (to_be_bytes 2 h.message_length)
  some (h.message_type ∷ rest')

-- The three bytes of a header.
abbrev pub header_bytes : Header → List ℕ
header_bytes h = h.message_type ∷ to_be_bytes 2 h.message_length

pub to_bytes-eq :
    (h : Header) (buffer : List ℕ)
    → length buffer ≡ header_size
    → to_bytes h buffer ≡ some (header_bytes h)
unfolding to_bytes
to_bytes-eq h [] e = absurd (omega arith)
to_bytes-eq h (b ∷ rest) e = ground (
  arith,
  copy_from_slice-eq rest (to_be_bytes 2 h.message_length)
      (omega (arith, length-to_be_bytes 2 h.message_length)),
)

pub from_bytes-header_bytes :
    (h : Header) → h.message_length < 2 ^ 16 → from_bytes (header_bytes h) ≡ some h
unfolding from_bytes to_be_bytes
from_bytes-header_bytes h l =
    ground (arith, from_be_bytes-to_be_bytes 2 h.message_length (omega arith))

-- Three bytes are a header.
pub from_bytes_three :
    (a b c : ℕ)
    → from_bytes (a ∷ b ∷ c ∷ [])
      ≡ some (record { message_type = a; message_length = be_value 0 (b ∷ c ∷ []) })
unfolding from_bytes from_be_bytes
from_bytes_three a b c = refl
