-- ===== src/Peer/Reader.antt =====
-- `message_handler`, which stands in the same words in bee-protocol/src/worker/peer/peer.rs and in
-- handshaker.rs: it cuts the byte stream of a connection into messages. `process` is the worker's
-- `process_message`; its errors are logged and change nothing, and `none` is a panic.
pub mod Frames
pub mod Chunks
pub mod Total
pub mod Keeps
use bee_p.Common.{
  ℕ, zero, suc, ◌+◌, ◌*◌, ◌-◌, Option, none, some, List, [], ◌∷◌, ◌++◌, length, take, drop, leb,
  if◌then◌else◌, ◌>>=◌, Bool, true, false,
}
use bee_p.Common.Bytes.{split_at}
use bee_p.Message.Header
use bee_p.Message.Header.{Header, header_size, slice}

pub data ReadState : Type 0 where
  header : ReadState
  payload : Header → ReadState

pub record ReadContext : Type 0 where
  pub state : ReadState
  pub buffer : List ℕ

abbrev pub fresh : ReadContext
fresh = record { state = header; buffer = [] }

abbrev pub is_empty : List ℕ → Bool
is_empty [] = true
is_empty (_ ∷ _) = false

module _ {S : Type 0} (process : Header → List ℕ → S → Option S) where
  -- `while remaining`: the state, the offset and the worker when it stops. `none` is a panic, or
  -- the end of the fuel.
  unfoldable pub read_loop : ℕ → List ℕ → ReadState → ℕ → S → Option (ReadState × ℕ × S)
  read_loop zero buffer state offset s = none
  read_loop (suc fuel) buffer header offset s =
      let next = do
        bytes ← slice offset (offset + 3) buffer
        h ← Header.from_bytes bytes
        read_loop fuel buffer (payload h) (offset + 3) s
      in if leb (offset + 3) (length buffer) then next else some (header, offset, s)
  read_loop (suc fuel) buffer (payload h) offset s =
      let next = do
        bytes ← slice offset (offset + h.message_length) buffer
        s' ← process h bytes s
        read_loop fuel buffer header (offset + h.message_length) s'
      in if leb (offset + h.message_length) (length buffer)
        then next
        else some (payload h, offset, s)

  -- Each round either takes three bytes, or leaves the state `payload`, or ends the loop.
  abbrev pub enough : List ℕ → ℕ
  enough buffer = 2 * length buffer + 2

  unfoldable pub message_handler : ReadContext → List ℕ → S → Option (ReadContext × S)
  unfolding read_loop
  message_handler context bytes s =
      let buffer = if is_empty context.buffer then bytes else context.buffer ++ bytes in
      do
        (state, offset, s') ← read_loop (enough buffer) buffer context.state 0 s
        (_, rest) ← split_at offset buffer
        some (record { state = state; buffer = rest }, s')

  -- The chunks that arrive on the connection, one after the other.
  unfoldable pub receive : ReadContext → List (List ℕ) → S → Option (ReadContext × S)
  receive context [] s = some (context, s)
  receive context (chunk ∷ chunks) s = do
    (context', s') ← message_handler context chunk s
    receive context' chunks s'
