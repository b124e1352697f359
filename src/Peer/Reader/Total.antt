-- ===== src/Peer/Reader/Total.antt =====
-- When the loop of `message_handler` (bee-protocol/src/worker/peer/peer.rs) ends.
use bee_p.Common.{
  ℕ, zero, suc, ◌≤◌, ◌<◌, ◌≡◌, ◌≢◌, refl, ◌∙◌, Option, none, some, List, [], ◌∷◌, ◌++◌, length,
  take, drop, arith, Option-cases, inl, inr, All, All-append, All-take, All-drop, dec_lt,
  length-drop,
}
use bee_p.Common.Bytes.{AreBytes, IsByte}
use bee_p.Message.Header
use bee_p.Message.Header.{Header, slice}
use bee_p.Peer.Reader.{ReadState, header, payload, ReadContext, message_handler, receive}
use bee_p.Peer.Reader.Frames.{
  measure, frames, frames-header, frames-header_short, frames-payload, frames-payload_short,
  message_handler-frames,
}

-- Three bytes are a header.
header_of_three :
    (xs : List ℕ) → 3 ≤ length xs → (h : Header) × (Header.from_bytes (take 3 xs) ≡ some h)
header_of_three [] h = absurd (omega arith)
header_of_three (a ∷ []) h = absurd (omega arith)
header_of_three (a ∷ b ∷ []) h = absurd (omega arith)
header_of_three (a ∷ b ∷ c ∷ xs) h = (_, Header.from_bytes_three a b c)

module _ {S : Type 0} (process : Header → List ℕ → S → Option S)
    (answers : (h : Header) (bytes : List ℕ) (s : S)
      → AreBytes bytes
      → process h bytes s ≢ none) where
  frames-some :
      (fuel : ℕ) (state : ReadState) (xs : List ℕ) (s : S)
      → measure state xs < fuel
      → AreBytes xs
      → (state' : ReadState) × (rest : List ℕ) × (s' : S) × (frames process state xs s
          ≡ some (state', rest, s'))
        × AreBytes rest
  frames-some zero state xs s h b = elim h [ ]
  frames-some (suc fuel) header xs s h b = elim (dec_lt (length xs) 3) [
    | yes short ↦ (header, xs, s, frames-header_short process xs s short, b)
    | no long ↦
        let enough : 3 ≤ length xs = omega arith in
        let (hd, e) = header_of_three xs enough in
        let (state', rest, s', r, b') =
          frames-some fuel (payload hd) (drop 3 xs) s (omega (arith, length-drop 3 xs))
            (All-drop IsByte 3 xs b) in
        (state', rest, s', frames-header process xs s {h = hd} enough e ∙ r, b')
  ]
  frames-some (suc fuel) (payload hd) xs s h b = elim (dec_lt (length xs) hd.message_length) [
    | yes short ↦ (payload hd, xs, s, frames-payload_short process hd xs s short, b)
    | no long ↦
        let n : ℕ = hd.message_length in
        let enough : n ≤ length xs = omega arith in
        elim (Option-cases (process hd (take n xs) s)) [
          | inl e ↦ absurd (answers hd (take n xs) s (All-take IsByte n xs b) e)
          | inr (s₁, e) ↦
              let (state', rest, s', r, b') =
                frames-some fuel header (drop n xs) s₁ (omega (arith, length-drop n xs))
                  (All-drop IsByte n xs b) in
              (state', rest, s', frames-payload process hd xs s {s' = s₁} enough e ∙ r, b')
        ]
  ]

  pub message_handler-some :
      (context : ReadContext) (bytes : List ℕ) (s : S)
      → AreBytes context.buffer
      → AreBytes bytes
      → (context' : ReadContext) × (s' : S) × (message_handler process context bytes s
          ≡ some (context', s'))
        × AreBytes context'.buffer
  message_handler-some context bytes s b c =
      let (state', rest, s', e, b') =
        frames-some (suc (measure context.state (context.buffer ++ bytes))) context.state
          (context.buffer ++ bytes) s (omega arith) (All-append IsByte context.buffer bytes b c) in
      (
        record { state = state'; buffer = rest },
        s',
        message_handler-frames process context bytes s ∙ rw e,
        b',
      )

  -- If `process` answers on every payload of bytes, the reader answers on every sequence of chunks
  -- of bytes: its loop ends within its fuel, and no slice is out of range.
  pub receive_answers :
      (context : ReadContext) (chunks : List (List ℕ)) (s : S)
      → AreBytes context.buffer
      → All AreBytes chunks
      → (context' : ReadContext) × (s' : S) × (receive process context chunks s
          ≡ some (context', s'))
        × AreBytes context'.buffer
  unfolding receive
  receive_answers context [] s b c = (context, s, refl, b)
  receive_answers context (chunk ∷ chunks) s b (c, cs) =
      let (context₁, s₁, e, b₁) = message_handler-some context chunk s b c in
      let (context', s', r, b') = receive_answers context₁ chunks s₁ b₁ cs in
      (context', s', rw e r, b')
