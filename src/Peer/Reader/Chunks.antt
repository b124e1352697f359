-- ===== src/Peer/Reader/Chunks.antt =====
-- The reader on a stream that arrives in chunks, and on a stream of framed messages (the loop of
-- `message_handler` and `run` of bee-protocol/src/worker/peer/peer.rs).
use mathlib.Core.Option
use bee_p.Common.{
  ℕ, zero, suc, ◌^◌, ◌≤◌, ◌<◌, ◌≡◌, refl, sym, ◌∙◌, ap, Option, none, some, List, [], ◌∷◌, ◌++◌,
  length, take, drop, ◌>>=◌, bind_congr, arith, length-append, append-nil, Option-cases,
  append_assoc, inl, inr, take-append, drop-append, All, dec_lt, length-drop,
}
use bee_p.Common.Bytes.{length-to_be_bytes}
use bee_p.Message.Header
use bee_p.Message.Header.{Header, header_bytes, from_bytes-header_bytes}
use bee_p.Peer.Reader.{ReadState, header, payload, ReadContext, fresh, message_handler, receive}
use bee_p.Peer.Reader.Frames.{
  measure, frames, frames-header, frames-header_none, frames-header_short, frames-payload,
  frames-payload_none, frames-payload_short, message_handler-frames, as_context,
}

take-left : (n : ℕ) (a b : List ℕ) → n ≤ length a → take n (a ++ b) ≡ take n a
take-left zero a b h = refl
take-left (suc n) [] b h = absurd (omega arith)
take-left (suc n) (x ∷ a) b h = ap (λ ys. x ∷ ys) (take-left n a b (omega arith))

drop-left : (n : ℕ) (a b : List ℕ) → n ≤ length a → drop n (a ++ b) ≡ drop n a ++ b
drop-left zero a b h = refl
drop-left (suc n) [] b h = absurd (omega arith)
drop-left (suc n) (x ∷ a) b h = drop-left n a b (omega arith)

abbrev pub concat : List (List ℕ) → List ℕ
concat [] = []
concat (c ∷ cs) = c ++ concat cs

-- The bytes on the wire of a list of messages, each a header and a payload.
abbrev pub wire : List (Header × List ℕ) → List ℕ
wire [] = []
wire ((h, p) ∷ fs) = header_bytes h ++ (p ++ wire fs)

-- A header that fits its payload.
abbrev pub IsFramed : Header × List ℕ → Type 0
IsFramed (h, p) = (h.message_length ≡ length p) × (h.message_length < 2 ^ 16)

module _ {S : Type 0} (process : Header → List ℕ → S → Option S) where
  -- Going on with more bytes from where the reader stopped.
  abbrev continue : List ℕ → Option (ReadState × List ℕ × S) → Option (ReadState × List ℕ × S)
  continue more r = do (state, rest, s) ← r; frames process state (rest ++ more) s

  frames-append :
      (fuel : ℕ) (state : ReadState) (xs more : List ℕ) (s : S)
      → measure state xs < fuel
      → frames process state (xs ++ more) s ≡ continue more (frames process state xs s)
  frames-append zero state xs more s h = elim h [ ]
  frames-append (suc fuel) header xs more s h = elim (dec_lt (length xs) 3) [
    | yes short ↦ rw (frames-header_short process xs s short)
    | no long ↦
        let enough : 3 ≤ length xs = omega arith in
        let same : take 3 (xs ++ more) ≡ take 3 xs = take-left 3 xs more enough in
        let more_enough : 3 ≤ length (xs ++ more) = omega (arith, length-append xs more) in
        elim (Option-cases (Header.from_bytes (take 3 xs))) [
          | inl e ↦ rw (
            frames-header_none process xs s enough e,
            frames-header_none process (xs ++ more) s more_enough (rw same e),
          )
          | inr (hd, e) ↦
              rw
                (
                  frames-header process xs s {h = hd} enough e,
                  frames-header process (xs ++ more) s {h = hd} more_enough (rw same e),
                  drop-left 3 xs more enough,
                )
                (frames-append fuel (payload hd) (drop 3 xs) more s
                  (omega (arith, length-drop 3 xs)))
        ]
  ]
  frames-append (suc fuel) (payload hd) xs more s h =
      let n : ℕ = hd.message_length in
      elim (dec_lt (length xs) n) [
        | yes short ↦ rw (frames-payload_short process hd xs s short)
        | no long ↦
            let enough : n ≤ length xs = omega arith in
            let same : take n (xs ++ more) ≡ take n xs = take-left n xs more enough in
            let more_enough : n ≤ length (xs ++ more) = omega (arith, length-append xs more) in
            elim (Option-cases (process hd (take n xs) s)) [
              | inl e ↦ rw (
                frames-payload_none process hd xs s enough e,
                frames-payload_none process hd (xs ++ more) s more_enough (rw same e),
              )
              | inr (s', e) ↦
                  rw
                    (
                      frames-payload process hd xs s {s' = s'} enough e,
                      frames-payload process hd (xs ++ more) s {s' = s'} more_enough (rw same e),
                      drop-left n xs more enough,
                    )
                    (frames-append fuel header (drop n xs) more s'
                      (omega (arith, length-drop n xs)))
            ]
      ]

  then_more :
      (more : List ℕ) (r : Option (ReadState × List ℕ × S))
      → (Option.map (as_context process) r >>= λ x. message_handler process x.0 more x.1)
        ≡ Option.map (as_context process) (continue more r)
  then_more more none = refl
  then_more more (some (state, rest, s)) =
      message_handler-frames process (record { state = state; buffer = rest }) more s

  bind_some : (r : Option (ReadContext × S)) → (r >>= λ x. some (x.0, x.1)) ≡ r
  bind_some none = refl
  bind_some (some x) = refl

  whole :
      (r : Option S)
      → Option.map (as_context process) (r >>= λ s'. some (header, [], s'))
        ≡ (r >>= λ s'. some (fresh, s'))
  whole none = refl
  whole (some s') = refl

  -- Two chunks have the effect of one.
  message_handler-append :
      (context : ReadContext) (a b : List ℕ) (s : S)
      → (do
        (context', s') ← message_handler process context a s
        message_handler process context' b s')
        ≡ message_handler process context (a ++ b) s
  message_handler-append context a b s = rw (message_handler-frames process context a s) (
      then_more b (frames process context.state (context.buffer ++ a) s)
      ∙ ap (Option.map (as_context process)) (
          sym (
            frames-append (suc (measure context.state (context.buffer ++ a))) context.state
              (context.buffer ++ a) b s (omega arith)))
      ∙ rw (append_assoc context.buffer a b)
          (sym (message_handler-frames process context (a ++ b) s)))

  -- However the bytes of a connection are cut into chunks, the worker ends as if they had come in
  -- one: with the same messages processed in the same order, and the same bytes kept.
  pub receive_chunks :
      (context : ReadContext) (chunk : List ℕ) (chunks : List (List ℕ)) (s : S)
      → receive process context (chunk ∷ chunks) s
        ≡ message_handler process context (concat (chunk ∷ chunks)) s
  unfolding receive
  receive_chunks context chunk [] s =
      rw (append-nil chunk) (bind_some (message_handler process context chunk s))
  receive_chunks context chunk (next ∷ chunks) s =
      bind_congr (message_handler process context chunk s)
        (λ (x : ReadContext × S). receive process x.0 (next ∷ chunks) x.1)
        (λ x. message_handler process x.0 (next ++ concat chunks) x.1)
        (λ x. receive_chunks x.0 next chunks x.1)
      ∙ message_handler-append context chunk (next ++ concat chunks) s

  -- The worker after one message after the other.
  abbrev pub process_all : List (Header × List ℕ) → S → Option S
  process_all [] s = some s
  process_all ((h, p) ∷ fs) s = do s' ← process h p s; process_all fs s'

  frames-wire :
      (fs : List (Header × List ℕ)) (s : S)
      → All IsFramed fs
      → frames process header (wire fs) s ≡ (do s' ← process_all fs s; some (header, [], s'))
  frames-wire [] s f = frames-header_short process [] s (omega arith)
  frames-wire ((h, p) ∷ fs) s ((fits, word), f) =
      let rest : List ℕ = p ++ wire fs in
      let three : 3 ≡ length (header_bytes h) =
        omega (arith, length-to_be_bytes 2 h.message_length) in
      let took : take 3 (header_bytes h ++ rest) ≡ header_bytes h =
        take-append 3 (header_bytes h) rest three in
      let payload_took : take h.message_length rest ≡ p =
        take-append h.message_length p (wire fs) fits in
      let room : h.message_length ≤ length rest = omega (arith, length-append p (wire fs)) in
      rw
        (
          frames-header process (header_bytes h ++ rest) s {h = h}
              (omega (arith, length-append (header_bytes h) rest))
              (rw took (from_bytes-header_bytes h word)),
          drop-append 3 (header_bytes h) rest three,
        )
        (elim (Option-cases (process h p s)) [
          | inl e ↦ rw (e, frames-payload_none process h rest s room (rw payload_took e))
          | inr (s', e) ↦
              rw
                (
                  e,
                  frames-payload process h rest s {s' = s'} room (rw payload_took e),
                  drop-append h.message_length p (wire fs) fits,
                )
                (frames-wire fs s' f)
        ])

  -- A stream of messages, each behind a header that fits it, cut into chunks at any places, is
  -- processed message by message, in order, and leaves the reader as it was at the start.
  pub receive-wire :
      (fs : List (Header × List ℕ)) (chunk : List ℕ) (chunks : List (List ℕ)) (s : S)
      → All IsFramed fs
      → concat (chunk ∷ chunks) ≡ wire fs
      → receive process fresh (chunk ∷ chunks) s ≡ (do s' ← process_all fs s; some (fresh, s'))
  receive-wire fs chunk chunks s f e =
      receive_chunks fresh chunk chunks s
      ∙ message_handler-frames process fresh (concat (chunk ∷ chunks)) s
      ∙ rw (e, frames-wire fs s f) (whole (process_all fs s))
