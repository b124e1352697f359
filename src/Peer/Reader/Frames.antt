-- ===== src/Peer/Reader/Frames.antt =====
-- The reader as a function of the bytes that are left, with no offsets and no fuel.
use bee_p.Common.{
  ℕ, zero, suc, ◌+◌, ◌*◌, ◌-◌, ◌≤◌, ◌<◌, ◌≡◌, refl, ◌∙◌, ap, Option, none, some, List, [], ◌∷◌,
  ◌++◌, length, take, drop, leb, if◌then◌else◌, ◌>>=◌, Bool-cases, inl, inr, leb→le, le→leb,
  lt→leb_false, leb_false→lt, arith, length-drop, Option-cases,
}
use native.Mathlib.Nat.{suc-add}
use bee_p.Common.Bytes.{split_at, split_at-le}
use mathlib.Core.Option
use bee_p.Message.Header
use bee_p.Message.Header.{Header, slice}
use bee_p.Peer.Reader.{
  ReadState, header, payload, ReadContext, read_loop, message_handler, enough, is_empty,
}

abbrev pub measure : ReadState → List ℕ → ℕ
measure header xs = 2 * length xs
measure (payload h) xs = 2 * length xs + 1

drop-nil : (n : ℕ) → drop {A = ℕ} n [] ≡ []
drop-nil zero = refl
drop-nil (suc n) = refl

drop-drop : (a b : ℕ) (xs : List ℕ) → drop b (drop a xs) ≡ drop (a + b) xs
drop-drop zero b xs = let e : b ≡ 0 + b = omega arith in ap (λ n. drop n xs) e
drop-drop (suc a) b [] = rw suc-add (drop-nil b)
drop-drop (suc a) b (x ∷ xs) = rw suc-add (drop-drop a b xs)

slice-eq :
    (offset n : ℕ) (buffer : List ℕ)
    → offset + n ≤ length buffer
    → slice offset (offset + n) buffer ≡ some (take n (drop offset buffer))
unfolding slice
slice-eq offset n buffer h =
    let width : offset + n - offset ≡ n = omega arith in
    rw (le→leb offset (offset + n) (omega arith), le→leb (offset + n) (length buffer) h, width)

module _ {S : Type 0} (process : Header → List ℕ → S → Option S) where
  pub frames_on : ℕ → ReadState → List ℕ → S → Option (ReadState × List ℕ × S)
  frames_on zero state xs s = none
  frames_on (suc fuel) header xs s =
      let next = do h ← Header.from_bytes (take 3 xs); frames_on fuel (payload h) (drop 3 xs) s
      in if leb 3 (length xs) then next else some (header, xs, s)
  frames_on (suc fuel) (payload h) xs s =
      let next = do
        s' ← process h (take h.message_length xs) s
        frames_on fuel header (drop h.message_length xs) s'
      in if leb h.message_length (length xs) then next else some (payload h, xs, s)

  -- What the loop leaves in the buffer.
  abbrev left : List ℕ → Option (ReadState × ℕ × S) → Option (ReadState × List ℕ × S)
  left buffer r = do
    (state, offset, s) ← r
    (_, rest) ← split_at offset buffer
    some (state, rest, s)

  left-read_loop :
      (fuel : ℕ) (buffer : List ℕ) (state : ReadState) (offset : ℕ) (s : S)
      → offset ≤ length buffer
      → left buffer (read_loop process fuel buffer state offset s)
        ≡ frames_on fuel state (drop offset buffer) s
  unfolding read_loop frames_on
  left-read_loop zero buffer state offset s h = refl
  left-read_loop (suc fuel) buffer header offset s h =
      elim (Bool-cases (leb (offset + 3) (length buffer))) [
        | inl y ↦
            let fits : offset + 3 ≤ length buffer = leb→le _ _ y in
            rw
              (
                y,
                le→leb 3 (length (drop offset buffer)) (omega (arith, length-drop offset buffer)),
                slice-eq offset 3 buffer fits,
              )
              (elim (Option-cases (Header.from_bytes (take 3 (drop offset buffer)))) [
                | inl e ↦ rw e
                | inr (hd, e) ↦
                    rw (e, drop-drop offset 3 buffer)
                      (left-read_loop fuel buffer (payload hd) (offset + 3) s fits)
              ])
        | inr n ↦
            let short : length buffer < offset + 3 = leb_false→lt _ _ n in
            rw (
              n,
              lt→leb_false 3 (length (drop offset buffer))
                  (omega (arith, length-drop offset buffer)),
              split_at-le offset buffer h,
            )
      ]
  left-read_loop (suc fuel) buffer (payload hd) offset s h =
      let n : ℕ = hd.message_length in
      elim (Bool-cases (leb (offset + n) (length buffer))) [
        | inl y ↦
            let fits : offset + n ≤ length buffer = leb→le _ _ y in
            rw
              (
                y,
                le→leb n (length (drop offset buffer)) (omega (arith, length-drop offset buffer)),
                slice-eq offset n buffer fits,
              )
              (elim (Option-cases (process hd (take n (drop offset buffer)) s)) [
                | inl e ↦ rw e
                | inr (s', e) ↦
                    rw (e, drop-drop offset n buffer)
                      (left-read_loop fuel buffer header (offset + n) s' fits)
              ])
        | inr f ↦
            let short : length buffer < offset + n = leb_false→lt _ _ f in
            rw (
              f,
              lt→leb_false n (length (drop offset buffer))
                  (omega (arith, length-drop offset buffer)),
              split_at-le offset buffer h,
            )
      ]

  -- Any two amounts of fuel above the measure agree.
  frames_on_fuel :
      (f g : ℕ) (state : ReadState) (xs : List ℕ) (s : S)
      → measure state xs < f
      → measure state xs < g
      → frames_on f state xs s ≡ frames_on g state xs s
  unfolding frames_on
  frames_on_fuel zero g state xs s h k = elim h [ ]
  frames_on_fuel (suc f) zero state xs s h k = elim k [ ]
  frames_on_fuel (suc f) (suc g) header xs s h k = elim (Bool-cases (leb 3 (length xs))) [
    | inl y ↦
        let long : 3 ≤ length xs = leb→le _ _ y in
        rw y (elim (Option-cases (Header.from_bytes (take 3 xs))) [
          | inl e ↦ rw e
          | inr (hd, e) ↦ rw e (
              frames_on_fuel f g (payload hd) (drop 3 xs) s (omega (arith, length-drop 3 xs))
                (omega (arith, length-drop 3 xs)))
        ])
    | inr n ↦ rw n
  ]
  frames_on_fuel (suc f) (suc g) (payload hd) xs s h k =
      elim (Bool-cases (leb hd.message_length (length xs))) [
        | inl y ↦ rw y (elim (Option-cases (process hd (take hd.message_length xs) s)) [
          | inl e ↦ rw e
          | inr (s', e) ↦ rw e (
              frames_on_fuel f g header (drop hd.message_length xs) s'
                (omega (arith, length-drop hd.message_length xs))
                (omega (arith, length-drop hd.message_length xs)))
        ])
        | inr n ↦ rw n
      ]

  -- The reader on the bytes `xs`: the state, the bytes that are left and the worker.
  pub frames : ReadState → List ℕ → S → Option (ReadState × List ℕ × S)
  frames state xs s = frames_on (enough process xs) state xs s

  frames-suc :
      (state : ReadState) (xs : List ℕ) (s : S)
      → frames state xs s ≡ frames_on (suc (2 * length xs + 1)) state xs s
  unfolding frames
  frames-suc state xs s =
      let e : 2 * length xs + 2 ≡ suc (2 * length xs + 1) = omega arith in
      ap (λ n. frames_on n state xs s) e

  -- One round of the reader, by its state and whether the bytes that it waits for are there.
  pub frames-header :
      (xs : List ℕ) (s : S) {h : Header}
      → 3 ≤ length xs
      → Header.from_bytes (take 3 xs) ≡ some h
      → frames header xs s ≡ frames (payload h) (drop 3 xs) s
  unfolding frames_on
  frames-header xs s {h} long e =
      frames-suc header xs s
      ∙ rw (le→leb 3 (length xs) long, e)
          (unfold frames in
            frames_on_fuel (2 * length xs + 1) (enough process (drop 3 xs)) (payload h) (drop 3 xs)
              s (omega (arith, length-drop 3 xs)) (omega arith))

  pub frames-header_none :
      (xs : List ℕ) (s : S)
      → 3 ≤ length xs
      → Header.from_bytes (take 3 xs) ≡ none
      → frames header xs s ≡ none
  unfolding frames_on
  frames-header_none xs s long e = frames-suc header xs s ∙ rw (le→leb 3 (length xs) long, e)

  pub frames-header_short :
      (xs : List ℕ) (s : S) → length xs < 3 → frames header xs s ≡ some (header, xs, s)
  unfolding frames_on
  frames-header_short xs s short = frames-suc header xs s ∙ rw (lt→leb_false 3 (length xs) short)

  pub frames-payload :
      (h : Header) (xs : List ℕ) (s : S) {s' : S}
      → h.message_length ≤ length xs
      → process h (take h.message_length xs) s ≡ some s'
      → frames (payload h) xs s ≡ frames header (drop h.message_length xs) s'
  unfolding frames_on
  frames-payload h xs s {s'} long e =
      frames-suc (payload h) xs s
      ∙ rw (le→leb h.message_length (length xs) long, e)
          (unfold frames in
            frames_on_fuel (2 * length xs + 1) (enough process (drop h.message_length xs)) header
              (drop h.message_length xs) s' (omega (arith, length-drop h.message_length xs))
              (omega arith))

  pub frames-payload_none :
      (h : Header) (xs : List ℕ) (s : S)
      → h.message_length ≤ length xs
      → process h (take h.message_length xs) s ≡ none
      → frames (payload h) xs s ≡ none
  unfolding frames_on
  frames-payload_none h xs s long e =
      frames-suc (payload h) xs s ∙ rw (le→leb h.message_length (length xs) long, e)

  pub frames-payload_short :
      (h : Header) (xs : List ℕ) (s : S)
      → length xs < h.message_length
      → frames (payload h) xs s ≡ some (payload h, xs, s)
  unfolding frames_on
  frames-payload_short h xs s short =
      frames-suc (payload h) xs s ∙ rw (lt→leb_false h.message_length (length xs) short)

  -- The bytes of one call stand behind what the buffer held before.
  abbrev pub as_context : ReadState × List ℕ × S → ReadContext × S
  as_context (state, rest, s) = (record { state = state; buffer = rest }, s)

  pub joined : (old new : List ℕ) → (if is_empty old then new else old ++ new) ≡ old ++ new
  joined [] new = refl
  joined (x ∷ old) new = refl

  as_context-left :
      (buffer : List ℕ) (r : Option (ReadState × ℕ × S))
      → (do
        (state, offset, s) ← r
        (_, rest) ← split_at offset buffer
        some (record { state = state; buffer = rest }, s))
        ≡ Option.map as_context (left buffer r)
  as_context-left buffer none = refl
  as_context-left buffer (some (state, offset, s)) = elim (Option-cases (split_at offset buffer)) [
    | inl e ↦ rw e
    | inr (p, e) ↦ rw e
  ]

  -- `message_handler` is the reader on the old and the new bytes together.
  pub message_handler-frames :
      (context : ReadContext) (bytes : List ℕ) (s : S)
      → message_handler process context bytes s
        ≡ Option.map as_context (frames context.state (context.buffer ++ bytes) s)
  unfolding message_handler frames
  message_handler-frames context bytes s = rw (joined context.buffer bytes) (
      as_context-left (context.buffer ++ bytes) _
      ∙ ap (Option.map as_context) (
          left-read_loop (enough process (context.buffer ++ bytes)) (context.buffer ++ bytes)
            context.state 0 s (omega arith)))
