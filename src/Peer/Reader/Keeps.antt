-- ===== src/Peer/Reader/Keeps.antt =====
-- Invariants of a worker under `message_handler` (bee-protocol/src/worker/peer/peer.rs).
use mathlib.Core.Option
use bee_p.Common.{
  ℕ, zero, suc, ◌≤◌, ◌<◌, ◌≡◌, sym, ◌∙◌, ap, Option, some, List, ◌++◌, length, take, drop, arith,
  Option-cases, inl, inr, dec_lt, length-drop,
}
use mathlib.Core.Path.{subst}
use bee_p.Message.Header
use bee_p.Message.Header.{Header}
use bee_p.Peer.Reader.{ReadState, header, payload, ReadContext, message_handler}
use bee_p.Peer.Reader.Frames.{
  measure, frames, frames-header, frames-header_none, frames-header_short, frames-payload,
  frames-payload_none, frames-payload_short, message_handler-frames, as_context,
}

module _ {S : Type 0} (process : Header → List ℕ → S → Option S) (P : S → Type 0)
    (keeps : (h : Header) (bytes : List ℕ) (s s' : S)
      → P s
      → process h bytes s ≡ some s'
      → P s') where
  frames-keeps :
      (fuel : ℕ) (state : ReadState) (xs : List ℕ) (s : S) (r : ReadState × List ℕ × S)
      → measure state xs < fuel
      → P s
      → frames process state xs s ≡ some r
      → P r.2
  frames-keeps zero state xs s r m p e = elim m [ ]
  frames-keeps (suc fuel) header xs s r m p e = elim (dec_lt (length xs) 3) [
    | yes short ↦
        let same : (header, xs, s) ≡ r = cc (e, frames-header_short process xs s short) in
        rw (← same) p
    | no long ↦
        let enough : 3 ≤ length xs = omega arith in
        elim (Option-cases (Header.from_bytes (take 3 xs))) [
          | inl f ↦ cc (e, frames-header_none process xs s enough f)
          | inr (hd, f) ↦
              frames-keeps fuel (payload hd) (drop 3 xs) s r (omega (arith, length-drop 3 xs)) p
                (sym (frames-header process xs s {h = hd} enough f) ∙ e)
        ]
  ]
  frames-keeps (suc fuel) (payload hd) xs s r m p e = elim (dec_lt (length xs) hd.message_length) [
    | yes short ↦
        let same : (payload hd, xs, s) ≡ r = cc (e, frames-payload_short process hd xs s short) in
        rw (← same) p
    | no long ↦
        let n : ℕ = hd.message_length in
        let enough : n ≤ length xs = omega arith in
        elim (Option-cases (process hd (take n xs) s)) [
          | inl f ↦ cc (e, frames-payload_none process hd xs s enough f)
          | inr (s₁, f) ↦
              frames-keeps fuel header (drop n xs) s₁ r (omega (arith, length-drop n xs))
                (keeps hd (take n xs) s s₁ p f)
                (sym (frames-payload process hd xs s {s' = s₁} enough f) ∙ e)
        ]
  ]

  -- What every message keeps, every chunk keeps.
  pub message_handler-keeps :
      (context : ReadContext) (bytes : List ℕ) (s : S) (context' : ReadContext) (s' : S)
      → P s
      → message_handler process context bytes s ≡ some (context', s')
      → P s'
  message_handler-keeps context bytes s context' s' p e =
      let whole = sym (message_handler-frames process context bytes s) ∙ e in
      let (r, f, same) =
        (Option.map-eq-some_iff (as_context process)
            (frames process context.state (context.buffer ++ bytes) s)).0
          whole in
      let kept : P r.2 =
        frames-keeps (suc (measure context.state (context.buffer ++ bytes))) context.state
          (context.buffer ++ bytes) s r (omega arith) p f in
      subst P (ap (λ (x : ReadContext × S). x.1) same) kept
