-- ===== src/Crypto/Rounds.antt =====
-- The rounds of a transformation of bee-crypto/src/sponge/curlp.rs.
use mathlib.Core.Path.{subst}
use bee_p.Common.{
  ℕ, zero, suc, ◌%◌, ◌≡◌, ◌∙◌, refl, ap, sym, Option, some, List, [], ◌∷◌, length, take, drop,
  length-append, length-take, length-drop, ◌>>=◌, arith,
}
use bee_p.Ternary.{Btrit, zeros}
use bee_p.Ternary.Padded.{length-zeros}
use bee_p.Crypto.{
  CurlP, state_len, hash_len, run_rounds, transform, swap, absorb_from, absorb, write_chunk,
  squeeze, digest, reset,
}
use bee_p.Crypto.Reference.{reference, apply_substitution_box-reference}

-- So many rounds of the reference.
unfoldable pub iterate : ℕ → List Btrit → Option (List Btrit)
iterate zero state = some state
iterate (suc n) state = do output ← reference state_len 0 state; iterate n output

run_rounds-iterate :
    (n : ℕ) (c : CurlP)
    → length c.state ≡ state_len
    → length c.work_state ≡ state_len
    → (c' : CurlP) × (run_rounds n c ≡ some c')
      × (iterate n c.state ≡ some c'.state)
      × (length c'.state ≡ state_len)
      × (length c'.work_state ≡ state_len)
      × (c'.rounds ≡ c.rounds)
unfolding run_rounds iterate
run_rounds-iterate zero c s w = (c, refl, refl, s, w, refl)
run_rounds-iterate (suc n) c s w =
    let (out, e, r, size) = apply_substitution_box-reference c.state s in
    let (c', e', i, s', w', same) =
      run_rounds-iterate n (record c { state = out; work_state = c.state }) size s in
    (c', rw (e) e', rw (r) i, s', w', same)

-- What stands in the second buffer is the state of one round before.
run_rounds_snoc :
    (n : ℕ) (c : CurlP)
    → length c.state ≡ state_len
    → length c.work_state ≡ state_len
    → (c' : CurlP) × (run_rounds (suc n) c ≡ some c') × (iterate n c.state ≡ some c'.work_state)
unfolding run_rounds iterate
run_rounds_snoc zero c s w =
    let (out, e, r, size) = apply_substitution_box-reference c.state s in
    (record c { state = out; work_state = c.state }, rw (e) refl, refl)
run_rounds_snoc (suc n) c s w =
    let (out, e, r, size) = apply_substitution_box-reference c.state s in
    let (c', e', i) = run_rounds_snoc n (record c { state = out; work_state = c.state }) size s in
    (c', rw (e) e', rw (r) i)

-- An odd number of rounds is that many rounds of the reference, without a panic.
pub transform_odd :
    (c : CurlP)
    → length c.state ≡ state_len
    → length c.work_state ≡ state_len
    → c.rounds % 2 ≡ 1
    → (c' : CurlP) × (transform c ≡ some c')
      × (iterate c.rounds c.state ≡ some c'.state)
      × (length c'.state ≡ state_len)
      × (length c'.work_state ≡ state_len)
      × (c'.rounds ≡ c.rounds)
unfolding transform
transform_odd c s w odd =
    let (c', e, i, s', w', same) = run_rounds-iterate c.rounds c s w in
    (c', rw (e, odd) refl, i, s', w', same)

-- An even number of rounds that is not 0 is one round less of the reference: the last round is
-- swapped away.
pub transform_even :
    (c : CurlP) (n : ℕ)
    → length c.state ≡ state_len
    → length c.work_state ≡ state_len
    → c.rounds ≡ suc n
    → n % 2 ≡ 1
    → (c' : CurlP) × (transform c ≡ some c') × (iterate n c.state ≡ some c'.state)
unfolding transform
transform_even c n s w e odd =
    let (c', r, i) = run_rounds_snoc n c s w in
    let even : c.rounds % 2 ≡ 0 = omega (arith, e, odd) in
    let r' : run_rounds c.rounds c ≡ some c' = subst (λ k. run_rounds k c ≡ some c') (sym e) r in
    (swap c', rw (r', even) refl, i)

-- Both buffers of a sponge have 729 trits, and its rounds are odd.
pub record IsSponge (c : CurlP) : Type 0 where
  pub state_length : length c.state ≡ state_len
  pub work_length : length c.work_state ≡ state_len
  pub odd : c.rounds % 2 ≡ 1

transform-IsSponge :
    (c : CurlP)
    → IsSponge c
    → (c' : CurlP) × (transform c ≡ some c') × IsSponge c' × (c'.rounds ≡ c.rounds)
transform-IsSponge c v =
    let (c', e, _, s, w, same) = transform_odd c v.state_length v.work_length v.odd in
    (c', e, record { state_length = s; work_length = w; odd = ap (λ n. n % 2) same ∙ v.odd }, same)

write_chunk-IsSponge :
    (ts : List Btrit) (c : CurlP) → IsSponge c → IsSponge (write_chunk (take hash_len ts) c)
write_chunk-IsSponge ts c v =
    let chunk = take hash_len ts in
    let before = v.state_length in
    record {
      state_length = omega (
        arith,
        length-append chunk (drop (length chunk) c.state),
        length-drop (length chunk) c.state,
        length-take hash_len ts,
      );
      work_length = v.work_length;
      odd = v.odd;
    }

absorb_from-IsSponge :
    (fuel : ℕ) (input : List Btrit) (c : CurlP)
    → IsSponge c
    → (c' : CurlP) × (absorb_from fuel input c ≡ some c') × IsSponge c' × (c'.rounds ≡ c.rounds)
unfolding absorb_from
absorb_from-IsSponge zero input c v = (c, refl, v, refl)
absorb_from-IsSponge (suc fuel) [] c v = (c, refl, v, refl)
absorb_from-IsSponge (suc fuel) (t ∷ ts) c v =
    let (c', e, v', same) =
      transform-IsSponge (write_chunk (take hash_len (t ∷ ts)) c)
        (write_chunk-IsSponge (t ∷ ts) c v) in
    let (c'', e', v'', same') = absorb_from-IsSponge fuel (drop hash_len (t ∷ ts)) c' v' in
    (c'', rw (e) e', v'', same' ∙ same)

-- A sponge with an odd number of rounds, as those of 27 and of 81 rounds, takes any input without a
-- panic and gives a hash of 243 trits. Its state is then 729 zeros again, as that of a new sponge, and it still is one with these rounds.
pub digest_answers :
    (input : List Btrit) (c : CurlP)
    → IsSponge c
    → (c' : CurlP) × (hash : List Btrit) × (digest input c ≡ some (c', hash))
      × (length hash ≡ hash_len)
      × (c'.state ≡ zeros state_len)
      × (c'.rounds ≡ c.rounds)
      × IsSponge c'
unfolding digest absorb squeeze
digest_answers input c v =
    let (a, e, va, same) = absorb_from-IsSponge (length input) input c v in
    let (b, f, vb, same') = transform-IsSponge a va in
    let full = va.state_length in
    (
      reset b,
      take hash_len a.state,
      rw (e, f) refl,
      omega (arith, length-take hash_len a.state),
      ap zeros vb.state_length,
      same' ∙ same,
      record {
        state_length = length-zeros (length b.state) ∙ vb.state_length;
        work_length = vb.work_length;
        odd = vb.odd;
      },
    )
