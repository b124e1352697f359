-- ===== src/Signing/Normalize/Idempotent.antt =====
-- A normalized hash, and that normalizing it again changes nothing.
use mathlib.Core.Path.{subst}
use bee_p.Common.{
  ℕ, zero, suc, ◌+◌, ◌*◌, ◌≤◌, ◌≡◌, ◌∙◌, refl, sym, ap, some, List, [], ◌∷◌, ◌++◌, length, arith,
  Bool-cases, inl, inr, All, append-nil,
}
use bee_p.Common.Int.{ℤ, pos, pos_part, neg_part, ◌+ℤ◌, ltb_ℤ}
use bee_p.Ternary.{Btrit}
use bee_p.Ternary.T3b1.{IsTryte, encode_t1b1, extract}
use bee_p.Signing.Normalize.{
  tryte_of, read_trytes, sum_of, raise_by, balance, normalize_fragments, normalize_hash,
}
use bee_p.Signing.Normalize.Balanced.{lower_by_lem, raise_by_lem}

abbrev pub IsFragment : List ℤ → Type 0
IsFragment xs = (length xs ≡ 27) × All IsTryte xs × (sum_of xs ≡ pos 0)

-- Three fragments of 27 trytes each, every one of which sums up to 0.
abbrev pub IsNormalized : List Btrit → Type 0
IsNormalized trits =
    (a : List ℤ) × (b : List ℤ) × (c : List ℤ) × (trits ≡ encode_t1b1 (a ++ (b ++ c)))
    × IsFragment a
    × IsFragment b
    × IsFragment c

balance-IsFragment : (xs : List ℤ) → length xs ≡ 27 → All IsTryte xs → IsFragment (balance xs)
unfolding balance
balance-IsFragment xs l h = elim (Bool-cases (ltb_ℤ (pos 0) (sum_of xs))) [
  | inl c ↦
      let (a, s, k) = lower_by_lem (pos_part (sum_of xs)) xs h (ground arith) in
      rw (c) (k ∙ l, a, s)
  | inr c ↦
      let (a, s, k) = raise_by_lem (neg_part (sum_of xs)) xs h (ground arith) in
      rw (c) (k ∙ l, a, s)
]

balance_fragment : (xs : List ℤ) → IsFragment xs → balance xs ≡ xs
unfolding balance raise_by
balance_fragment xs (l, h, s) = rw (s) refl

tryte_of-IsTryte : (a b c : Btrit) → IsTryte (tryte_of a b c)
unfolding ◌+ℤ◌
tryte_of-IsTryte a b c = ground arith

read_trytes_lem :
    (n : ℕ) (trits : List Btrit)
    → 3 * n ≤ length trits
    → (xs : List ℤ) × (rest : List Btrit) × (read_trytes n trits ≡ some (xs, rest))
      × (length xs ≡ n)
      × All IsTryte xs
      × (length trits ≡ 3 * n + length rest)
unfolding read_trytes
read_trytes_lem zero trits h = ([], trits, refl, refl, tt, ground arith)
read_trytes_lem (suc n) [] h = absurd (omega arith)
read_trytes_lem (suc n) (a ∷ []) h = absurd (omega arith)
read_trytes_lem (suc n) (a ∷ (b ∷ [])) h = absurd (omega arith)
read_trytes_lem (suc n) (a ∷ (b ∷ (c ∷ trits))) h =
    let (xs, rest, e, l, t, m) = read_trytes_lem n trits (ground arith) in
    (tryte_of a b c ∷ xs, rest, rw (e) refl, ap suc l, (tryte_of-IsTryte a b c, t), ground arith)

-- The three trits of a tryte have its value.
tryte_of-extract : (x : ℤ) → IsTryte x → tryte_of (extract x 0) (extract x 1) (extract x 2) ≡ x
unfolding extract ◌+ℤ◌
tryte_of-extract x t = ground arith

read_trytes-encode_t1b1 :
    (xs : List ℤ) (rest : List Btrit)
    → All IsTryte xs
    → read_trytes (length xs) (encode_t1b1 xs ++ rest) ≡ some (xs, rest)
unfolding read_trytes encode_t1b1
read_trytes-encode_t1b1 [] rest h = refl
read_trytes-encode_t1b1 (x ∷ xs) rest (t, ts) =
    rw (read_trytes-encode_t1b1 xs rest ts, tryte_of-extract x t) refl

encode_t1b1-append : (xs ys : List ℤ) → encode_t1b1 (xs ++ ys) ≡ encode_t1b1 xs ++ encode_t1b1 ys
unfolding encode_t1b1
encode_t1b1-append [] ys = refl
encode_t1b1-append (x ∷ xs) ys = rw (encode_t1b1-append xs ys) refl

-- One fragment, and then the others.
normalize_fragments_next :
    (n : ℕ) (trits rest : List Btrit) (xs ys : List ℤ)
    → read_trytes 27 trits ≡ some (xs, rest)
    → normalize_fragments n rest ≡ some ys
    → normalize_fragments (suc n) trits ≡ some (balance xs ++ ys)
unfolding normalize_fragments
normalize_fragments_next n trits rest xs ys e f = rw (e, f) refl

-- A hash of at least 243 trits is normalized, without a panic: each third of its trytes sums up to 0.
pub normalize_hash-IsNormalized :
    (hash : List Btrit)
    → 243 ≤ length hash
    → (trits : List Btrit) × (normalize_hash hash ≡ some trits) × IsNormalized trits
unfolding normalize_hash normalize_fragments
normalize_hash-IsNormalized hash h =
    let (a, r, e, l, t, m) = read_trytes_lem 27 hash (ground arith) in
    let (b, r', e', l', t', m') = read_trytes_lem 27 r (ground arith) in
    let (c, r'', e'', l'', t'', m'') = read_trytes_lem 27 r' (ground arith) in
    let last = normalize_fragments_next 0 r' r'' c [] e'' refl in
    let two = normalize_fragments_next 1 r r' b (balance c ++ []) e' last in
    let three = normalize_fragments_next 2 hash r a (balance b ++ (balance c ++ [])) e two in
    (
      encode_t1b1 (balance a ++ (balance b ++ (balance c ++ []))),
      rw (three) refl,
      (
        balance a,
        balance b,
        balance c,
        rw (append-nil (balance c)) refl,
        balance-IsFragment a l t,
        balance-IsFragment b l' t',
        balance-IsFragment c l'' t'',
      ),
    )

read_fragment :
    (xs : List ℤ) (rest : List Btrit)
    → IsFragment xs
    → read_trytes 27 (encode_t1b1 xs ++ rest) ≡ some (xs, rest)
read_fragment xs rest (l, h, s) =
    subst (λ n. read_trytes n (encode_t1b1 xs ++ rest) ≡ some (xs, rest)) l
      (read_trytes-encode_t1b1 xs rest h)

-- Normalizing a normalized hash gives it back.
pub normalize_again : (trits : List Btrit) → IsNormalized trits → normalize_hash trits ≡ some trits
unfolding normalize_hash normalize_fragments
normalize_again trits (a, b, c, e, fa, fb, fc) =
    let split : encode_t1b1 (a ++ (b ++ c))
        ≡ encode_t1b1 a ++ (encode_t1b1 b ++ (encode_t1b1 c ++ [])) =
      encode_t1b1-append a (b ++ c)
      ∙ ap (λ x. encode_t1b1 a ++ x)
          (encode_t1b1-append b c
            ∙ ap (λ x. encode_t1b1 b ++ x) (sym (append-nil (encode_t1b1 c)))) in
    let r' = encode_t1b1 c ++ [] in
    let r = encode_t1b1 b ++ r' in
    let last = normalize_fragments_next 0 r' [] c [] (read_fragment c [] fc) refl in
    let two = normalize_fragments_next 1 r r' b (balance c ++ []) (read_fragment b r' fb) last in
    let three =
      normalize_fragments_next 2 (encode_t1b1 a ++ r) r a (balance b ++ (balance c ++ []))
        (read_fragment a r fa) two in
    rw
      (
        e,
        split,
        three,
        balance_fragment a fa,
        balance_fragment b fb,
        balance_fragment c fc,
        append-nil c,
        sym split,
      )
      refl
