-- ===== src/Crypto/Reference.antt =====
-- The substitution box of bee-crypto/src/sponge/curlp.rs against the definition of Curl.
use mathlib.Core.Path.{subst}
use bee_p.Common.{
  ℕ, zero, suc, ◌+◌, ◌-◌, ◌*◌, ◌<◌, ◌≡◌, ◌∙◌, refl, ap, sym, Option, some, List, [], ◌∷◌, length,
  ltb, get_elem?, if◌then◌else◌, ◌>>=◌, arith,
}
use bee_p.Common.Int.{◌+ℤ◌}
use bee_p.Ternary.{Btrit, neg_one, no_one, plus_one}
use bee_p.Crypto.{
  try_into, substitute, substitute_from, apply_substitution_box, calculate_truth_table_index,
  truth_table, try_into, half_state_len, state_len,
}

-- The substitution of two trits.
abbrev pub box : Btrit → Btrit → Btrit
box neg_one neg_one = plus_one
box neg_one no_one = plus_one
box neg_one plus_one = neg_one
box no_one neg_one = no_one
box no_one no_one = neg_one
box no_one plus_one = plus_one
box plus_one neg_one = neg_one
box plus_one no_one = no_one
box plus_one plus_one = no_one

-- The place that comes after another.
abbrev pub next : ℕ → ℕ
next p = if ltb p 365 then p + 364 else p - 365

-- A new trit for each place on the way, from its trit and that of the next place.
unfoldable pub reference : ℕ → ℕ → List Btrit → Option (List Btrit)
reference zero p state = some []
reference (suc n) p state = do
  x ← get_elem? state p
  y ← get_elem? state (next p)
  rest ← reference n (next p) state
  some (box x y ∷ rest)

table_lem :
    (x y : Btrit)
    → (get_elem? truth_table (calculate_truth_table_index x y) >>= try_into) ≡ some (box x y)
unfolding calculate_truth_table_index ◌+ℤ◌
table_lem neg_one neg_one = refl
table_lem neg_one no_one = refl
table_lem neg_one plus_one = refl
table_lem no_one neg_one = refl
table_lem no_one no_one = refl
table_lem no_one plus_one = refl
table_lem plus_one neg_one = refl
table_lem plus_one no_one = refl
table_lem plus_one plus_one = refl

substitute-box :
    (input : List Btrit) (p q : ℕ) (x y : Btrit)
    → get_elem? input p ≡ some x
    → get_elem? input q ≡ some y
    → substitute input p q ≡ some (box x y)
unfolding substitute
substitute-box input p q x y e f = rw (substitute, e, f) (table_lem x y)

get_some : (i : ℕ) (ts : List Btrit) → i < length ts → (t : Btrit) × (get_elem? ts i ≡ some t)
get_some i [] h = absurd (omega arith)
get_some zero (t ∷ ts) h = (t, refl)
get_some (suc i) (t ∷ ts) h = get_some i ts (omega arith)

reference_step :
    (n p q : ℕ) (input out : List Btrit) (x y : Btrit)
    → next p ≡ q
    → get_elem? input p ≡ some x
    → get_elem? input q ≡ some y
    → reference n q input ≡ some out
    → reference (suc n) p input ≡ some (box x y ∷ out)
unfolding reference
reference_step n p q input out x y n-p e f r = rw (n-p, e, f, r) refl

substitute_step :
    (n i : ℕ) (input out : List Btrit) (a b : Btrit)
    → substitute input (half_state_len - i) (state_len - i - 1) ≡ some a
    → substitute input (state_len - i - 1) (half_state_len - i - 1) ≡ some b
    → substitute_from n (i + 1) input ≡ some out
    → substitute_from (suc n) i input ≡ some (a ∷ b ∷ out)
unfolding substitute_from
substitute_step n i input out a b e f r = rw (e, f, r) refl

-- Two steps of the loop are two places of the way; the trits are read from the state as it was.
substitute_from-reference :
    (n k i : ℕ) (input : List Btrit)
    → length input ≡ state_len
    → n + i ≡ half_state_len
    → k ≡ n * 2
    → (out : List Btrit) × (substitute_from n i input ≡ some out)
      × (reference k (half_state_len - i) input ≡ some out)
      × (length out ≡ k)
unfolding substitute_from reference
substitute_from-reference zero k i input size sum twice =
    let none_left : k ≡ 0 = omega arith in ([], refl, rw (none_left) refl, omega arith)
substitute_from-reference (suc n) k i input size sum twice =
    let m = k - 2 in
    let k-suc : k ≡ suc (suc m) = omega arith in
    let p = half_state_len - i in
    let q = state_len - i - 1 in
    let r = half_state_len - i - 1 in
    let p-next : next p ≡ q = ground arith in
    let q-next : next q ≡ r = ground arith in
    let after : half_state_len - (i + 1) ≡ r = omega arith in
    let (x, ex) = get_some p input (omega arith) in
    let (y, ey) = get_some q input (omega arith) in
    let (z, ez) = get_some r input (omega arith) in
    let (out, e, f, count) =
      substitute_from-reference n m (i + 1) input size (omega arith) (omega arith) in
    let f' : reference m r input ≡ some out = ap (λ s. reference m s input) (sym after) ∙ f in
    (
      box x y ∷ box y z ∷ out,
      substitute_step n i input out (box x y) (box y z) (substitute-box input p q x y ex ey)
          (substitute-box input q r y z ey ez) e,
      subst (λ s. reference s p input ≡ some (box x y ∷ box y z ∷ out)) (sym k-suc)
          (reference_step (suc m) p q input (box y z ∷ out) x y p-next ex ey
            (reference_step m q r input out y z q-next ey ez f')),
      omega arith,
    )

-- On a state of 729 trits the substitution box does not panic: it gives the 729 trits of the
-- reference, which starts at place 0, goes on 364 places forward or 365 places back, and makes each trit from
-- that of its place and that of the next one.
pub apply_substitution_box-reference :
    (input : List Btrit)
    → length input ≡ state_len
    → (out : List Btrit) × (apply_substitution_box input ≡ some out)
      × (reference state_len 0 input ≡ some out)
      × (length out ≡ state_len)
unfolding apply_substitution_box
apply_substitution_box-reference input size =
    let (x, ex) = get_some 0 input (omega arith) in
    let (y, ey) = get_some half_state_len input (omega arith) in
    let (out, e, f, count) = substitute_from-reference half_state_len 728 0 input size refl refl in
    (
      box x y ∷ out,
      rw (substitute-box input 0 half_state_len x y ex ey, e) refl,
      reference_step 728 0 half_state_len input out x y refl ex ey f,
      omega arith,
    )
