-- ===== src/Ternary/T3b1.antt =====
-- bee-ternary/src/t3b1.rs: three trits in a byte. A byte is an `i8` from -13 to 13.
use bee_p.Common.{
  ◌∙◌, ap, ℕ, ◌+◌, ◌-◌, ◌*◌, ◌/◌, ◌%◌, ◌^◌, ◌<◌, ◌≤◌, ◌≡◌, List, [], ◌∷◌, ◌==◌, if◌then◌else◌,
  arith, ◌⊎◌, inl, inr,
}
use bee_p.Common.Int.{ℤ, pos_part, neg_part, sub_ℕ}
use bee_p.Ternary.Utrit.{from_utrit, into_utrit, set_digit, utrit_bound, from_utrit-into_utrit}
use bee_p.Ternary.{Btrit}

-- `x + BAL` of a byte that is in range.
abbrev pub shifted : ℤ → ℕ
shifted x = pos_part x + 13 - neg_part x

unfoldable pub extract : ℤ → ℕ → Btrit
extract x elem = from_utrit (shifted x / 3 ^ elem % 3)

-- The digit that is there is taken away before the new one is added.
unfoldable pub insert : ℤ → ℕ → Btrit → ℤ
insert x elem trit =
    sub_ℕ (shifted x + into_utrit trit * 3 ^ elem) (shifted x / 3 ^ elem % 3 * 3 ^ elem + 13)

-- A slice of bytes as trits, one by one.
unfoldable pub encode_t1b1 : List ℤ → List Btrit
encode_t1b1 [] = []
encode_t1b1 (x ∷ xs) = extract x 0 ∷ (extract x 1 ∷ (extract x 2 ∷ encode_t1b1 xs))

abbrev pub IsTryte : ℤ → Type 0
IsTryte x = (pos_part x ≤ 13) × (neg_part x ≤ 13)

shifted-insert :
    (x : ℤ) (d n : ℕ)
    → IsTryte x
    → n ≤ shifted x
    → shifted x + d - n ≤ 26
    → shifted (sub_ℕ (shifted x + d) (n + 13)) ≡ shifted x + d - n
shifted-insert x d n t h b = ground arith

set_0 :
    (u d : ℕ)
    → u ≤ 26
    → d ≤ 2
    → (set_digit u d 1 / 1 % 3 ≡ d)
      × (set_digit u d 1 / 3 % 3 ≡ u / 3 % 3)
      × (set_digit u d 1 / 9 % 3 ≡ u / 9 % 3)
      × (set_digit u d 1 ≤ 26)
      × (u / 1 % 3 * 1 ≤ u)
set_0 u d h k = (omega arith, omega arith, omega arith, omega arith, omega arith)

set_1 :
    (u d : ℕ)
    → u ≤ 26
    → d ≤ 2
    → (set_digit u d 3 / 1 % 3 ≡ u / 1 % 3)
      × (set_digit u d 3 / 3 % 3 ≡ d)
      × (set_digit u d 3 / 9 % 3 ≡ u / 9 % 3)
      × (set_digit u d 3 ≤ 26)
      × (u / 3 % 3 * 3 ≤ u)
set_1 u d h k = (omega arith, omega arith, omega arith, omega arith, omega arith)

set_2 :
    (u d : ℕ)
    → u ≤ 26
    → d ≤ 2
    → (set_digit u d 9 / 1 % 3 ≡ u / 1 % 3)
      × (set_digit u d 9 / 3 % 3 ≡ u / 3 % 3)
      × (set_digit u d 9 / 9 % 3 ≡ d)
      × (set_digit u d 9 ≤ 26)
      × (u / 9 % 3 * 9 ≤ u)
set_2 u d h k = (omega arith, omega arith, omega arith, omega arith, omega arith)

shifted_bound : (x : ℤ) → IsTryte x → shifted x ≤ 26
shifted_bound x h = ground arith

sub_ℕ-IsTryte : (u d n : ℕ) → n ≤ u → u + d - n ≤ 26 → IsTryte (sub_ℕ (u + d) (n + 13))
sub_ℕ-IsTryte u d n l h = ground arith

-- What is read from a byte after a trit of it was set: one lemma for each place.
extract-insert_0 :
    (x : ℤ) (t : Btrit)
    → IsTryte x
    → (extract (insert x 0 t) 0 ≡ t)
      × (extract (insert x 0 t) 1 ≡ extract x 1)
      × (extract (insert x 0 t) 2 ≡ extract x 2)
      × IsTryte (insert x 0 t)
unfolding insert extract
extract-insert_0 x t h =
    let (a, b, c, bound, low) =
      set_0 (shifted x) (into_utrit t) (shifted_bound x h) (utrit_bound t) in
    let e = shifted-insert x (into_utrit t * 1) (shifted x / 1 % 3 * 1) h low bound in
    (
      rw (e) (ap from_utrit a ∙ from_utrit-into_utrit t),
      rw (e) (ap from_utrit b),
      rw (e) (ap from_utrit c),
      sub_ℕ-IsTryte (shifted x) (into_utrit t * 1) (shifted x / 1 % 3 * 1) low bound,
    )

extract-insert_1 :
    (x : ℤ) (t : Btrit)
    → IsTryte x
    → (extract (insert x 1 t) 0 ≡ extract x 0)
      × (extract (insert x 1 t) 1 ≡ t)
      × (extract (insert x 1 t) 2 ≡ extract x 2)
      × IsTryte (insert x 1 t)
unfolding insert extract
extract-insert_1 x t h =
    let (a, b, c, bound, low) =
      set_1 (shifted x) (into_utrit t) (shifted_bound x h) (utrit_bound t) in
    let e = shifted-insert x (into_utrit t * 3) (shifted x / 3 % 3 * 3) h low bound in
    (
      rw (e) (ap from_utrit a),
      rw (e) (ap from_utrit b ∙ from_utrit-into_utrit t),
      rw (e) (ap from_utrit c),
      sub_ℕ-IsTryte (shifted x) (into_utrit t * 3) (shifted x / 3 % 3 * 3) low bound,
    )

extract-insert_2 :
    (x : ℤ) (t : Btrit)
    → IsTryte x
    → (extract (insert x 2 t) 0 ≡ extract x 0)
      × (extract (insert x 2 t) 1 ≡ extract x 1)
      × (extract (insert x 2 t) 2 ≡ t)
      × IsTryte (insert x 2 t)
unfolding insert extract
extract-insert_2 x t h =
    let (a, b, c, bound, low) =
      set_2 (shifted x) (into_utrit t) (shifted_bound x h) (utrit_bound t) in
    let e = shifted-insert x (into_utrit t * 9) (shifted x / 9 % 3 * 9) h low bound in
    (
      rw (e) (ap from_utrit a),
      rw (e) (ap from_utrit b),
      rw (e) (ap from_utrit c ∙ from_utrit-into_utrit t),
      sub_ℕ-IsTryte (shifted x) (into_utrit t * 9) (shifted x / 9 % 3 * 9) low bound,
    )

place_cases : (elem : ℕ) → elem < 3 → (elem ≡ 0) ⊎ ((elem ≡ 1) ⊎ (elem ≡ 2))
place_cases elem h = ground arith

-- A trit that is set in a byte is read back from its place, and the other places keep theirs; the
-- byte stays one that holds three trits.
pub extract-insert :
    (x : ℤ) (elem other : ℕ) (trit : Btrit)
    → IsTryte x
    → elem < 3
    → other < 3
    → (extract (insert x elem trit) other ≡ (if elem == other then trit else extract x other))
      × IsTryte (insert x elem trit)
extract-insert x elem other trit t e o = elim (place_cases elem e) [
  | inl p ↦
      let made = extract-insert_0 x trit t in
      elim (place_cases other o) [
        | inl q ↦ rw (p, q) (made.0, made.3)
        | inr (inl q) ↦ rw (p, q) (made.1, made.3)
        | inr (inr q) ↦ rw (p, q) (made.2, made.3)
      ]
  | inr (inl p) ↦
      let made = extract-insert_1 x trit t in
      elim (place_cases other o) [
        | inl q ↦ rw (p, q) (made.0, made.3)
        | inr (inl q) ↦ rw (p, q) (made.1, made.3)
        | inr (inr q) ↦ rw (p, q) (made.2, made.3)
      ]
  | inr (inr p) ↦
      let made = extract-insert_2 x trit t in
      elim (place_cases other o) [
        | inl q ↦ rw (p, q) (made.0, made.3)
        | inr (inl q) ↦ rw (p, q) (made.1, made.3)
        | inr (inr q) ↦ rw (p, q) (made.2, made.3)
      ]
]
