-- ===== src/Ternary/T5b1/Places.antt =====
-- Setting a trit of a byte of bee-ternary/src/t5b1.rs.
use bee_p.Common.{
  ℕ, suc, ◌+◌, ◌-◌, ◌*◌, ◌/◌, ◌%◌, ◌^◌, ◌<◌, ◌≤◌, ◌≡◌, ◌∙◌, refl, ap, List, [], ◌∷◌, ◌++◌, take,
  arith, ◌⊎◌, inl, inr,
}
use bee_p.Common.Int.{ℤ, pos_part, neg_part, sub_ℕ}
use bee_p.Ternary.Utrit.{from_utrit, into_utrit, set_digit, utrit_bound, from_utrit-into_utrit}
use bee_p.Ternary.{Btrit}
use bee_p.Ternary.T5b1.{shifted, extract, insert}

abbrev pub IsByte : ℤ → Type 0
IsByte x = (pos_part x ≤ 121) × (neg_part x ≤ 121)

-- The five trits of a byte.
abbrev pub five : ℤ → List Btrit
five x = extract x 0 ∷ extract x 1 ∷ extract x 2 ∷ extract x 3 ∷ extract x 4 ∷ []

shifted-insert :
    (x : ℤ) (d n : ℕ)
    → IsByte x
    → n ≤ shifted x
    → shifted x + d - n ≤ 242
    → shifted (sub_ℕ (shifted x + d) (n + 121)) ≡ shifted x + d - n
shifted-insert x d n t h b = ground arith

sub_ℕ-IsByte : (u d n : ℕ) → n ≤ u → u + d - n ≤ 242 → IsByte (sub_ℕ (u + d) (n + 121))
sub_ℕ-IsByte u d n l h = ground arith

shifted_bound : (x : ℤ) → IsByte x → shifted x ≤ 242
shifted_bound x h = ground arith

set_0 :
    (u d : ℕ)
    → u ≤ 242
    → d ≤ 2
    → (set_digit u d 1 / 1 % 3 ≡ d) × (set_digit u d 1 ≤ 242) × (u / 1 % 3 * 1 ≤ u)
set_0 u d h k = (omega arith, omega arith, omega arith)

set_1 :
    (u d : ℕ)
    → u ≤ 242
    → d ≤ 2
    → (set_digit u d 3 / 1 % 3 ≡ u / 1 % 3)
      × (set_digit u d 3 / 3 % 3 ≡ d)
      × (set_digit u d 3 ≤ 242)
      × (u / 3 % 3 * 3 ≤ u)
set_1 u d h k = (omega arith, omega arith, omega arith, omega arith)

set_2 :
    (u d : ℕ)
    → u ≤ 242
    → d ≤ 2
    → (set_digit u d 9 / 1 % 3 ≡ u / 1 % 3)
      × (set_digit u d 9 / 3 % 3 ≡ u / 3 % 3)
      × (set_digit u d 9 / 9 % 3 ≡ d)
      × (set_digit u d 9 ≤ 242)
      × (u / 9 % 3 * 9 ≤ u)
set_2 u d h k = (omega arith, omega arith, omega arith, omega arith, omega arith)

set_3 :
    (u d : ℕ)
    → u ≤ 242
    → d ≤ 2
    → (set_digit u d 27 / 1 % 3 ≡ u / 1 % 3)
      × (set_digit u d 27 / 3 % 3 ≡ u / 3 % 3)
      × (set_digit u d 27 / 9 % 3 ≡ u / 9 % 3)
      × (set_digit u d 27 / 27 % 3 ≡ d)
      × (set_digit u d 27 ≤ 242)
      × (u / 27 % 3 * 27 ≤ u)
set_3 u d h k = (omega arith, omega arith, omega arith, omega arith, omega arith, omega arith)

set_4 :
    (u d : ℕ)
    → u ≤ 242
    → d ≤ 2
    → (set_digit u d 81 / 1 % 3 ≡ u / 1 % 3)
      × (set_digit u d 81 / 3 % 3 ≡ u / 3 % 3)
      × (set_digit u d 81 / 9 % 3 ≡ u / 9 % 3)
      × (set_digit u d 81 / 27 % 3 ≡ u / 27 % 3)
      × (set_digit u d 81 / 3 ^ 4 % 3 ≡ d)
      × (set_digit u d 81 ≤ 242)
      × (u / 81 % 3 * 81 ≤ u)
set_4 u d h k =
    (omega arith, omega arith, omega arith, omega arith, omega arith, omega arith, omega arith)

insert_0 :
    (x : ℤ) (t : Btrit)
    → IsByte x
    → (take 1 (five (insert x 0 t)) ≡ take 0 (five x) ++ (t ∷ [])) × IsByte (insert x 0 t)
unfolding insert extract
insert_0 x t h =
    let (a, bound, low) = set_0 (shifted x) (into_utrit t) (shifted_bound x h) (utrit_bound t) in
    let e = shifted-insert x (into_utrit t * 1) (shifted x / 1 % 3 * 1) h low bound in
    (
      rw (e, a, from_utrit-into_utrit t) refl,
      sub_ℕ-IsByte (shifted x) (into_utrit t * 1) (shifted x / 1 % 3 * 1) low bound,
    )

insert_1 :
    (x : ℤ) (t : Btrit)
    → IsByte x
    → (take 2 (five (insert x 1 t)) ≡ take 1 (five x) ++ (t ∷ [])) × IsByte (insert x 1 t)
unfolding insert extract
insert_1 x t h =
    let (a, b, bound, low) = set_1 (shifted x) (into_utrit t) (shifted_bound x h) (utrit_bound t) in
    let e = shifted-insert x (into_utrit t * 3) (shifted x / 3 % 3 * 3) h low bound in
    (
      rw (e, a, b, from_utrit-into_utrit t) refl,
      sub_ℕ-IsByte (shifted x) (into_utrit t * 3) (shifted x / 3 % 3 * 3) low bound,
    )

insert_2 :
    (x : ℤ) (t : Btrit)
    → IsByte x
    → (take 3 (five (insert x 2 t)) ≡ take 2 (five x) ++ (t ∷ [])) × IsByte (insert x 2 t)
unfolding insert extract
insert_2 x t h =
    let (a, b, c, bound, low) =
      set_2 (shifted x) (into_utrit t) (shifted_bound x h) (utrit_bound t) in
    let e = shifted-insert x (into_utrit t * 9) (shifted x / 9 % 3 * 9) h low bound in
    (
      rw (e, a, b, c, from_utrit-into_utrit t) refl,
      sub_ℕ-IsByte (shifted x) (into_utrit t * 9) (shifted x / 9 % 3 * 9) low bound,
    )

insert_3 :
    (x : ℤ) (t : Btrit)
    → IsByte x
    → (take 4 (five (insert x 3 t)) ≡ take 3 (five x) ++ (t ∷ [])) × IsByte (insert x 3 t)
unfolding insert extract
insert_3 x t h =
    let (a, b, c, d, bound, low) =
      set_3 (shifted x) (into_utrit t) (shifted_bound x h) (utrit_bound t) in
    let e = shifted-insert x (into_utrit t * 27) (shifted x / 27 % 3 * 27) h low bound in
    (
      rw (e, a, b, c, d, from_utrit-into_utrit t) refl,
      sub_ℕ-IsByte (shifted x) (into_utrit t * 27) (shifted x / 27 % 3 * 27) low bound,
    )

insert_4 :
    (x : ℤ) (t : Btrit)
    → IsByte x
    → (take 5 (five (insert x 4 t)) ≡ take 4 (five x) ++ (t ∷ [])) × IsByte (insert x 4 t)
unfolding insert extract
insert_4 x t h =
    let (a, b, c, d, e, bound, low) =
      set_4 (shifted x) (into_utrit t) (shifted_bound x h) (utrit_bound t) in
    let v = shifted-insert x (into_utrit t * 81) (shifted x / 81 % 3 * 81) h low bound in
    let a' : extract (insert x 4 t) 0 ≡ extract x 0 = rw (v) (ap from_utrit a) in
    let b' : extract (insert x 4 t) 1 ≡ extract x 1 = rw (v) (ap from_utrit b) in
    let c' : extract (insert x 4 t) 2 ≡ extract x 2 = rw (v) (ap from_utrit c) in
    let d' : extract (insert x 4 t) 3 ≡ extract x 3 = rw (v) (ap from_utrit d) in
    let e' : extract (insert x 4 t) 4 ≡ t = rw (v) (ap from_utrit e ∙ from_utrit-into_utrit t) in
    (
      cc (a', b', c', d', e'),
      sub_ℕ-IsByte (shifted x) (into_utrit t * 81) (shifted x / 81 % 3 * 81) low bound,
    )

place_cases :
    (elem : ℕ) → elem < 5 → (elem ≡ 0) ⊎ ((elem ≡ 1) ⊎ ((elem ≡ 2) ⊎ ((elem ≡ 3) ⊎ (elem ≡ 4))))
place_cases elem h = ground arith

-- A trit that is set in a byte is read back from its place, and those before it are kept.
pub take-insert :
    (x : ℤ) (elem : ℕ) (t : Btrit)
    → elem < 5
    → IsByte x
    → (take (suc elem) (five (insert x elem t)) ≡ take elem (five x) ++ (t ∷ []))
      × IsByte (insert x elem t)
take-insert x elem t h b = elim (place_cases elem h) [
  | inl e ↦ rw (e) (insert_0 x t b)
  | inr (inl e) ↦ rw (e) (insert_1 x t b)
  | inr (inr (inl e)) ↦ rw (e) (insert_2 x t b)
  | inr (inr (inr (inl e))) ↦ rw (e) (insert_3 x t b)
  | inr (inr (inr (inr e))) ↦ rw (e) (insert_4 x t b)
]
