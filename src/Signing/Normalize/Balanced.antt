-- ===== src/Signing/Normalize/Balanced.antt =====
-- What the trytes of a normalized hash are.
use bee_p.Common.{
  ℕ, zero, suc, ◌+◌, ◌*◌, ◌≤◌, ◌<◌, ◌≡◌, ◌∙◌, refl, sym, ap, List, [], ◌∷◌, length, arith,
  Bool-cases, inl, inr, All, true, false,
}
use bee_p.Common.Int.{ℤ, pos, negsuc, pos_part, neg_part, ◌+ℤ◌, ltb_ℤ, sub_ℕ}
use bee_p.Ternary.T3b1.{IsTryte}
use bee_p.Signing.Normalize.{
  sum_of, lower, raise, lower_by, raise_by, min_tryte_value, max_tryte_value,
}

+ℤ_assoc : (a b c : ℤ) → (a +ℤ b) +ℤ c ≡ a +ℤ (b +ℤ c)
unfolding ◌+ℤ◌
+ℤ_assoc a b c = ground arith

+ℤ_swap : (a b c : ℤ) → (a +ℤ c) +ℤ b ≡ (a +ℤ b) +ℤ c
unfolding ◌+ℤ◌
+ℤ_swap a b c = ground arith

less-IsTryte : (x : ℤ) → IsTryte x → ltb_ℤ min_tryte_value x ≡ true → IsTryte (x +ℤ negsuc 0)
unfolding ◌+ℤ◌
less-IsTryte x t c = ground arith

more-IsTryte : (x : ℤ) → IsTryte x → ltb_ℤ x max_tryte_value ≡ true → IsTryte (x +ℤ pos 1)
unfolding ◌+ℤ◌
more-IsTryte x t c = ground arith

least_tail :
    (x s : ℤ) (n : ℕ)
    → IsTryte x
    → ltb_ℤ min_tryte_value x ≡ false
    → neg_part (x +ℤ s) < 13 * suc n + pos_part (x +ℤ s)
    → neg_part s < 13 * n + pos_part s
unfolding ◌+ℤ◌
least_tail x s n t c b = ground arith

most_tail :
    (x s : ℤ) (n : ℕ)
    → IsTryte x
    → ltb_ℤ x max_tryte_value ≡ false
    → pos_part (x +ℤ s) < 13 * suc n + neg_part (x +ℤ s)
    → pos_part s < 13 * n + neg_part s
unfolding ◌+ℤ◌
most_tail x s n t c b = ground arith

-- One tryte becomes less, unless all are the least.
lower_lem :
    (xs : List ℤ)
    → All IsTryte xs
    → neg_part (sum_of xs) < 13 * length xs + pos_part (sum_of xs)
    → (All IsTryte (lower xs))
      × (sum_of (lower xs) ≡ sum_of xs +ℤ negsuc 0)
      × (length (lower xs) ≡ length xs)
unfolding sum_of lower
lower_lem [] h b = absurd (omega arith)
lower_lem (x ∷ xs) (t, ts) b = elim (Bool-cases (ltb_ℤ min_tryte_value x)) [
  | inl c ↦ rw (c) ((less-IsTryte x t c, ts), +ℤ_swap x (sum_of xs) (negsuc 0), refl)
  | inr c ↦
      let (a, s, l) = lower_lem xs ts (least_tail x (sum_of xs) (length xs) t c b) in
      rw (c) ((t, a), ap (λ y. x +ℤ y) s ∙ sym (+ℤ_assoc x (sum_of xs) (negsuc 0)), ap suc l)
]

-- One tryte becomes more, unless all are the greatest.
raise_lem :
    (xs : List ℤ)
    → All IsTryte xs
    → pos_part (sum_of xs) < 13 * length xs + neg_part (sum_of xs)
    → (All IsTryte (raise xs))
      × (sum_of (raise xs) ≡ sum_of xs +ℤ pos 1)
      × (length (raise xs) ≡ length xs)
unfolding sum_of raise
raise_lem [] h b = absurd (omega arith)
raise_lem (x ∷ xs) (t, ts) b = elim (Bool-cases (ltb_ℤ x max_tryte_value)) [
  | inl c ↦ rw (c) ((more-IsTryte x t c, ts), +ℤ_swap x (sum_of xs) (pos 1), refl)
  | inr c ↦
      let (a, s, l) = raise_lem xs ts (most_tail x (sum_of xs) (length xs) t c b) in
      rw (c) ((t, a), ap (λ y. x +ℤ y) s ∙ sym (+ℤ_assoc x (sum_of xs) (pos 1)), ap suc l)
]

-- A sum of trytes that is not 0 takes at least one tryte.
sum_bound :
    (xs : List ℤ)
    → All IsTryte xs
    → (pos_part (sum_of xs) ≤ 13 * length xs) × (neg_part (sum_of xs) ≤ 13 * length xs)
unfolding sum_of ◌+ℤ◌
sum_bound [] h = (omega arith, omega arith)
sum_bound (x ∷ xs) (t, ts) = let ih = sum_bound xs ts in ground arith

one_less : (n : ℕ) → pos (suc n) +ℤ negsuc 0 ≡ pos n
unfolding ◌+ℤ◌
one_less n = ground arith

one_more : (n : ℕ) → sub_ℕ 0 (suc n) +ℤ pos 1 ≡ sub_ℕ 0 n
unfolding ◌+ℤ◌
one_more n = ground arith

pub lower_by_lem :
    (n : ℕ) (xs : List ℤ)
    → All IsTryte xs
    → sum_of xs ≡ pos n
    → (All IsTryte (lower_by n xs))
      × (sum_of (lower_by n xs) ≡ pos 0)
      × (length (lower_by n xs) ≡ length xs)
unfolding lower_by
lower_by_lem zero xs h e = (h, e, refl)
lower_by_lem (suc n) xs h e =
    let bound = sum_bound xs h in
    let (a, s, l) = lower_lem xs h (ground (arith, e)) in
    let (a', s', l') = lower_by_lem n (lower xs) a (s ∙ ap (λ y. y +ℤ negsuc 0) e ∙ one_less n) in
    (a', s', l' ∙ l)

pub raise_by_lem :
    (n : ℕ) (xs : List ℤ)
    → All IsTryte xs
    → sum_of xs ≡ sub_ℕ 0 n
    → (All IsTryte (raise_by n xs))
      × (sum_of (raise_by n xs) ≡ pos 0)
      × (length (raise_by n xs) ≡ length xs)
unfolding raise_by
raise_by_lem zero xs h e = (h, e, refl)
raise_by_lem (suc n) xs h e =
    let bound = sum_bound xs h in
    let (a, s, l) = raise_lem xs h (ground (arith, e)) in
    let (a', s', l') = raise_by_lem n (raise xs) a (s ∙ ap (λ y. y +ℤ pos 1) e ∙ one_more n) in
    (a', s', l' ∙ l)
