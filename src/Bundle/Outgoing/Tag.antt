-- ===== src/Bundle/Outgoing/Tag.antt =====
-- The obsolete tags that bee-bundle/src/bundle/outgoing_bundle_builder.rs tries, as numbers.
use bee_p.Common.{ℕ, suc, ◌+◌, ◌*◌, ◌<◌, ◌≡◌, refl, ap, [], ◌∷◌, length, arith}
use bee_p.Ternary.{Btrit, neg_one, no_one, plus_one}
use bee_p.Bundle.Transaction.{Trits}
use bee_p.Bundle.Outgoing.{increment}

-- The trits as digits 0, 1 and 2, the lowest first.
abbrev digit : Btrit → ℕ
digit neg_one = 0
digit no_one = 1
digit plus_one = 2

abbrev pub tag_number : Trits → ℕ
tag_number [] = 0
tag_number (t ∷ ts) = digit t + 3 * tag_number ts

-- How many tags have this length.
abbrev pub tags_like : Trits → ℕ
tags_like [] = 1
tags_like (t ∷ ts) = 3 * tags_like ts

pub tag_number-bound : (ts : Trits) → tag_number ts < tags_like ts
tag_number-bound [] = omega arith
tag_number-bound (neg_one ∷ ts) = omega (arith, tag_number-bound ts)
tag_number-bound (no_one ∷ ts) = omega (arith, tag_number-bound ts)
tag_number-bound (plus_one ∷ ts) = omega (arith, tag_number-bound ts)

pub tags_like-length : (ts us : Trits) → length ts ≡ length us → tags_like ts ≡ tags_like us
tags_like-length [] [] e = refl
tags_like-length [] (u ∷ us) e = absurd (omega arith)
tags_like-length (t ∷ ts) [] e = absurd (omega arith)
tags_like-length (t ∷ ts) (u ∷ us) e = ap (λ n. 3 * n) (tags_like-length ts us (omega arith))

pub tag_number-injective :
    (ts us : Trits) → length ts ≡ length us → tag_number ts ≡ tag_number us → ts ≡ us
tag_number-injective [] [] l e = refl
tag_number-injective [] (u ∷ us) l e = absurd (omega arith)
tag_number-injective (t ∷ ts) [] l e = absurd (omega arith)
tag_number-injective (neg_one ∷ ts) (neg_one ∷ us) l e =
    ap (λ x. neg_one ∷ x) (tag_number-injective ts us (omega arith) (omega arith))
tag_number-injective (no_one ∷ ts) (no_one ∷ us) l e =
    ap (λ x. no_one ∷ x) (tag_number-injective ts us (omega arith) (omega arith))
tag_number-injective (plus_one ∷ ts) (plus_one ∷ us) l e =
    ap (λ x. plus_one ∷ x) (tag_number-injective ts us (omega arith) (omega arith))
tag_number-injective (neg_one ∷ ts) (no_one ∷ us) l e = absurd (omega arith)
tag_number-injective (neg_one ∷ ts) (plus_one ∷ us) l e = absurd (omega arith)
tag_number-injective (no_one ∷ ts) (neg_one ∷ us) l e = absurd (omega arith)
tag_number-injective (no_one ∷ ts) (plus_one ∷ us) l e = absurd (omega arith)
tag_number-injective (plus_one ∷ ts) (neg_one ∷ us) l e = absurd (omega arith)
tag_number-injective (plus_one ∷ ts) (no_one ∷ us) l e = absurd (omega arith)

pub length-increment : (ts : Trits) → length (increment ts) ≡ length ts
unfolding increment
length-increment [] = refl
length-increment (neg_one ∷ ts) = refl
length-increment (no_one ∷ ts) = refl
length-increment (plus_one ∷ ts) = ap suc (length-increment ts)

-- The next tag is one more, as long as there is one.
pub tag_number-increment :
    (ts : Trits) → tag_number ts + 1 < tags_like ts → tag_number (increment ts) ≡ tag_number ts + 1
unfolding increment
tag_number-increment [] h = absurd (omega arith)
tag_number-increment (neg_one ∷ ts) h = omega arith
tag_number-increment (no_one ∷ ts) h = omega arith
tag_number-increment (plus_one ∷ ts) h = omega (arith, tag_number-increment ts (omega (arith, h)))
