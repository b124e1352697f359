-- ===== src/Crypto/Tests.antt =====
-- The theorems about the sponge at concrete inputs.
use bee_p.Common.{◌≡◌, refl, some, List, ◌∷◌, [], length}
use bee_p.Ternary.{Btrit, plus_one, neg_one, zeros}
use bee_p.Crypto.{CurlP, new, hash_len, state_len, digest, transform, apply_substitution_box}
use bee_p.Crypto.Reference.{reference, apply_substitution_box-reference}
use bee_p.Crypto.Rounds.{IsSponge, iterate, digest_answers, transform_even}

apply_substitution_box-reference_example :
    (out : List Btrit) × (apply_substitution_box (zeros state_len) ≡ some out)
    × (reference state_len 0 (zeros state_len) ≡ some out)
    × (length out ≡ state_len)
unfolding zeros
apply_substitution_box-reference_example = apply_substitution_box-reference (zeros state_len) refl

new-IsSponge : IsSponge (new 81)
unfolding zeros
new-IsSponge = record { state_length = refl; work_length = refl; odd = refl }

digest_answers_example :
    (c' : CurlP) × (hash : List Btrit) × (digest (plus_one ∷ neg_one ∷ []) (new 81)
      ≡ some (c', hash))
    × (length hash ≡ hash_len)
    × (c'.state ≡ zeros state_len)
    × (c'.rounds ≡ 81)
    × IsSponge c'
digest_answers_example = digest_answers (plus_one ∷ neg_one ∷ []) (new 81) new-IsSponge

transform_even_example :
    (c' : CurlP) × (transform (new 2) ≡ some c') × (iterate 1 (zeros state_len) ≡ some c'.state)
unfolding zeros
transform_even_example = transform_even (new 2) 1 refl refl refl refl
