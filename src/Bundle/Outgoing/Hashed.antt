-- ===== src/Bundle/Outgoing/Hashed.antt =====
-- What `calculate_bundle_hash` of bee-bundle/src/bundle/outgoing_bundle_builder.rs asks of a hash.
use mathlib.Core.Path.{subst}
use bee_p.Common.{
  ◌≡◌, ◌≢◌, ◌↔◌, ◌∙◌, refl, ap, true, false, some, List, [], ◌∷◌, arith, Option-cases, inl, inr,
}
use bee_p.Ternary.{Btrit, plus_one, same_trit}
use bee_p.Signing.Normalize.{normalize_hash}
use bee_p.Bundle.Transaction.{Trits}
use bee_p.Bundle.Outgoing.{Settings, Builders, essences, attempt, has_m_bug}

-- None of the chunks of three trits is an M; a last one that is shorter has a trit that is not 1.
abbrev pub HasNoM : Trits → Type 0
HasNoM (a ∷ b ∷ c ∷ trits) = (a ≡ plus_one → b ≡ plus_one → c ≢ plus_one) × HasNoM trits
HasNoM (a ∷ b ∷ []) = a ≡ plus_one → b ≢ plus_one
HasNoM (a ∷ []) = a ≢ plus_one
HasNoM [] = Unit {0}

-- The hash that the sponge gives for the essences of the builders, and its normalized one.
abbrev pub HashesTo : Settings → Builders → Trits → Trits → Type 0
HashesTo s bs hash normalized =
    (absorbed : List Trits) × (essences bs ≡ some absorbed)
    × (s.squeeze absorbed ≡ some hash)
    × (normalize_hash hash ≡ some normalized)

same_trit_iff : (a b : Btrit) → (same_trit a b ≡ true) ↔ (a ≡ b)
same_trit_iff a b = (λ e. ground arith, λ e. ground arith)

pub has_m_bug-HasNoM : (trits : Trits) → has_m_bug trits ≡ false → HasNoM trits
unfolding has_m_bug
has_m_bug-HasNoM [] e = tt
has_m_bug-HasNoM (a ∷ []) e = λ p. absurd (ground (arith, e, (same_trit_iff a plus_one).1 p))
has_m_bug-HasNoM (a ∷ b ∷ []) e = λ p q.
    absurd (ground (arith, e, (same_trit_iff a plus_one).1 p, (same_trit_iff b plus_one).1 q))
has_m_bug-HasNoM (a ∷ b ∷ c ∷ trits) e = (
  λ p q r. absurd (
      ground (
        arith,
        e,
        (same_trit_iff a plus_one).1 p,
        (same_trit_iff b plus_one).1 q,
        (same_trit_iff c plus_one).1 r,
      )),
  has_m_bug-HasNoM trits (ground (arith, e)),
)

pub HasNoM-has_m_bug : (trits : Trits) → HasNoM trits → has_m_bug trits ≡ false
unfolding has_m_bug
HasNoM-has_m_bug [] h = refl
HasNoM-has_m_bug (a ∷ []) h = ground (arith, h, (same_trit_iff a plus_one).0)
HasNoM-has_m_bug (a ∷ b ∷ []) h =
    ground (arith, h, (same_trit_iff a plus_one).0, (same_trit_iff b plus_one).0)
HasNoM-has_m_bug (a ∷ b ∷ c ∷ trits) (h, more) = ground (
  arith,
  h,
  HasNoM-has_m_bug trits more,
  (same_trit_iff a plus_one).0,
  (same_trit_iff b plus_one).0,
  (same_trit_iff c plus_one).0,
)

pub attempt-HashesTo :
    (s : Settings) (bs : Builders) (hash : Trits)
    → attempt s bs ≡ some (hash, false)
    → (normalized : Trits) × HashesTo s bs hash normalized × HasNoM normalized
unfolding attempt
attempt-HashesTo s bs hash e = elim (Option-cases (essences bs)) [
  | inl f ↦ absurd (ground (arith, f, e))
  | inr (absorbed, f) ↦ elim (Option-cases (s.squeeze absorbed)) [
    | inl g ↦ absurd (ground (arith, f, g, e))
    | inr (squeezed, g) ↦ elim (Option-cases (normalize_hash squeezed)) [
      | inl i ↦ absurd (ground (arith, f, g, i, e))
      | inr (normalized, i) ↦
          let both : (squeezed ≡ hash) × (has_m_bug normalized ≡ false) =
            ground (arith, f, g, i, e) in
          (
            normalized,
            (
              absorbed,
              f,
              g ∙ ap some (both.0),
              subst (λ x. normalize_hash x ≡ some normalized) (both.0) i,
            ),
            has_m_bug-HasNoM normalized (both.1),
          )
    ]
  ]
]

pub HashesTo-attempt :
    (s : Settings) (bs : Builders) (hash normalized : Trits)
    → HashesTo s bs hash normalized
    → attempt s bs ≡ some (hash, has_m_bug normalized)
unfolding attempt
HashesTo-attempt s bs hash normalized (absorbed, e, f, g) = rw (e, f, g) refl
