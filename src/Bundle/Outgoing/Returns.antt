-- ===== src/Bundle/Outgoing/Returns.antt =====
-- When `seal` of bee-bundle/src/bundle/outgoing_bundle_builder.rs gives a bundle.
use bee_p.Bundle.Outgoing.Sealed.{HasFields}
use bee_p.Bundle.Outgoing.Hashed.{HasNoM, HashesTo}
use bee_p.Bundle.Outgoing.Tag.{tag_number}
use bee_p.Common.{ℕ, ◌+◌, ◌≤◌, ◌<◌, ◌≡◌, some, [], ◌∷◌, length}
use bee_p.Common.Int.{ℤ, pos, nat_abs, ◌+ℤ◌}
use bee_p.Bundle.Transaction.{Trits, iota_supply}
use bee_p.Bundle.Builder.{TransactionBuilder, with_index, with_last_index, with_obsolete_tag}
use bee_p.Bundle.Outgoing.{Settings, Builders}

-- The builders with their places.
abbrev pub place_all : ℕ → ℕ → Builders → Builders
place_all last_index index [] = []
place_all last_index index (b ∷ bs) =
    with_last_index last_index (with_index index b) ∷ place_all last_index (index + 1) bs

-- The fields that are asked for are there, and the values sum up to 0 with no partial sum beyond the
-- supply.
abbrev pub CanSeal : ℤ → Builders → Type 0
CanSeal sum [] = sum ≡ pos 0
CanSeal sum (b ∷ bs) =
    (value : ℤ) × (b.value ≡ some value)
    × HasFields b
    × (nat_abs value ≤ iota_supply)
    × (nat_abs (sum +ℤ value) ≤ iota_supply)
    × CanSeal (sum +ℤ value) bs

-- With each obsolete tag whose number is one of the k from the first on, the normalized hash has an M.
abbrev pub Misses : Settings → TransactionBuilder → Builders → Trits → ℕ → Type 0
Misses s first rest tag k =
    (tried : Trits)
    → length tried ≡ length tag
    → tag_number tag ≤ tag_number tried
    → tag_number tried < tag_number tag + k
    → (hash : Trits) × (normalized : Trits) × HashesTo s (with_obsolete_tag tried first ∷ rest) hash
        normalized
      × (HasNoM normalized → ⊥)
