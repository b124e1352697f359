-- ===== src/Bundle/Outgoing/Sealed.antt =====
-- What `seal` of bee-bundle/src/bundle/outgoing_bundle_builder.rs leaves in the builders.
use mathlib.Core.Path.{subst}
use bee_p.Common.{
  ℕ, zero, suc, ◌+◌, ◌-◌, ◌≤◌, ◌≡◌, ◌∙◌, refl, sym, ap, Bool, true, false, none, some, [], ◌∷◌,
  length, ok, err, arith, Option-cases, inl, inr, All,
}
use bee_p.Common.Int.{ℤ, pos, nat_abs, ◌+ℤ◌, add_i64}
use bee_p.Bundle.Transaction.{Trits, iota_supply}
use bee_p.Bundle.Builder.{
  TransactionBuilder, abs_i64, with_index, with_last_index, with_obsolete_tag,
}
use bee_p.Bundle.Builder.Essence.{essence}
use bee_p.Common.Assoc.{is_some}
use bee_p.Bundle.Outgoing.Hashed.{HasNoM, HashesTo, attempt-HashesTo}
use bee_p.Bundle.Outgoing.{
  Settings, Builders, Answer, and_then, required, add_value, seal_all, seal_hash, seal, find_hash,
  attempt, increment, calculate_bundle_hash, set_bundle, essences,
}

-- A value that is given is at most the supply.
abbrev pub HasValue : TransactionBuilder → Type 0
HasValue b = (value : ℤ) → b.value ≡ some value → nat_abs value ≤ iota_supply

-- The fields that are asked for besides the value are given.
abbrev pub HasFields : TransactionBuilder → Type 0
HasFields b = (is_some b.payload ≡ true) × (is_some b.address ≡ true) × (is_some b.tag ≡ true)

-- The builders of a bundle from an index on, with the sum of the values before it and that of all.
abbrev pub ArePlaced : ℕ → ℕ → ℤ → Builders → ℤ → Type 0
ArePlaced last_index index sum [] total = sum ≡ total
ArePlaced last_index index sum (b ∷ bs) total =
    (value : ℤ) × (b.value ≡ some value)
    × HasFields b
    × (b.index ≡ some index)
    × (b.last_index ≡ some last_index)
    × (nat_abs (sum +ℤ value) ≤ iota_supply)
    × ArePlaced last_index (index + 1) (sum +ℤ value) bs total

add_value_lem :
    (checks : Bool) (sum value sum' : ℤ)
    → nat_abs sum ≤ iota_supply
    → nat_abs value ≤ iota_supply
    → add_value checks sum value ≡ some (ok sum')
    → (sum' ≡ sum +ℤ value) × (nat_abs (sum +ℤ value) ≤ iota_supply)
unfolding add_value abs_i64 add_i64 ◌+ℤ◌
add_value_lem checks sum value sum' h k e = ground arith

required_lem :
    (b : TransactionBuilder) (value : ℤ)
    → required b ≡ ok value
    → (b.value ≡ some value) × HasFields b
unfolding required
required_lem b value e = (ground arith, (ground arith, ground arith, ground arith))

pub and_then_lem :
    {A B : Type 0} (r : Answer A) (f : A → Answer B) (c : B)
    → and_then r f ≡ some (ok c)
    → (a : A) × (r ≡ some (ok a)) × (f a ≡ some (ok c))
unfolding and_then
and_then_lem none f c e = absurd (ground arith)
and_then_lem (some (err error)) f c e = absurd (ground arith)
and_then_lem (some (ok a)) f c e = (a, refl, e)

seal_all_cons :
    (checks : Bool) (last_index index : ℕ) (sum : ℤ) (b : TransactionBuilder) (bs sealed : Builders)
    (total : ℤ)
    → seal_all checks last_index index sum (b ∷ bs) ≡ some (ok (sealed, total))
    → (value : ℤ) × (sum' : ℤ) × (rest : Builders) × (required b ≡ ok value)
      × (add_value checks sum value ≡ some (ok sum'))
      × (seal_all checks last_index (index + 1) sum' bs ≡ some (ok (rest, total)))
      × (sealed ≡ with_last_index last_index (with_index index b) ∷ rest)
unfolding seal_all
seal_all_cons checks last_index index sum b bs sealed total e =
    let (value, r, e1) = and_then_lem (some (required b)) _ (sealed, total) e in
    let (sum', v, e2) = and_then_lem (add_value checks sum value) _ (sealed, total) e1 in
    let ((rest, all), w, e3) =
      and_then_lem (seal_all checks last_index (index + 1) sum' bs) _ (sealed, total) e2 in
    (value, sum', rest, ground arith, v, ground arith, ground arith)

seal_all-ArePlaced :
    (checks : Bool) (last_index index : ℕ) (sum : ℤ) (bs sealed : Builders) (total : ℤ)
    → nat_abs sum ≤ iota_supply
    → All HasValue bs
    → seal_all checks last_index index sum bs ≡ some (ok (sealed, total))
    → ArePlaced last_index index sum sealed total × (length sealed ≡ length bs)
unfolding seal_all
seal_all-ArePlaced checks last_index index sum [] sealed total h v e =
    let both : (sealed ≡ []) × (sum ≡ total) = ground arith in rw (both.0) (both.1, refl)
seal_all-ArePlaced checks last_index index sum (b ∷ bs) sealed total h (v, vs) e =
    let (value, sum', rest, r, a, next, same) =
      seal_all_cons checks last_index index sum b bs sealed total e in
    let (given, fields) = required_lem b value r in
    let (exact, bound) = add_value_lem checks sum value sum' h (v value given) a in
    let (placed, size) =
      seal_all-ArePlaced checks last_index (index + 1) (sum +ℤ value) bs rest total bound vs (
        subst (λ x. seal_all checks last_index (index + 1) x bs ≡ some (ok (rest, total))) exact
          next) in
    rw (same) ((value, given, fields, refl, refl, bound, placed), ap suc size)

-- The loop ends with a first builder that has another obsolete tag, and with a hash without the bug.
find_hash_lem :
    (s : Settings) (fuel : ℕ) (tag : Trits) (first : TransactionBuilder) (rest : Builders)
    (hash : Trits) (found : Builders)
    → HasFields first
    → find_hash s fuel tag first rest ≡ some (hash, found)
    → (b : TransactionBuilder) × (found ≡ b ∷ rest)
      × (b.value ≡ first.value)
      × (b.index ≡ first.index)
      × (b.last_index ≡ first.last_index)
      × HasFields b
      × (attempt s found ≡ some (hash, false))
unfolding find_hash
find_hash_lem s zero tag first rest hash found k e = absurd (ground arith)
find_hash_lem s (suc fuel) tag first rest hash found k e =
    elim (Option-cases (attempt s (first ∷ rest))) [
      | inl f ↦ absurd (ground arith)
      | inr ((h, true), f) ↦
          find_hash_lem s fuel (increment tag) (with_obsolete_tag (increment tag) first) rest hash
            found k (ground arith)
      | inr ((h, false), f) ↦
          let same : (hash ≡ h) × (found ≡ first ∷ rest) = ground arith in
          (first, same.1, refl, refl, refl, k, rw (same.0, same.1) f)
    ]

-- The bundle hash is no part of an essence.
essences-set_bundle : (hash : Trits) (bs : Builders) → essences (set_bundle hash bs) ≡ essences bs
unfolding essences set_bundle essence
essences-set_bundle hash [] = refl
essences-set_bundle hash (b ∷ bs) = rw (essences-set_bundle hash bs) refl

attempt-set_bundle :
    (s : Settings) (hash : Trits) (bs : Builders) → attempt s (set_bundle hash bs) ≡ attempt s bs
unfolding attempt
attempt-set_bundle s hash bs = rw (essences-set_bundle hash bs) refl

set_bundle-ArePlaced :
    (hash : Trits) (last_index index : ℕ) (sum : ℤ) (bs : Builders) (total : ℤ)
    → ArePlaced last_index index sum bs total
    → ArePlaced last_index index sum (set_bundle hash bs) total
unfolding set_bundle
set_bundle-ArePlaced hash last_index index sum [] total p = p
set_bundle-ArePlaced hash last_index index sum (b ∷ bs) total (value, v, k, i, l, h, p) = (
  value,
  v,
  k,
  i,
  l,
  h,
  set_bundle-ArePlaced hash last_index (index + 1) (sum +ℤ value) bs total p,
)

abbrev pub HasBundle : Trits → TransactionBuilder → Type 0
HasBundle hash b = b.bundle ≡ some hash

set_bundle-HasBundle : (hash : Trits) (bs : Builders) → All (HasBundle hash) (set_bundle hash bs)
unfolding set_bundle
set_bundle-HasBundle hash [] = tt
set_bundle-HasBundle hash (b ∷ bs) = (refl, set_bundle-HasBundle hash bs)

length-set_bundle : (hash : Trits) (bs : Builders) → length (set_bundle hash bs) ≡ length bs
unfolding set_bundle
length-set_bundle hash [] = refl
length-set_bundle hash (b ∷ bs) = ap suc (length-set_bundle hash bs)

-- A sealed bundle: the builders have their places and the sum 0, and the hash of the bundle, which is
-- that of their essences, and whose normalization has no M.
abbrev pub IsSealed : Settings → Builders → Trits → Type 0
IsSealed s sealed hash =
    ArePlaced (length sealed - 1) 0 (pos 0) sealed (pos 0)
    × All (HasBundle hash) sealed
    × ((normalized : Trits) × HashesTo s sealed hash normalized × HasNoM normalized)

calculate_bundle_hash_lem :
    (s : Settings) (fuel last_index : ℕ) (bs sealed : Builders)
    → calculate_bundle_hash s fuel bs ≡ some (ok sealed)
    → ArePlaced last_index 0 (pos 0) bs (pos 0)
    → (hash : Trits) × (length sealed ≡ length bs)
      × ArePlaced last_index 0 (pos 0) sealed (pos 0)
      × All (HasBundle hash) sealed
      × (attempt s sealed ≡ some (hash, false))
unfolding calculate_bundle_hash
calculate_bundle_hash_lem s fuel last_index [] sealed e p = absurd (ground arith)
calculate_bundle_hash_lem s fuel last_index (first ∷ rest) sealed e (value, v, k, i, l, h, p) =
    elim (Option-cases first.obsolete_tag) [
      | inl f ↦ absurd (ground arith)
      | inr (tag, f) ↦ elim (Option-cases (find_hash s fuel tag first rest)) [
        | inl g ↦ absurd (ground arith)
        | inr ((hash, found), g) ↦
            let same : sealed ≡ set_bundle hash found = ground arith in
            let (b, shape, bv, bi, bl, fields, good) =
              find_hash_lem s fuel tag first rest hash found k g in
            let placed : ArePlaced last_index 0 (pos 0) (b ∷ rest) (pos 0) =
              (value, bv ∙ v, fields, bi ∙ i, bl ∙ l, h, p) in
            (
              hash,
              rw (same, shape) (length-set_bundle hash (b ∷ rest)),
              rw (same, shape)
                  (set_bundle-ArePlaced hash last_index 0 (pos 0) (b ∷ rest) (pos 0) placed),
              rw (same) (set_bundle-HasBundle hash found),
              rw (same) (attempt-set_bundle s hash found ∙ good),
            )
      ]
    ]

seal_hash_lem :
    (s : Settings) (fuel : ℕ) (bs sealed : Builders) (sum : ℤ)
    → seal_hash s fuel bs sum ≡ some (ok sealed)
    → (sum ≡ pos 0) × (calculate_bundle_hash s fuel bs ≡ some (ok sealed))
unfolding seal_hash
seal_hash_lem s fuel bs sealed sum e = ground arith

-- When values that are at most the supply are given, `seal` leaves the builders of a bundle as they
-- must be: each has a payload, an address and a tag, and its place and the last place as its indices, the values sum up to 0
-- with no partial sum beyond the supply, and all have the hash that the sponge gives for the essences that they have
-- then. No chunk of three trits of the normalized hash is an M.
pub seal-IsSealed :
    (s : Settings) (fuel : ℕ) (bs sealed : Builders)
    → All HasValue bs
    → seal s fuel bs ≡ some (ok sealed)
    → (hash : Trits) × IsSealed s sealed hash
unfolding seal
seal-IsSealed s fuel [] sealed v e = absurd (ground arith)
seal-IsSealed s fuel (b ∷ bs) sealed v e =
    let last = length (b ∷ bs) - 1 in
    let ((placed, sum), r, e1) =
      and_then_lem (seal_all s.overflow_checks last 0 (pos 0) (b ∷ bs)) _ sealed e in
    let (zero_sum, made) = seal_hash_lem s fuel placed sealed sum e1 in
    let (are_placed, size) =
      seal_all-ArePlaced s.overflow_checks last 0 (pos 0) (b ∷ bs) placed sum (omega arith) v r in
    let (hash, size', p, all, good) =
      calculate_bundle_hash_lem s fuel last placed sealed made
        (subst (λ x. ArePlaced last 0 (pos 0) placed x) zero_sum are_placed) in
    (
      hash,
      (
        subst (λ n. ArePlaced (n - 1) 0 (pos 0) sealed (pos 0)) (sym (size' ∙ size)) p,
        all,
        attempt-HashesTo s sealed hash good,
      ),
    )
