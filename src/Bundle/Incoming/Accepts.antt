-- ===== src/Bundle/Incoming/Accepts.antt =====
-- What `validate` of bee-bundle/src/bundle/incoming_bundle_builder.rs accepts.
use mathlib.Core.Path.{ap}
use bee_p.Common.{
  ℕ, ◌+◌, ◌-◌, ◌≤◌, ◌≡◌, ◌∙◌, refl, ◌⊎◌, ◌↔◌, true, none, some, List, [], ◌∷◌, length, Result, ok,
  err, arith, Option-cases, inl, inr, ◌>>=◌,
}
use bee_p.Common.Int.{ℤ, pos, nat_abs, ◌+ℤ◌, add_i64}
use bee_p.Bundle.Transaction.{Trits, Transaction, iota_supply, hash_eq, trits_eq}
use bee_p.Bundle.Builder.{abs_i64}
use bee_p.Bundle.Incoming.{
  Scheme, check_one, check_all, conclude, validate, validate_signatures, IncomingBundleBuilderError,
}

-- Values as `TransactionBuilder::build` lets them through where overflow is checked for.
abbrev pub HaveValues : List Transaction → Type 0
HaveValues [] = Unit
HaveValues (t ∷ ts) = (nat_abs t.value ≤ iota_supply) × HaveValues ts

-- What holds of the transaction at an index of a bundle.
abbrev pub Fits : Trits → Trits → ℕ → ℕ → Transaction → Type 0
Fits bundle_hash first_branch last_index index t =
    (t.index ≡ index)
    × (t.last_index ≡ last_index)
    × ((1 ≤ index) ⊎ (trits_eq bundle_hash t.bundle ≡ true))
    × ((index ≡ 0) ⊎ (hash_eq t.branch first_branch ≡ true))

check_one_iff :
    (s : Scheme) (bundle_hash first_branch : Trits) (last_index index : ℕ) (sum sum' : ℤ)
    (t : Transaction)
    → nat_abs sum ≤ iota_supply
    → nat_abs t.value ≤ iota_supply
    → (check_one s bundle_hash first_branch last_index index sum t ≡ some (ok sum')) ↔ (
        Fits bundle_hash first_branch last_index index t
        × (sum' ≡ sum +ℤ t.value)
        × (nat_abs (sum +ℤ t.value) ≤ iota_supply))
unfolding check_one abs_i64 add_i64 ◌+ℤ◌
check_one_iff s bundle_hash first_branch last_index index sum sum' t h k =
    (λ e. ground arith, λ f. ground arith)

-- The transactions of a bundle from an index on, and the sum of the values before it: the sum of all
-- is 0, and no partial sum exceeds the supply.
abbrev pub AllFit : Trits → Trits → ℕ → ℕ → ℤ → List Transaction → Type 0
AllFit bundle_hash first_branch last_index index sum [] = sum ≡ pos 0
AllFit bundle_hash first_branch last_index index sum (t ∷ ts) =
    Fits bundle_hash first_branch last_index index t
    × (nat_abs (sum +ℤ t.value) ≤ iota_supply)
    × AllFit bundle_hash first_branch last_index (index + 1) (sum +ℤ t.value) ts

check_all-ok :
    (s : Scheme) (bundle_hash first_branch : Trits) (last_index index : ℕ) (sum sum' : ℤ)
    (t : Transaction) (ts : List Transaction)
    → check_one s bundle_hash first_branch last_index index sum t ≡ some (ok sum')
    → check_all s bundle_hash first_branch last_index index sum (t ∷ ts)
      ≡ check_all s bundle_hash first_branch last_index (index + 1) sum' ts
unfolding check_all
check_all-ok s bundle_hash first_branch last_index index sum sum' t ts e = cc e

check_all_iff :
    (s : Scheme) (bundle_hash first_branch : Trits) (last_index index : ℕ) (sum : ℤ)
    (ts : List Transaction)
    → nat_abs sum ≤ iota_supply
    → HaveValues ts
    → (check_all s bundle_hash first_branch last_index index sum ts ≡ some (ok (pos 0)))
      ↔ AllFit bundle_hash first_branch last_index index sum ts
unfolding check_all
check_all_iff s bundle_hash first_branch last_index index sum [] h v =
    (λ e. ground arith, λ f. ap (λ x. some (ok x)) f)
check_all_iff s bundle_hash first_branch last_index index sum (t ∷ ts) h (v, vs) = (
  λ e.
      elim (check_one s bundle_hash first_branch last_index index sum t)
          as (λ r.
            check_one s bundle_hash first_branch last_index index sum t ≡ r
            → AllFit bundle_hash first_branch last_index index sum (t ∷ ts)) [
              | none ↦ λ f. absurd (ground arith)
              | some (err error) ↦ λ f. absurd (ground arith)
              | some (ok sum') ↦ λ f.
                  let (fits, same, bound) =
                    (check_one_iff s bundle_hash first_branch last_index index sum sum' t h v).0
                      f in
                  let rest : check_all s bundle_hash first_branch last_index (index + 1)
                        (sum +ℤ t.value) ts
                      ≡ some (ok (pos 0)) =
                    ground arith in
                  (
                    fits,
                    bound,
                    (check_all_iff s bundle_hash first_branch last_index (index + 1)
                          (sum +ℤ t.value) ts bound vs).0
                        rest,
                  )
            ]
        refl,
  λ (fits, bound, all).
      let one =
        (check_one_iff s bundle_hash first_branch last_index index sum (sum +ℤ t.value) t h v).1
          (fits, refl, bound) in
      check_all-ok s bundle_hash first_branch last_index index sum (sum +ℤ t.value) t ts one
      ∙ ((check_all_iff s bundle_hash first_branch last_index (index + 1) (sum +ℤ t.value) ts bound
            vs).1
          all),
)

-- What a bundle must be, given the hash that the sponge gives.
abbrev pub IsBundle : Scheme → Trits → List Transaction → Type 0
IsBundle s bundle_hash [] = ⊥
IsBundle s bundle_hash (t ∷ ts) =
    AllFit bundle_hash t.branch (length ts) 0 (pos 0) (t ∷ ts) × (s.verify ≡ ok true)

conclude_iff :
    (s : Scheme) (ts ts' : List Transaction) (r : Result IncomingBundleBuilderError ℤ)
    → (conclude s ts r ≡ ok ts') ↔ ((r ≡ ok (pos 0)) × (s.verify ≡ ok true) × (ts' ≡ ts))
unfolding conclude validate_signatures
conclude_iff s ts ts' (ok sum) = (λ e. ground arith, λ f. ground arith)
conclude_iff s ts ts' (err error) = (λ e. ground arith, λ f. ground arith)

validate_cons :
    (s : Scheme) (bundle_hash : Trits) (t : Transaction) (ts : List Transaction)
    → s.squeeze ≡ some bundle_hash
    → validate s (t ∷ ts) ≡ (do
      checked ← check_all s bundle_hash t.branch (length ts) 0 (pos 0) (t ∷ ts)
      some (conclude s (t ∷ ts) checked))
unfolding validate
validate_cons s bundle_hash t ts h =
    let last : length (t ∷ ts) - 1 ≡ length ts = omega arith in rw (h, last) refl

-- Transactions whose values are at most the supply are accepted as a bundle exactly when there is
-- one, each has its place as its index and the place of the last as its last index, the values sum
-- up to 0 with no partial sum beyond the supply, the first has the calculated bundle hash, all have
-- the branch of the first, and the signature verifies; they come back unchanged.
pub validate_iff :
    (s : Scheme) (bundle_hash : Trits) (ts ts' : List Transaction)
    → s.squeeze ≡ some bundle_hash
    → HaveValues ts
    → (validate s ts ≡ some (ok ts')) ↔ (IsBundle s bundle_hash ts × (ts' ≡ ts))
unfolding validate
validate_iff s bundle_hash [] ts' h v = (λ e. ground arith, λ (f, _). elim f [ ])
validate_iff s bundle_hash (t ∷ ts) ts' h v =
    let cons = validate_cons s bundle_hash t ts h in
    let all = check_all_iff s bundle_hash t.branch (length ts) 0 (pos 0) (t ∷ ts) (omega arith) v in
    (
      λ e. elim (Option-cases (check_all s bundle_hash t.branch (length ts) 0 (pos 0) (t ∷ ts))) [
        | inl f ↦ absurd (ground arith)
        | inr (r, f) ↦
            let made : conclude s (t ∷ ts) r ≡ ok ts' = ground arith in
            let (zero_sum, verified, same) = (conclude_iff s (t ∷ ts) ts' r).0 made in
            ((all.0 (f ∙ ap some zero_sum), verified), same)
      ],
      λ ((fit, verified), same).
          let made = (conclude_iff s (t ∷ ts) ts' (ok (pos 0))).1 (refl, verified, same) in
          let checked = all.1 fit in ground arith,
    )
