-- ===== src/Common/Assoc.antt =====
-- Maps as association lists with numbers for keys: `HashMap` and `DashMap` where their order is not
-- used.
use Prim.Native.Nat.{ℕ}
use mathlib.Core.Path.{◌≡◌, refl, subst}
use mathlib.Core.Logic.{◌⊎◌, inl, inr}
use mathlib.Core.Option.{Option, none, some, some_inj}
use mathlib.Core.List.{List, [], ◌∷◌}
use mathlib.Core.Bool.{Bool, true, false}
use native.Mathlib.Omega.{arith}
use bee_p.Common.Lists.{All}
use bee_p.Common.Tests.{Bool-cases, ◌==◌, if◌then◌else◌}

abbrev pub Assoc {ℓ} : Type ℓ → Type ℓ
Assoc V = List (ℕ × V)

module _ {ℓ} {V : Type ℓ} where
  unfoldable pub lookup : ℕ → Assoc V → Option V
  lookup key [] = none
  lookup key ((found, value) ∷ entries) = if found == key then some value else lookup key entries

  -- A key that is there stays, as it does in a `HashMap`.
  unfoldable pub insert : ℕ → V → Assoc V → Assoc V
  insert key value [] = (key, value) ∷ []
  insert key value ((found, old) ∷ entries) =
      let inserted = insert key value entries in
      if found == key then (found, value) ∷ entries else (found, old) ∷ inserted

  unfoldable pub erase : ℕ → Assoc V → Assoc V
  erase key [] = []
  erase key ((found, value) ∷ entries) =
      let erased = erase key entries in if found == key then erased else (found, value) ∷ erased

  pub lookup-insert :
      (key other : ℕ) (value : V) (entries : Assoc V)
      → lookup other (insert key value entries)
        ≡ (if key == other then some value else lookup other entries)
  unfolding lookup insert
  lookup-insert key other value [] = refl
  lookup-insert key other value ((found, old) ∷ entries) =
      ground (arith, lookup-insert key other value entries)

  pub lookup-insert_cases :
      (k j : ℕ) (v w : V) (m : Assoc V)
      → lookup j (insert k v m) ≡ some w
      → ((k ≡ j) × (w ≡ v)) ⊎ (((k == j) ≡ false) × (lookup j m ≡ some w))
  lookup-insert_cases k j v w m h = ground (arith, lookup-insert k j v m)

  pub lookup-erase :
      (k j : ℕ) (m : Assoc V) → lookup j (erase k m) ≡ (if k == j then none else lookup j m)
  unfolding lookup erase
  lookup-erase k j [] = ground arith
  lookup-erase k j ((i, w) ∷ m) = ground (arith, lookup-erase k j m)

abbrev pub is_some {ℓ} : {A : Type ℓ} → Option A → Bool
is_some none = false
is_some (some a) = true

-- What holds of all entries holds of one that is found.
pub lookup-All {ℓ κ} :
    {V : Type ℓ} (P : ℕ → V → Type κ) (key : ℕ) (value : V) (entries : Assoc V)
    → All (λ (entry : ℕ × V). P entry.0 entry.1) entries
    → lookup key entries ≡ some value
    → P key value
unfolding lookup
lookup-All P key value [] all e = absurd (cc e)
lookup-All P key value ((found, old) ∷ entries) (p, all) e = elim (Bool-cases (found == key)) [
  | inl c ↦
      let same : found ≡ key = ground arith in
      let it : old ≡ value = some_inj.0 (rw (c) at e) in
      subst (λ k. P k value) same (subst (λ v. P found v) it p)
  | inr c ↦ lookup-All P key value entries all (rw (c) at e)
]
