-- ===== src/Common/Set.antt =====
-- A `HashSet` of numbers: the list of its elements, in the order in which they came.
use Prim.Native.Nat.{ℕ}
use mathlib.Core.Path.{◌≡◌, refl}
use mathlib.Core.List.{List, [], ◌∷◌, ◌++◌}
use mathlib.Core.Bool.{Bool, true, false}
use native.Mathlib.Omega.{arith}
use mathlib.Core.Logic.{inl, inr}
use bee_p.Common.Tests.{Bool-cases, ◌==◌, if◌then◌else◌}

-- `HashSet::contains`
unfoldable pub has : ℕ → List ℕ → Bool
has x [] = false
has x (y ∷ ys) = if x == y then true else has x ys

-- `HashSet::remove`
unfoldable pub remove : ℕ → List ℕ → List ℕ
remove x [] = []
remove x (y ∷ ys) = let rest = remove x ys in if x == y then rest else y ∷ rest

-- `HashSet::insert`
unfoldable pub add : ℕ → List ℕ → List ℕ
add x ys = if has x ys then ys else ys ++ (x ∷ [])

pub has-append : (x : ℕ) (xs ys : List ℕ) → has x (xs ++ ys) ≡ (if has x xs then true else has x ys)
unfolding has
has-append x [] ys = refl
has-append x (z ∷ xs) ys = ground (arith, has-append x xs ys)

pub has_cons : (x y : ℕ) (ys : List ℕ) → has x (y ∷ ys) ≡ (if x == y then true else has x ys)
unfolding has
has_cons x y ys = refl

pub has-add : (x y : ℕ) (ys : List ℕ) → has x (add y ys) ≡ (if x == y then true else has x ys)
unfolding has add
has-add x y ys = ground (arith, has-append x ys (y ∷ []))

-- No element is there twice.
abbrev pub HasOnce : List ℕ → Type 0
HasOnce [] = Unit
HasOnce (x ∷ xs) = (has x xs ≡ false) × HasOnce xs

pub HasOnce-append :
    (x : ℕ) (xs : List ℕ) → HasOnce xs → has x xs ≡ false → HasOnce (xs ++ (x ∷ []))
unfolding has
HasOnce-append x [] o h = (refl, tt)
HasOnce-append x (y ∷ ys) (n, o) h =
    (ground (arith, has-append y ys (x ∷ [])), HasOnce-append x ys o (ground arith))

pub HasOnce-add : (x : ℕ) (xs : List ℕ) → HasOnce xs → HasOnce (add x xs)
unfolding add
HasOnce-add x xs h = elim (Bool-cases (has x xs)) [
  | inl c ↦ rw (c) h
  | inr c ↦ rw (c) (HasOnce-append x xs h c)
]
