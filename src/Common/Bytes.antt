-- ===== src/Common/Bytes.antt =====
-- Byte buffers: the operations on slices that the message code uses, with their panics, and the
-- big-endian words of the standard library.
use Prim.Native.Nat.{ℕ, zero, suc, ◌+◌, ◌-◌, ◌*◌, ◌/◌, ◌%◌, ◌^◌, ◌≤◌, ◌<◌}
use mathlib.Core.Path.{◌≡◌, refl, sym, ap, ◌∙◌}
use mathlib.Core.Option.{Option, none, some}
use mathlib.Core.List.{List, [], ◌∷◌, ◌++◌, append-nil}
use native.Mathlib.Nat.{pow-suc}
use native.Mathlib.Omega.{arith}
use bee_p.Common.Tests.{leb, ◌==◌, if◌then◌else◌}
use bee_p.Common.Lists.{
  length, take, drop, All, All-left, All-right, length-append, take-append-drop, length-take,
  length-drop, All-append, take-append, drop-append,
}

abbrev pub IsByte : ℕ → Type 0
IsByte b = b < 256

abbrev pub AreBytes : List ℕ → Type 0
AreBytes xs = All IsByte xs

-- `xs.split_at(n)` and `xs.split_at_mut(n)`: a panic past the end.
unfoldable pub split_at : ℕ → List ℕ → Option (List ℕ × List ℕ)
split_at n xs = if leb n (length xs) then some (take n xs, drop n xs) else none

-- `dst.copy_from_slice(src)`: the new contents of `dst`, and a panic where the lengths differ.
unfoldable pub copy_from_slice : List ℕ → List ℕ → Option (List ℕ)
copy_from_slice dst src = if length dst == length src then some src else none

-- `n.to_be_bytes()` of a word of `w` bytes.
unfoldable pub to_be_bytes : ℕ → ℕ → List ℕ
to_be_bytes zero n = []
to_be_bytes (suc w) n = to_be_bytes w (n / 256) ++ (n % 256 ∷ [])

unfoldable pub be_value : ℕ → List ℕ → ℕ
be_value acc [] = acc
be_value acc (x ∷ xs) = be_value (acc * 256 + x) xs

-- `from_be_bytes(xs.try_into().unwrap())` for a word of `w` bytes.
unfoldable pub from_be_bytes : ℕ → List ℕ → Option ℕ
from_be_bytes w xs = if length xs == w then some (be_value 0 xs) else none

pub length-to_be_bytes : (w n : ℕ) → length (to_be_bytes w n) ≡ w
unfolding to_be_bytes
length-to_be_bytes zero n = refl
length-to_be_bytes (suc w) n =
    omega (
      arith,
      length-append (to_be_bytes w (n / 256)) (n % 256 ∷ []),
      length-to_be_bytes w (n / 256),
    )

pub to_be_bytes-AreBytes : (w n : ℕ) → AreBytes (to_be_bytes w n)
unfolding to_be_bytes
to_be_bytes-AreBytes zero n = tt
to_be_bytes-AreBytes (suc w) n =
    All-append IsByte (to_be_bytes w (n / 256)) (n % 256 ∷ []) (to_be_bytes-AreBytes w (n / 256))
      (omega arith)

be_value-snoc :
    (acc : ℕ) (xs : List ℕ) (x : ℕ) → be_value acc (xs ++ (x ∷ [])) ≡ be_value acc xs * 256 + x
unfolding be_value
be_value-snoc acc [] x = refl
be_value-snoc acc (y ∷ xs) x = be_value-snoc (acc * 256 + y) xs x

pub be_value-to_be_bytes : (w n : ℕ) → n < 256 ^ w → be_value 0 (to_be_bytes w n) ≡ n
unfolding to_be_bytes
be_value-to_be_bytes zero n h = unfold be_value in omega arith
be_value-to_be_bytes (suc w) n h =
    let small : n / 256 < 256 ^ w = omega (arith, pow-suc 256 w) in
    be_value-snoc 0 (to_be_bytes w (n / 256)) (n % 256)
    ∙ omega (arith, be_value-to_be_bytes w (n / 256) small)

-- A word survives the round trip through its bytes.
pub from_be_bytes-to_be_bytes : (w n : ℕ) → n < 256 ^ w → from_be_bytes w (to_be_bytes w n) ≡ some n
unfolding from_be_bytes
from_be_bytes-to_be_bytes w n h = ground (arith, length-to_be_bytes w n, be_value-to_be_bytes w n h)

pub snoc-cases :
    (n : ℕ) (xs : List ℕ)
    → length xs ≡ suc n
    → (ys : List ℕ) × (y : ℕ) × (xs ≡ ys ++ (y ∷ [])) × (length ys ≡ n)
snoc-cases n [] h = absurd (omega arith)
snoc-cases zero (x ∷ []) h = ([], x, refl, refl)
snoc-cases zero (x ∷ y ∷ xs) h = absurd (omega arith)
snoc-cases (suc n) (x ∷ xs) h =
    let (ys, y, e, l) = snoc-cases n xs (omega arith) in
    (x ∷ ys, y, ap (λ zs. x ∷ zs) e, omega arith)

pub be_value-lt : (w : ℕ) (xs : List ℕ) → length xs ≡ w → AreBytes xs → be_value 0 xs < 256 ^ w
be_value-lt zero [] h b = unfold be_value in omega arith
be_value-lt zero (x ∷ xs) h b = absurd (omega arith)
be_value-lt (suc w) xs h b =
    let (ys, y, e, l) = snoc-cases w xs h in
    let b' : AreBytes (ys ++ (y ∷ [])) = rw e at b in
    rw (e, be_value-snoc)
      (omega (
        arith,
        be_value-lt w ys l (All-left IsByte ys (y ∷ []) b'),
        All-right IsByte ys (y ∷ []) b',
        pow-suc 256 w,
      ))

-- Bytes survive the round trip through the word that they make.
pub to_be_bytes-be_value :
    (w : ℕ) (xs : List ℕ) → length xs ≡ w → AreBytes xs → to_be_bytes w (be_value 0 xs) ≡ xs
unfolding to_be_bytes
to_be_bytes-be_value zero [] h b = refl
to_be_bytes-be_value zero (x ∷ xs) h b = absurd (omega arith)
to_be_bytes-be_value (suc w) xs h b =
    let (ys, y, e, l) = snoc-cases w xs h in
    let b' : AreBytes (ys ++ (y ∷ [])) = rw e at b in
    let y_byte : (y < 256) × Unit {0} = All-right IsByte ys (y ∷ []) b' in
    let value : be_value 0 xs ≡ be_value 0 ys * 256 + y = rw e (be_value-snoc 0 ys y) in
    let high : be_value 0 xs / 256 ≡ be_value 0 ys = omega arith in
    let low : be_value 0 xs % 256 ≡ y = omega arith in
    rw (high, low, to_be_bytes-be_value w ys l (All-left IsByte ys (y ∷ []) b')) (sym e)

pub from_be_bytes-some :
    (w : ℕ) (xs : List ℕ) → length xs ≡ w → from_be_bytes w xs ≡ some (be_value 0 xs)
unfolding from_be_bytes
from_be_bytes-some w xs h = ground arith

pub copy_from_slice-eq :
    (dst src : List ℕ) → length dst ≡ length src → copy_from_slice dst src ≡ some src
unfolding copy_from_slice
copy_from_slice-eq dst src h = ground arith

pub split_at-le :
    (n : ℕ) (xs : List ℕ) → n ≤ length xs → split_at n xs ≡ some (take n xs, drop n xs)
unfolding split_at
split_at-le n xs h = ground arith

pub split_at-append :
    (n : ℕ) (xs ys : List ℕ) → length xs ≡ n → split_at n (xs ++ ys) ≡ some (xs, ys)
split_at-append n xs ys h =
    split_at-le n (xs ++ ys) (omega (arith, length-append xs ys))
    ∙ ap some (λ i. (take-append n xs ys (omega arith) i, drop-append n xs ys (omega arith) i))

pub split_at-all : (n : ℕ) (xs : List ℕ) → length xs ≡ n → split_at n xs ≡ some (xs, [])
split_at-all n xs h = rw append-nil at (split_at-append n xs [] h)

-- A split that does not panic, with the lengths of its parts.
pub split_at-parts :
    (n : ℕ) (xs : List ℕ)
    → n ≤ length xs
    → (front : List ℕ) × (back : List ℕ) × (split_at n xs ≡ some (front, back))
      × (length front ≡ n)
      × (length front + length back ≡ length xs)
      × (xs ≡ front ++ back)
split_at-parts n xs h = (
  take n xs,
  drop n xs,
  split_at-le n xs h,
  omega (arith, length-take n xs),
  omega (arith, length-take n xs, length-drop n xs),
  sym (take-append-drop n xs),
)

-- `a - b` on `usize`, which panics where it would underflow.
unfoldable pub checked_sub : ℕ → ℕ → Option ℕ
checked_sub a b = if leb b a then some (a - b) else none

pub checked_sub-eq : (a b c : ℕ) → a ≡ c + b → checked_sub a b ≡ some c
unfolding checked_sub
checked_sub-eq a b c h = ground arith
