-- ===== src/Message/Version/Supported.antt =====
-- `messages_supported_version` of bee-protocol/src/message/version.rs on the list of this node.
use Prim.Native.Nat.{bit_and}
use bee_p.Common.{
  ℕ, zero, suc, ◌+◌, ◌-◌, ◌*◌, ◌/◌, ◌%◌, ◌<◌, ◌≡◌, refl, ◌∙◌, none, some, List, [], ◌∷◌, length,
  ◌==◌, ok, err, arith, dec_lt, true, Bool, ◌&&◌, ==_iff, inl, inr, ◌⊎◌,
}
use bee_p.Message.Version.{highest_bit, last, messages_supported_version}

-- Two functions that agree on the numbers below a bound, checked one by one.
all_below : (ℕ → Bool) → ℕ → Bool
all_below p zero = true
all_below p (suc n) = p n && all_below p n

all_below_sound : (p : ℕ → Bool) (n : ℕ) → all_below p n ≡ true → (x : ℕ) → x < n → p x ≡ true
unfolding all_below
all_below_sound p zero e x h = absurd (omega arith)
all_below_sound p (suc n) e x h = ground (arith, all_below_sound p n (ground arith) x)

-- A byte, and what it has in common with the own versions.
abbrev bit_one : ℕ → ℕ
bit_one b = (b / 2) % 2 * 2

common_table : all_below (λ b. bit_and b 2 == bit_one b) 256 ≡ true
unfolding all_below
common_table = refl

common : (b : ℕ) → b < 256 → bit_and b 2 ≡ bit_one b
common b h = (==_iff _ _).0 (all_below_sound (λ b. bit_and b 2 == bit_one b) 256 common_table b h)

last-some : (x : ℕ) (xs : List ℕ) → (y : ℕ) × (last (x ∷ xs) ≡ some y)
unfolding last
last-some x [] = (x, refl)
last-some x (y ∷ xs) = last-some y xs

-- The only version that this node agrees on is 2: a peer's list of version bytes is accepted, with
-- that version, exactly when the second bit of its first byte is set. Any other list that is not
-- empty is refused with a version and without a panic.
pub messages_supported_version_lem :
    (b : ℕ) (versions : List ℕ)
    → b < 256
    → ((b / 2 % 2 ≡ 1) × (messages_supported_version (b ∷ versions) ≡ some (ok 2)))
      ⊎ ((b / 2 % 2 ≡ 0) × ((v : ℕ) × (messages_supported_version (b ∷ versions) ≡ some (err v))))
unfolding messages_supported_version
messages_supported_version_lem b versions h = elim (dec_lt 0 (b / 2 % 2)) [
  | yes p ↦ let two : bit_and b 2 ≡ 2 = common b h ∙ omega arith in inl (omega arith, rw two)
  | no p ↦
      let none_of : bit_and b 2 ≡ 0 = common b h ∙ omega arith in
      let (y, e) = last-some b versions in
      inr (
        omega arith,
        ((highest_bit y + (suc (length versions) - 1) % 256 * 8 % 256) % 256, rw (none_of, e)),
      )
]

-- An empty list makes the refusal itself panic.
pub messages_supported_version_nil : messages_supported_version [] ≡ none
unfolding messages_supported_version
messages_supported_version_nil = refl
