-- ===== src/Message/Version.antt =====
-- bee-protocol/src/message/version.rs, with the constants of v0/mod.rs and v2/mod.rs. `u8` sums and
-- casts wrap at 256.
pub mod Supported
use Prim.Native.Nat.{bit_and, bit_or}
use bee_p.Common.{
  ℕ, zero, suc, ◌+◌, ◌-◌, ◌*◌, ◌/◌, ◌%◌, ◌^◌, Option, none, some, List, [], ◌∷◌, length, ◌==◌,
  if◌then◌else◌, Result, ok, err, ◌>>=◌,
}

abbrev messages_version_0 : ℕ
messages_version_0 = 0

abbrev messages_version_2 : ℕ
messages_version_2 = 2

abbrev pub messages_versions : List ℕ
messages_versions = bit_or messages_version_0 messages_version_2 ∷ []

-- `for j in 0..8` from `j` on with `n` rounds left: one more than the index of the highest bit.
unfoldable pub highest_from : ℕ → ℕ → ℕ → ℕ → ℕ
highest_from zero j byte highest = highest
highest_from (suc n) j byte highest =
    highest_from n (j + 1) byte (if bit_and (byte / 2 ^ j) 1 == 1 then j + 1 else highest)

abbrev pub highest_bit : ℕ → ℕ
highest_bit byte = highest_from 8 0 byte 0

-- The loop over the own versions from index `i` on, beside the peer's from the same index on: it
-- breaks where the latter end.
unfoldable pub common_from : ℕ → List ℕ → List ℕ → ℕ → ℕ
unfolding highest_from
common_from i [] supported highest = highest
common_from i (own ∷ owns) [] highest = highest
common_from i (own ∷ owns) (version ∷ versions) highest =
    let supported = bit_and version own in
    common_from (i + 1) owns versions
      (if supported == 0 then highest else (highest_bit supported + i % 256 * 8 % 256) % 256)

-- `slice.last()`
unfoldable pub last : List ℕ → Option ℕ
last [] = none
last (x ∷ []) = some x
last (x ∷ y ∷ xs) = last (y ∷ xs)

-- The outer option is the panic of `unwrap`.
unfoldable pub common_supported_version : List ℕ → List ℕ → Option (Result ℕ ℕ)
unfolding common_from last
common_supported_version own_supported_versions supported_versions =
    let highest = common_from 0 own_supported_versions supported_versions 0 in
    if highest == 0
    then (do
      last_versions_byte ← last supported_versions
      let index = length supported_versions - 1
      some (err ((highest_bit last_versions_byte + index % 256 * 8 % 256) % 256)))
    else some (ok highest)

unfoldable pub messages_supported_version : List ℕ → Option (Result ℕ ℕ)
unfolding common_supported_version
messages_supported_version = common_supported_version messages_versions
