-- ===== src/Bundle/Outgoing/Tests.antt =====
-- The theorems about outgoing bundles at concrete inputs: a transfer of 7 whose first hash has an M.
use bee_p.Common.{ℕ, All, ◌≡◌, refl, true, Option, none, some, List, [], ◌∷◌, replicate, ok, arith}
use bee_p.Common.Int.{ℤ, pos, negsuc, add_i64, as_i64, as_u64, ◌+ℤ◌}
use bee_p.Ternary.{neg_one, no_one, plus_one, trits_from_i64, digits, min_trits, min_trits_from}
use bee_p.Ternary.T3b1.{encode_t1b1, extract}
use bee_p.Signing.Normalize.{
  balance, lower, lower_by, normalize_fragments, normalize_hash, raise, raise_by, read_trytes,
  sum_of,
}
use bee_p.Bundle.Transaction.{Trits, Transaction}
use bee_p.Bundle.Builder.{TransactionBuilder, get, abs_i64}
use bee_p.Bundle.Builder.Essence.{essence, copy_exactly, copy_at}
use bee_p.Bundle.Builder.Accepts.{filled}
use bee_p.Bundle.Outgoing.{
  Settings, Builders, seal, and_then, seal_all, required, add_value, seal_hash,
  calculate_bundle_hash, find_hash, attempt, essences, has_m_bug, increment, set_bundle,
}
use bee_p.Bundle.Outgoing.Sealed.{HasValue, IsSealed, seal-IsSealed}

abbrev zeros : ℕ → Trits
zeros n = replicate n no_one

-- M and N, and zeros: its trytes sum up to 0.
abbrev bad_hash : Trits
bad_hash = plus_one ∷ plus_one ∷ plus_one ∷ neg_one ∷ neg_one ∷ neg_one ∷ zeros 237

-- A sponge that looks at one trit of the first obsolete tag.
abbrev squeeze : List Trits → Option Trits
squeeze [] = none
squeeze (e ∷ _) = elim (get 324 e) [
  | none ↦ none
  | some no_one ↦ some bad_hash
  | some _ ↦ some (zeros 243)
]

abbrev settings : Settings
settings = record { overflow_checks = true; squeeze = squeeze }

abbrev part : Trits → ℕ → ℤ → Trits → Transaction
part obsolete_tag index value bundle = record {
  payload = [];
  address = zeros 243;
  value = value;
  obsolete_tag = obsolete_tag;
  timestamp = 0;
  index = index;
  last_index = 1;
  bundle = bundle;
  trunk = [];
  branch = no_one ∷ [];
  tag = [];
  attachment_ts = 0;
  attachment_lbts = 0;
  attachment_ubts = 0;
  nonce = [];
}

abbrev builders : Builders
builders = filled (part (zeros 81) 5 (pos 7) []) ∷ (filled (part (zeros 81) 5 (negsuc 6) []) ∷ [])

abbrev first : Transaction
first = part (plus_one ∷ zeros 80) 0 (pos 7) (zeros 243)

abbrev second : Transaction
second = part (zeros 81) 1 (negsuc 6) (zeros 243)

abbrev sealed : Builders
sealed = filled first ∷ (filled second ∷ [])

sealed_lem : seal settings 2 builders ≡ some (ok sealed)
unfolding seal and_then seal_all required add_value add_i64 ◌+ℤ◌ abs_i64 seal_hash
    calculate_bundle_hash find_hash attempt essences essence copy_exactly copy_at trits_from_i64
    digits has_m_bug increment set_bundle as_i64 as_u64 balance lower lower_by normalize_fragments
    normalize_hash raise raise_by read_trytes sum_of encode_t1b1 extract min_trits min_trits_from
sealed_lem = refl

have_values : All HasValue builders
have_values = (λ value e. ground arith, (λ value e. ground arith, tt))

seal-IsSealed_example : (hash : Trits) × IsSealed settings sealed hash
seal-IsSealed_example = seal-IsSealed settings 2 builders sealed have_values sealed_lem

-- The builders as the hash is looked for, with the obsolete tag of the first.
abbrev head : Trits → TransactionBuilder
head obsolete_tag = record (filled (part obsolete_tag 0 (pos 7) [])) { last_index = some 1 }

abbrev others : Builders
others = filled (part (zeros 81) 1 (negsuc 6) []) ∷ []

-- What is absorbed, from the essences.
abbrev absorbed : Trits → List Trits
absorbed obsolete_tag = elim (essences (head obsolete_tag ∷ others)) [ none ↦ [] | some es ↦ es ]
