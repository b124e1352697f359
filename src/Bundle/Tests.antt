-- ===== src/Bundle/Tests.antt =====
-- The theorems about transactions and bundles at concrete inputs.
use bee_p.Common.{length, ℕ, ◌≡◌, ◌↔◌, refl, true, some, List, [], ◌∷◌, ok, arith}
use bee_p.Common.Int.{as_i64, as_u64, ℤ, pos, negsuc, add_i64, ◌+ℤ◌}
use bee_p.Ternary.{i64_try_from, read_i128, read_i64, no_one, plus_one}
use bee_p.Ternary.{zeros}
use bee_p.Bundle.IntoTrits.{into_trits_allocated}
use bee_p.Bundle.IntoTrits.RoundTrip.{transaction_roundtrip}
use bee_p.Bundle.Samples.{blank, blank-IsValid}
use bee_p.Bundle.Transaction.{Trits, Transaction, hash_eq, trits_eq}
use bee_p.Bundle.Builder.{build, check, assemble, abs_i64}
use bee_p.Bundle.Builder.Accepts.{build_iff, filled, ValueFits, AddressFits}
use bee_p.Bundle.FromTrits.{transaction_trit_len, from_trits, slice, number, ◌>>=◌}
use bee_p.Bundle.FromTrits.Reads.{from_trits_reads, ReadFrom}
use bee_p.Bundle.Diff.{Diff, ledger_diff}
use bee_p.Bundle.Diff.Balanced.{total, accepted_diff_balances}
use bee_p.Bundle.Incoming.{Scheme, validate, check_all, check_one, conclude, validate_signatures}
use bee_p.Bundle.Incoming.Accepts.{validate_iff, IsBundle}

-- A transaction of a bundle of two.
abbrev part : ℕ → ℤ → Transaction
part index value = record {
  payload = [];
  address = zeros 243;
  value = value;
  obsolete_tag = [];
  timestamp = 0;
  index = index;
  last_index = 1;
  bundle = plus_one ∷ [];
  trunk = [];
  branch = no_one ∷ [];
  tag = [];
  attachment_ts = 0;
  attachment_lbts = 0;
  attachment_ubts = 0;
  nonce = [];
}

build_iff_example : (build true (filled (part 0 (pos 7))) ≡ some (ok (part 0 (pos 7)))) ↔ (
    (filled (part 0 (pos 7)) ≡ filled (part 0 (pos 7)))
    × ValueFits true (pos 7)
    × AddressFits (zeros 243) (pos 7))
build_iff_example = build_iff true (filled (part 0 (pos 7))) (part 0 (pos 7))

abbrev scheme : Scheme
scheme = record { overflow_checks = true; squeeze = some (plus_one ∷ []); verify = ok true }

abbrev pair : List Transaction
pair = part 0 (pos 7) ∷ part 1 (negsuc 6) ∷ []

validate_iff_example :
    (validate scheme pair ≡ some (ok pair)) ↔ (IsBundle scheme (plus_one ∷ []) pair × (pair ≡ pair))
validate_iff_example = validate_iff scheme (plus_one ∷ []) pair pair refl (omega arith)

pair_accepted : validate scheme pair ≡ some (ok pair)
unfolding validate check_all check_one conclude validate_signatures abs_i64 add_i64 ◌+ℤ◌ trits_eq
    hash_eq
pair_accepted = refl

blank_read : from_trits true (zeros 8019) ≡ some (ok blank)
unfolding from_trits slice number ◌>>=◌ i64_try_from read_i128 read_i64 ◌+ℤ◌ build check abs_i64
    as_i64 as_u64 assemble zeros
blank_read = refl

from_trits_reads_example : ReadFrom true (zeros 8019) blank
from_trits_reads_example = from_trits_reads true (zeros 8019) blank blank_read

accepted_diff_balances_example :
    (diff : Diff) × (ledger_diff true pair ≡ some diff) × (total diff ≡ pos 0)
accepted_diff_balances_example =
    accepted_diff_balances scheme (plus_one ∷ []) pair true refl (omega arith) (omega arith)
      pair_accepted

transaction_roundtrip_example :
    (trits : Trits) × (into_trits_allocated blank (zeros transaction_trit_len) ≡ some trits)
    × (length trits ≡ transaction_trit_len)
    × (from_trits true trits ≡ some (ok blank))
transaction_roundtrip_example = transaction_roundtrip true blank blank-IsValid
