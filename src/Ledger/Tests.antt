-- ===== src/Ledger/Tests.antt =====
-- The theorems about the ledger at concrete inputs.
use bee_p.Common.{ℕ, arith, ◌≡◌, refl, true, some, [], ◌∷◌}
use bee_p.Common.Int.{ℤ, pos, negsuc, add_i64, as_i64, as_u64, ◌+ℤ◌}
use bee_p.Common.Assoc.{Assoc, lookup, insert}
use bee_p.Ledger.{apply_diff, apply_entry, modify}
use bee_p.Ledger.Balances.{balance_after, apply_diff_at}

abbrev balances : Assoc ℕ
balances = (4, 10) ∷ (5, 7) ∷ []

-- 4 pays 10, 5 cannot pay 8, and 6 is new.
abbrev diff : Assoc ℤ
diff = (4, negsuc 9) ∷ (5, negsuc 7) ∷ (6, pos 3) ∷ []

applied : apply_diff true diff balances ≡ some ((4, 0) ∷ (5, 7) ∷ (6, 3) ∷ [])
unfolding apply_diff apply_entry modify add_i64 as_i64 as_u64 ◌+ℤ◌ lookup insert
applied = refl

apply_diff_at_example :
    (state' : Assoc ℕ) × (apply_diff true diff balances ≡ some state')
    × ((a : ℕ) → lookup a state' ≡ balance_after (lookup a balances) (lookup a diff))
unfolding lookup
apply_diff_at_example =
    apply_diff_at true diff balances (refl, (refl, (refl, tt)))
      ((omega arith, omega arith), ((omega arith, omega arith), ((omega arith, omega arith), tt)))
