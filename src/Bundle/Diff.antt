-- ===== src/Bundle/Diff.antt =====
-- `ledger_diff` of bee-bundle/src/bundle/bundle.rs: what a bundle changes at each address. `none` is the
-- panic of an overflow.
pub mod Balanced
use bee_p.Common.{
  ℕ, suc, ◌+◌, ◌-◌, ◌*◌, ◌^◌, ◌<◌, ◌≤◌, ◌≡◌, ◌∙◌, refl, sym, ap, Bool, true, false, Option, none,
  some, List, [], ◌∷◌, length, ◌==◌, if◌then◌else◌, ◌>>=◌, All, arith, Bool-cases, inl, inr, ok,
}
use bee_p.Common.Int.{ℤ, pos, pos_part, neg_part, nat_abs, ◌+ℤ◌, add_i64}
use bee_p.Bundle.Transaction.{Trits, Transaction, trits_eq, iota_supply}
use bee_p.Bundle.Incoming.{Scheme, validate}
use bee_p.Bundle.Incoming.Accepts.{HaveValues, AllFit, IsBundle, validate_iff}

abbrev pub Diff : Type 0
Diff = List (Trits × ℤ)

-- `*diff.entry(address).or_insert(0) += value`
unfoldable pub add_entry : Bool → Trits → ℤ → Diff → Option Diff
add_entry checks address value [] = do
  sum ← add_i64 checks (pos 0) value
  some ((address, sum) ∷ [])
add_entry checks address value ((key, old) ∷ diff) =
    let here = do sum ← add_i64 checks old value; some ((key, sum) ∷ diff)
    in let there = do more ← add_entry checks address value diff; some ((key, old) ∷ more)
      in if trits_eq key address then here else there

unfoldable pub add_entries : Bool → Diff → List Transaction → Option Diff
add_entries checks diff [] = some diff
add_entries checks diff (t ∷ ts) =
    let skipped = add_entries checks diff ts in
    let added = do diff' ← add_entry checks t.address t.value diff; add_entries checks diff' ts
    in if nat_abs t.value == 0 then skipped else added

unfoldable pub ledger_diff : Bool → List Transaction → Option Diff
ledger_diff checks ts = add_entries checks [] ts
