-- ===== src/Bundle/Diff/Balanced.antt =====
-- What `ledger_diff` of bee-bundle/src/bundle/bundle.rs sums up to.
use bee_p.Common.{
  ℕ, suc, ◌+◌, ◌*◌, ◌^◌, ◌<◌, ◌≤◌, ◌≡◌, ◌∙◌, refl, sym, ap, Bool, true, some, List, [], ◌∷◌, length,
  ◌==◌, arith, Bool-cases, inl, inr, ok,
}
use bee_p.Common.Int.{ℤ, pos, nat_abs, ◌+ℤ◌, add_i64}
use bee_p.Bundle.Transaction.{Trits, Transaction, trits_eq, iota_supply}
use bee_p.Bundle.Diff.{Diff, add_entry, add_entries, ledger_diff}
use bee_p.Bundle.Incoming.{Scheme, validate}
use bee_p.Bundle.Incoming.Accepts.{HaveValues, AllFit, validate_iff}

abbrev pub total : Diff → ℤ
total [] = pos 0
total ((key, value) ∷ diff) = value +ℤ total diff

abbrev values : List Transaction → ℤ
values [] = pos 0
values (t ∷ ts) = t.value +ℤ values ts

-- No entry is beyond `n` times the supply.
abbrev AreBounded : ℕ → Diff → Type 0
AreBounded n [] = Unit
AreBounded n ((key, value) ∷ diff) = (nat_abs value ≤ n * iota_supply) × AreBounded n diff

add_i64_exact :
    (checks : Bool) (a b : ℤ) (n : ℕ)
    → nat_abs a ≤ n * iota_supply
    → nat_abs b ≤ iota_supply
    → suc n * iota_supply < 2 ^ 63
    → (add_i64 checks a b ≡ some (a +ℤ b)) × (nat_abs (a +ℤ b) ≤ suc n * iota_supply)
unfolding add_i64 ◌+ℤ◌
add_i64_exact checks a b n h k l = ground arith

+ℤ_shift : (a b c : ℤ) → (a +ℤ b) +ℤ c ≡ (a +ℤ c) +ℤ b
unfolding ◌+ℤ◌
+ℤ_shift a b c = ground arith

+ℤ_assoc : (a b c : ℤ) → (a +ℤ b) +ℤ c ≡ a +ℤ (b +ℤ c)
unfolding ◌+ℤ◌
+ℤ_assoc a b c = ground arith

+ℤ_comm : (a b : ℤ) → a +ℤ b ≡ b +ℤ a
unfolding ◌+ℤ◌
+ℤ_comm a b = ground arith

bounds_grow : (n : ℕ) (diff : Diff) → AreBounded n diff → AreBounded (suc n) diff
bounds_grow n [] h = tt
bounds_grow n ((key, value) ∷ diff) (h, hs) = (omega arith, bounds_grow n diff hs)

add_entry_lem :
    (checks : Bool) (address : Trits) (value : ℤ) (diff : Diff) (n : ℕ)
    → AreBounded n diff
    → nat_abs value ≤ iota_supply
    → suc n * iota_supply < 2 ^ 63
    → (diff' : Diff) × (add_entry checks address value diff ≡ some diff')
      × (total diff' ≡ total diff +ℤ value)
      × AreBounded (suc n) diff'
unfolding add_entry ◌+ℤ◌
add_entry_lem checks address value [] n h k l =
    let (e, b) = add_i64_exact checks (pos 0) value n (omega arith) k l in
    ((address, pos 0 +ℤ value) ∷ [], rw (e) refl, +ℤ_shift (pos 0) value (pos 0), (b, tt))
add_entry_lem checks address value ((key, old) ∷ diff) n (h, hs) k l =
    elim (Bool-cases (trits_eq key address)) [
      | inl c ↦
          let (e, b) = add_i64_exact checks old value n h k l in
          (
            (key, old +ℤ value) ∷ diff,
            rw (c, e) refl,
            +ℤ_shift old value (total diff),
            (b, bounds_grow n diff hs),
          )
      | inr c ↦
          let (more, e, t, b) = add_entry_lem checks address value diff n hs k l in
          (
            (key, old) ∷ more,
            rw (c, e) refl,
            ap (λ x. old +ℤ x) t ∙ sym (+ℤ_assoc old (total diff) value),
            (omega arith, b),
          )
    ]

+ℤ_zero : (a : ℤ) → a +ℤ pos 0 ≡ a
unfolding ◌+ℤ◌
+ℤ_zero a = ground arith

zero_value : (a b c : ℤ) → (nat_abs b == 0) ≡ true → a +ℤ c ≡ a +ℤ (b +ℤ c)
unfolding ◌+ℤ◌
zero_value a b c h = ground arith

add_entries_lem :
    (checks : Bool) (diff : Diff) (ts : List Transaction) (n : ℕ)
    → AreBounded n diff
    → HaveValues ts
    → (n + length ts) * iota_supply < 2 ^ 63
    → (diff' : Diff) × (add_entries checks diff ts ≡ some diff')
      × (total diff' ≡ total diff +ℤ values ts)
unfolding add_entries
add_entries_lem checks diff [] n h k l = (diff, refl, sym (+ℤ_zero (total diff)))
add_entries_lem checks diff (t ∷ ts) n h (k, ks) l = elim (Bool-cases (nat_abs t.value == 0)) [
  | inl c ↦
      let (out, e, s) = add_entries_lem checks diff ts n h ks (omega arith) in
      (out, rw (c) e, s ∙ zero_value (total diff) t.value (values ts) c)
  | inr c ↦
      let (diff', e, s, b) = add_entry_lem checks t.address t.value diff n h k (omega arith) in
      let (out, e', s') = add_entries_lem checks diff' ts (suc n) b ks (omega arith) in
      (
        out,
        rw (c, e) e',
        s' ∙ ap (λ x. x +ℤ values ts) s ∙ +ℤ_assoc (total diff) t.value (values ts),
      )
]

sum_values :
    (hash branch : Trits) (last_index index : ℕ) (sum : ℤ) (ts : List Transaction)
    → AllFit hash branch last_index index sum ts
    → sum +ℤ values ts ≡ pos 0
sum_values hash branch last_index index sum [] f = +ℤ_zero sum ∙ f
sum_values hash branch last_index index sum (t ∷ ts) (_, _, f) =
    sym (+ℤ_assoc sum t.value (values ts))
    ∙ sum_values hash branch last_index (index + 1) (sum +ℤ t.value) ts f

-- What an accepted bundle changes at its addresses sums up to 0: its values are at most the supply, and
-- it is not so long that a sum of them could overflow, so that the changes are worked out without a
-- panic.
pub accepted_diff_balances :
    (s : Scheme) (hash : Trits) (ts : List Transaction) (checks : Bool)
    → s.squeeze ≡ some hash
    → HaveValues ts
    → length ts * iota_supply < 2 ^ 63
    → validate s ts ≡ some (ok ts)
    → (diff : Diff) × (ledger_diff checks ts ≡ some diff) × (total diff ≡ pos 0)
unfolding ledger_diff
accepted_diff_balances s hash [] checks q v l e = absurd (((validate_iff s hash [] [] q v).0 e).0)
accepted_diff_balances s hash (t ∷ ts) checks q v l e =
    let ((fit, verified), same) = (validate_iff s hash (t ∷ ts) (t ∷ ts) q v).0 e in
    let (diff, made, sum) = add_entries_lem checks [] (t ∷ ts) 0 tt v (omega arith) in
    (diff, made, sum ∙ sum_values hash t.branch (length ts) 0 (pos 0) (t ∷ ts) fit)
