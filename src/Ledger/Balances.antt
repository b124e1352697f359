-- ===== src/Ledger/Balances.antt =====
-- What `apply_diff` of bee-ledger/src/worker.rs makes of the balances.
use bee_p.Common.{
  ℕ, ◌+◌, ◌-◌, ◌^◌, ◌<◌, ◌≤◌, ◌==◌, ◌≡◌, ◌≢◌, refl, inl, inr, Bool, false, Option, none, some, [],
  ◌∷◌, if◌then◌else◌, leb, arith, Option-cases, Bool-cases, All, ==_iff,
}
use bee_p.Common.Int.{ℤ, as_i64, as_u64, add_i64, pos_part, neg_part, ◌+ℤ◌}
use bee_p.Common.Assoc.{Assoc, lookup, insert, lookup-insert}
use bee_p.Ledger.{modify, apply_entry, apply_diff}

-- The new balance, from the old one and the change, which is a positive or a negative number: a known
-- balance changes by it, unless it would become negative. One that is not known becomes the change;
-- where that is negative, it wraps.
abbrev pub new_balance : Option ℕ → ℤ → ℕ
new_balance none change = if neg_part change == 0 then pos_part change else 2 ^ 64 - neg_part change
new_balance (some balance) change =
    if leb (neg_part change) (balance + pos_part change)
    then balance + pos_part change - neg_part change
    else balance

-- The balance at an address after a diff, from the one before and the diff's entry for the address.
abbrev pub balance_after : Option ℕ → Option ℤ → Option ℕ
balance_after balance none = balance
balance_after balance (some change) = some (new_balance balance change)

-- The change is an `i64`, and the sum with a known balance does not exceed one.
abbrev pub InRange : Option ℕ → ℤ → Type 0
InRange none change = (pos_part change < 2 ^ 63) × (neg_part change ≤ 2 ^ 63)
InRange (some balance) change = (balance + pos_part change < 2 ^ 63) × (neg_part change ≤ 2 ^ 63)

abbrev pub AreInRange : Assoc ℕ → Assoc ℤ → Type 0
AreInRange state = All (λ entry. InRange (lookup entry.0 state) entry.1)

-- No address has two entries, as in a `HashMap`.
abbrev pub HasKeysOnce : Assoc ℤ → Type 0
HasKeysOnce [] = Unit
HasKeysOnce ((key, value) ∷ diff) = (lookup key diff ≡ none) × HasKeysOnce diff

apply_entry_lem :
    (checks : Bool) (key : ℕ) (value : ℤ) (state : Assoc ℕ)
    → InRange (lookup key state) value
    → apply_entry checks key value state
      ≡ some (insert key (new_balance (lookup key state) value) state)
unfolding apply_entry modify add_i64 as_i64 as_u64 ◌+ℤ◌
apply_entry_lem checks key value state h = elim (Option-cases (lookup key state)) [
  | inl e ↦
      let range = rw (e) at h in
      let same : as_u64 value ≡ new_balance none value = ground (arith, range) in
      rw (apply_entry, e, same) refl
  | inr (balance, e) ↦
      let range = rw (e) at h in
      let same : modify checks balance value ≡ some (new_balance (some balance) value) =
        ground (arith, range) in
      rw (apply_entry, e, same) refl
]

AreInRange-insert :
    (key balance : ℕ) (state : Assoc ℕ) (diff : Assoc ℤ)
    → lookup key diff ≡ none
    → AreInRange state diff
    → AreInRange (insert key balance state) diff
unfolding lookup
AreInRange-insert key balance state [] absent h = tt
AreInRange-insert key balance state ((other, value) ∷ diff) absent (range, h) =
    let differ : (key == other) ≡ false = ground (arith, absent) in
    let rest : lookup key diff ≡ none = ground (arith, absent) in
    let same : lookup other (insert key balance state) ≡ lookup other state =
      (let it = lookup-insert key other balance state in rw (differ) at it) in
    (rw (same) range, AreInRange-insert key balance state diff rest h)

-- A diff that has no address twice, whose changes are in the range of an `i64` together with the balances, is
-- applied without a panic. A known balance then is greater or less by the change at its address, or stays where it would become
-- negative; an unknown one is the change, wrapped where it is negative; and a balance whose address is not in the diff stays.
pub apply_diff_at :
    (checks : Bool) (diff : Assoc ℤ) (state : Assoc ℕ)
    → HasKeysOnce diff
    → AreInRange state diff
    → (state' : Assoc ℕ) × (apply_diff checks diff state ≡ some state')
      × ((a : ℕ) → lookup a state' ≡ balance_after (lookup a state) (lookup a diff))
unfolding apply_diff lookup
apply_diff_at checks [] state h r = (state, refl, λ a. refl)
apply_diff_at checks ((key, value) ∷ diff) state (once, h) (range, r) =
    let balance = new_balance (lookup key state) value in
    let (state', e, after) =
      apply_diff_at checks diff (insert key balance state) h
        (AreInRange-insert key balance state diff once r) in
    (
      state',
      rw (apply_entry_lem checks key value state range) e,
      λ a. elim (Bool-cases (key == a)) [
        | inl c ↦
            let same = (==_iff key a).0 c in
            let absent : lookup a diff ≡ none = rw same at once in
            let here : lookup a (insert key balance state) ≡ some balance =
              (let it = lookup-insert key a balance state in rw (c) at it) in
            ground (arith, after a, absent, here, c, same)
        | inr c ↦
            let other : lookup a (insert key balance state) ≡ lookup a state =
              (let it = lookup-insert key a balance state in rw (c) at it) in
            rw (c) (let it = after a in rw (other) at it)
      ],
    )

apply_entry_answers :
    (key : ℕ) (value : ℤ) (state : Assoc ℕ) → apply_entry false key value state ≢ none
unfolding apply_entry modify add_i64
apply_entry_answers key value state e = ground arith

-- Where the build does not check for overflow, every diff is applied without a panic.
pub apply_diff_answers :
    (diff : Assoc ℤ) (state : Assoc ℕ)
    → (state' : Assoc ℕ) × (apply_diff false diff state ≡ some state')
unfolding apply_diff
apply_diff_answers [] state = (state, refl)
apply_diff_answers ((key, value) ∷ diff) state =
    elim (Option-cases (apply_entry false key value state)) [
      | inl f ↦ absurd (apply_entry_answers key value state f)
      | inr (state₁, f) ↦ let (state', e) = apply_diff_answers diff state₁ in (state', rw f e)
    ]
