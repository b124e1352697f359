-- ===== src/Tangle/Walk/Trunk.antt =====
-- `trunk_walk_approvers` and `trunk_walk_approvees` of bee-tangle/src/tangle.rs. A walk is `none`
-- where the fuel runs out.
use bee_p.Common.{
  ◌⊎◌, ℕ, zero, suc, ◌+◌, ◌<◌, ◌≤◌, ◌≡◌, sym, refl, Bool, true, false, Option, none, some, List, [],
  ◌∷◌, ◌&&◌, ◌==◌, if◌then◌else◌, arith, Bool-cases, Option-cases, inl, inr, ◌⊎◌, ==_iff,
}
use mathlib.Core.Path.{subst}
use bee_p.Common.Assoc.{lookup}
use bee_p.Common.Set.{has}
use bee_p.Tangle.{Tangle, Vertex, TransactionRef, approvers_of}

abbrev pub Found : Type 0
Found = TransactionRef × ℕ

module _ (filter : TransactionRef → Bool) (t : Tangle) where
  -- The first approver along the trunk that passes the filter.
  unfoldable pub find_approver : ℕ → List ℕ → Option (ℕ × Vertex)
  find_approver approvee [] = none
  find_approver approvee (hash ∷ hashes) =
      let rest = find_approver approvee hashes in
      elim (lookup hash t.vertices) [
        | none ↦ rest
        | some v ↦ if (v.inner.trunk == approvee) && filter v.inner then some (hash, v) else rest
      ]

  -- The stack has one hash at most: that of the last vertex that was collected.
  unfoldable pub approvers_from : ℕ → ℕ → Option (List Found)
  approvers_from zero approvee = none
  approvers_from (suc fuel) approvee = elim (find_approver approvee (approvers_of approvee t)) [
    | none ↦ some []
    | some (hash, v) ↦ elim (approvers_from fuel hash) [
      | none ↦ none
      | some collected ↦ some ((v.inner, v.id) ∷ collected)
    ]
  ]

  unfoldable pub trunk_walk_approvers : ℕ → ℕ → Option (List Found)
  trunk_walk_approvers fuel start = elim (lookup start t.vertices) [
    | none ↦ some []
    | some v ↦
        if filter v.inner
        then elim (approvers_from fuel start) [
          | none ↦ none
          | some collected ↦ some ((v.inner, v.id) ∷ collected)
        ]
        else some []
  ]

  unfoldable pub trunk_walk_approvees : ℕ → ℕ → Option (List Found)
  trunk_walk_approvees zero start = none
  trunk_walk_approvees (suc fuel) start = elim (lookup start t.vertices) [
    | none ↦ some []
    | some v ↦
        if filter v.inner
        then elim (trunk_walk_approvees fuel v.inner.trunk) [
          | none ↦ none
          | some collected ↦ some ((v.inner, v.id) ∷ collected)
        ]
        else some []
  ]

  -- No approver whose trunk this is passes the filter.
  abbrev pub IsLast : ℕ → Type 0
  IsLast approvee =
      (h : ℕ) (v : Vertex)
      → has h (approvers_of approvee t) ≡ true
      → lookup h t.vertices ≡ some v
      → v.inner.trunk ≡ approvee
      → filter v.inner ≡ false

  -- Each element passes the filter, and is the trunk of the next one; no approver follows the last.
  abbrev pub IsTrunkChain : List Found → Type 0
  IsTrunkChain [] = Unit {0}
  IsTrunkChain ((r, hash) ∷ []) = (filter r ≡ true) × IsLast hash
  IsTrunkChain ((r, hash) ∷ (r', hash') ∷ rest) =
      (filter r ≡ true) × (r'.trunk ≡ hash) × IsTrunkChain ((r', hash') ∷ rest)

  -- What a walk from this hash gives: nothing, or a chain that starts there.
  abbrev pub StartsAt : ℕ → List Found → Type 0
  StartsAt start [] =
      (lookup start t.vertices ≡ none)
      ⊎ ((v : Vertex) × (lookup start t.vertices ≡ some v) × (filter v.inner ≡ false))
  StartsAt start ((r, hash) ∷ rest) =
      (v : Vertex) × (lookup start t.vertices ≡ some v) × (v.inner ≡ r) × (hash ≡ start)

  -- No transaction approves itself through others: each is above its trunk. And a vertex has the
  -- hash that it is stored under.
  abbrev pub IsRanked : ℕ → (ℕ → ℕ) → Type 0
  IsRanked n rank =
      (hash : ℕ) (v : Vertex)
      → lookup hash t.vertices ≡ some v
      → (rank v.inner.trunk < rank hash) × (rank hash ≤ n) × (v.id ≡ hash)

  find_approver-cases :
      (a : ℕ) (hashes : List ℕ)
      → (find_approver a hashes ≡ none)
        ⊎ ((h : ℕ) × (v : Vertex) × (find_approver a hashes ≡ some (h, v))
            × (lookup h t.vertices ≡ some v)
            × (v.inner.trunk ≡ a)
            × (filter v.inner ≡ true))
  unfolding find_approver
  find_approver-cases a [] = inl refl
  find_approver-cases a (x ∷ hashes) =
      let rest = find_approver-cases a hashes in
      elim (Option-cases (lookup x t.vertices)) [
        | inl absent ↦ rw (find_approver, absent) rest
        | inr (u, there) ↦ elim (Bool-cases ((u.inner.trunk == a) && filter u.inner)) [
          | inl c ↦
              rw (find_approver, there, c) (inr (x, u, refl, there, ground arith, ground arith))
          | inr c ↦ rw (find_approver, there, c) rest
        ]
      ]

  -- The search gives nothing only where none of these approvers would do.
  find_approver-none :
      (a : ℕ) (hashes : List ℕ) (h : ℕ) (v : Vertex)
      → find_approver a hashes ≡ none
      → has h hashes ≡ true
      → lookup h t.vertices ≡ some v
      → v.inner.trunk ≡ a
      → filter v.inner ≡ false
  unfolding find_approver has
  find_approver-none a [] h v e listed there same = absurd (ground arith)
  find_approver-none a (x ∷ hashes) h v e listed there same = elim (Bool-cases (h == x)) [
    | inl c ↦
        let here : lookup x t.vertices ≡ some v = rw (← (==_iff h x).0 c) there in
        ground (arith, here, e, same)
    | inr c ↦
        let later : has h hashes ≡ true = ground (arith, c, listed) in
        let none_left : find_approver a hashes ≡ none = ground (arith, e) in
        find_approver-none a hashes h v none_left later there same
  ]

  approvers_from_chain :
      (n fuel h : ℕ) (r : TransactionRef) (rank : ℕ → ℕ)
      → IsRanked n rank
      → n < fuel + rank h
      → rank h ≤ n
      → filter r ≡ true
      → (found : List Found) × (approvers_from fuel h ≡ some found) × IsTrunkChain ((r, h) ∷ found)
  unfolding approvers_from
  approvers_from_chain n zero h r rank down enough low passes = absurd (omega arith)
  approvers_from_chain n (suc fuel) h r rank down enough low passes =
      elim (find_approver-cases h (approvers_of h t)) [
        | inl e ↦ (
          [],
          rw (approvers_from, e) refl,
          (
            passes,
            λ h' v listed there trunk.
                find_approver-none h (approvers_of h t) h' v e listed there trunk,
          ),
        )
        | inr (h', v, e, there, trunk, passes') ↦
            let (less, low', id) = down h' v there in
            let up : rank h < rank h' = subst (λ x. rank x < rank h') trunk less in
            let (found, e', chain) =
              approvers_from_chain n fuel h' v.inner rank down (omega arith) low' passes' in
            (
              (v.inner, v.id) ∷ found,
              rw (approvers_from, e, e') refl,
              (passes, trunk, subst (λ x. IsTrunkChain ((v.inner, x) ∷ found)) (sym id) chain),
            )
      ]

  -- If every transaction ranks above its trunk, no rank is above n, and every vertex has the hash that it is stored
  -- under, then the walk to the approvers ends in n + 1 steps. It gives nothing where the start has no
  -- vertex or does not pass the filter; else a chain that begins with the start, where each
  -- passes the filter and is the trunk of the next, up to one that no approver with this
  -- trunk follows that passes.
  pub trunk_walk_approvers_chain :
      (n start : ℕ) (rank : ℕ → ℕ)
      → IsRanked n rank
      → (found : List Found) × (trunk_walk_approvers (suc n) start ≡ some found)
        × StartsAt start found
        × IsTrunkChain found
  unfolding trunk_walk_approvers
  trunk_walk_approvers_chain n start rank down = elim (Option-cases (lookup start t.vertices)) [
    | inl absent ↦ ([], rw (trunk_walk_approvers, absent) refl, inl absent, tt)
    | inr (v, there) ↦ elim (Bool-cases (filter v.inner)) [
      | inl c ↦
          let (less, low, id) = down start v there in
          let (found, e, chain) =
            approvers_from_chain n (suc n) start v.inner rank down (omega arith) low c in
          (
            (v.inner, v.id) ∷ found,
            rw (trunk_walk_approvers, there, c, e) refl,
            (v, there, refl, id),
            subst (λ x. IsTrunkChain ((v.inner, x) ∷ found)) (sym id) chain,
          )
      | inr c ↦ ([], rw (trunk_walk_approvers, there, c) refl, inr (v, there, c), tt)
    ]
  ]
