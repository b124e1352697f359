-- ===== src/Tangle/Solidifier/Ends.antt =====
-- The loops of bee-tangle/src/solidifier.rs end, and are steps of the system.
use mathlib.Core.Path.{subst}
use bee_p.Common.{
  ℕ, zero, suc, ◌+◌, ◌≤◌, ◌≡◌, ◌↔◌, refl, ◌∙◌, true, false, none, some, List, [], ◌∷◌, length, ◌==◌,
  ==_iff, arith, Bool-cases, Option-cases, inl, inr,
}
use bee_p.Common.Assoc.{Assoc, lookup}
use bee_p.Common.Set.{has, add, has-add}
use bee_p.Tangle.{Tangle, approvers_of, is_solid_transaction}
use bee_p.Tangle.Solidifier.{push_all, visit, mark, propagate_from, propagate, work, run}
use bee_p.Tangle.Solidifier.Facts.{Rooted}
use bee_p.Tangle.Solidifier.System.{System, Reach, next, visit_hash, receive_hash, initial}
use bee_p.Tangle.Solidifier.Solid.{solid_iff}

work-add_le :
    (hash : ℕ) (marked : List ℕ) (m : Assoc (List ℕ)) → work (add hash marked) m ≤ work marked m
unfolding work
work-add_le hash marked [] = omega arith
work-add_le hash marked ((k, xs) ∷ m) =
    ground (arith, has-add k hash marked, work-add_le hash marked m)

work-add :
    (hash : ℕ) (marked : List ℕ) (m : Assoc (List ℕ)) (xs : List ℕ)
    → has hash marked ≡ false
    → lookup hash m ≡ some xs
    → work (add hash marked) m + length xs ≤ work marked m
unfolding work lookup
work-add hash marked [] xs new e = absurd (ground arith)
work-add hash marked ((k, ys) ∷ m) xs new e = elim (Bool-cases (k == hash)) [
  | inl same ↦
      let at : k ≡ hash = (==_iff k hash).0 same in
      let one : ys ≡ xs = ground arith in
      let k_new : has k marked ≡ false = rw at new in
      let k_marked : has k (add hash marked) ≡ true = ground (arith, has-add k hash marked) in
      rw (k_new, k_marked, one) (omega (arith, work-add_le hash marked m))
  | inr other ↦
      let there : lookup hash m ≡ some xs = ground arith in
      ground (arith, has-add k hash marked, work-add hash marked m xs new there)
]

length-push_all : (xs stack : List ℕ) → length (push_all xs stack) ≡ length xs + length stack
unfolding push_all
length-push_all [] stack = omega arith
length-push_all (x ∷ xs) stack = omega (arith, length-push_all xs (x ∷ stack))

none_approve : (hash : ℕ) (t : Tangle) → lookup hash t.approvers ≡ none → approvers_of hash t ≡ []
unfolding approvers_of
none_approve hash t e = ground arith

some_approve :
    (hash : ℕ) (t : Tangle) (xs : List ℕ)
    → lookup hash t.approvers ≡ some xs
    → approvers_of hash t ≡ xs
unfolding approvers_of
some_approve hash t xs e = ground arith

work-approvers_of :
    (hash : ℕ) (marked : List ℕ) (t : Tangle)
    → has hash marked ≡ false
    → work (add hash marked) t.approvers + length (approvers_of hash t) ≤ work marked t.approvers
work-approvers_of hash marked t new = elim (Option-cases (lookup hash t.approvers)) [
  | inl e ↦ rw (none_approve hash t e) (omega (arith, work-add_le hash marked t.approvers))
  | inr (xs, e) ↦ rw (some_approve hash t xs e) (work-add hash marked t.approvers xs new e)
]

visit-approvers :
    (hash : ℕ) (rest marked : List ℕ) (t : Tangle)
    → (visit hash rest marked t).1.approvers ≡ t.approvers
unfolding visit mark
visit-approvers hash rest marked t = ground arith

-- A round takes a hash off the stack, and pushes no more than the work that it does.
visit-work :
    (hash : ℕ) (rest marked : List ℕ) (t : Tangle)
    → work (visit hash rest marked t).0.already_solid t.approvers
        + length (visit hash rest marked t).0.stack
      ≤ work marked t.approvers + length rest
unfolding visit mark
visit-work hash rest marked t =
    ground (arith, work-approvers_of hash marked t, length-push_all (approvers_of hash t) rest)

propagate_from_answers :
    (fuel : ℕ) (stack marked : List ℕ) (t : Tangle)
    → work marked t.approvers + length stack ≤ fuel
    → (t' : Tangle) × (propagate_from fuel stack marked t ≡ some t')
unfolding propagate_from
propagate_from_answers fuel [] marked t h = (t, refl)
propagate_from_answers zero (hash ∷ rest) marked t h = absurd (omega arith)
propagate_from_answers (suc fuel) (hash ∷ rest) marked t h =
    let l = (visit hash rest marked t).0 in
    propagate_from_answers fuel l.stack l.already_solid (visit hash rest marked t).1
      (rw (visit-approvers hash rest marked t) (omega (arith, visit-work hash rest marked t)))

-- The solidifier's loop ends.
propagate_answers : (hash : ℕ) (t : Tangle) → (t' : Tangle) × (propagate hash t ≡ some t')
unfolding propagate
propagate_answers hash t =
    propagate_from_answers (1 + work [] t.approvers) (hash ∷ []) [] t (omega arith)

-- The system with another tangle and another loop.
abbrev at : System → Tangle → List ℕ → List ℕ → System
at s t stack marked = record s {
  tangle = t;
  loop = record { stack = stack; already_solid = marked };
}

propagate_from-Reach :
    (s₀ s : System) (fuel : ℕ) (stack marked : List ℕ) (t t' : Tangle)
    → Reach s₀ (at s t stack marked)
    → propagate_from fuel stack marked t ≡ some t'
    → (marked' : List ℕ) × Reach s₀ (at s t' [] marked')
unfolding propagate_from
propagate_from-Reach s₀ s fuel [] marked t t' r e =
    (marked, subst (λ u. Reach s₀ (at s u [] marked)) (ground arith) r)
propagate_from-Reach s₀ s zero (hash ∷ rest) marked t t' r e = absurd (ground arith)
propagate_from-Reach s₀ s (suc fuel) (hash ∷ rest) marked t t' r e =
    let l = (visit hash rest marked t).0 in
    propagate_from-Reach s₀ s fuel l.stack l.already_solid (visit hash rest marked t).1 t'
      (next r (visit_hash (at s t (hash ∷ rest) marked) hash rest refl)) e

propagate-Reach :
    (s₀ s : System) (hash : ℕ) (marked : List ℕ) (t t' : Tangle) (hashes : List ℕ)
    → t.solidifier_send ≡ hash ∷ hashes
    → Reach s₀ (at s t [] marked)
    → propagate hash (record t { solidifier_send = hashes }) ≡ some t'
    → (marked' : List ℕ) × Reach s₀ (at s t' [] marked')
unfolding propagate
propagate-Reach s₀ s hash marked t t' hashes sent r e =
    let t₁ = record t { solidifier_send = hashes } in
    propagate_from-Reach s₀ s (1 + work [] t.approvers) (hash ∷ []) [] t₁ t'
      (next r (receive_hash (at s t [] marked) hash hashes refl sent)) e

visit-sent :
    (hash : ℕ) (rest marked : List ℕ) (t : Tangle)
    → (visit hash rest marked t).1.solidifier_send ≡ t.solidifier_send
unfolding visit mark
visit-sent hash rest marked t = ground arith

propagate_from-sent :
    (fuel : ℕ) (stack marked : List ℕ) (t t' : Tangle)
    → propagate_from fuel stack marked t ≡ some t'
    → t'.solidifier_send ≡ t.solidifier_send
unfolding propagate_from
propagate_from-sent fuel [] marked t t' e = ground arith
propagate_from-sent zero (hash ∷ rest) marked t t' e = absurd (ground arith)
propagate_from-sent (suc fuel) (hash ∷ rest) marked t t' e =
    let l = (visit hash rest marked t).0 in
    propagate_from-sent fuel l.stack l.already_solid (visit hash rest marked t).1 t' e
    ∙ visit-sent hash rest marked t

propagate-sent :
    (hash : ℕ) (t t' : Tangle) → propagate hash t ≡ some t' → t'.solidifier_send ≡ t.solidifier_send
unfolding propagate
propagate-sent hash t t' e = propagate_from-sent (1 + work [] t.approvers) (hash ∷ []) [] t t' e

run_answers :
    (s₀ s : System) (hashes marked : List ℕ) (t : Tangle)
    → t.solidifier_send ≡ hashes
    → Reach s₀ (at s t [] marked)
    → (t' : Tangle) × (marked' : List ℕ) × (run hashes t ≡ some t')
      × (t'.solidifier_send ≡ [])
      × Reach s₀ (at s t' [] marked')
unfolding run
run_answers s₀ s [] marked t sent r = (t, marked, refl, sent, r)
run_answers s₀ s (hash ∷ hashes) marked t sent r =
    let (t₁, e) = propagate_answers hash (record t { solidifier_send = hashes }) in
    let (marked₁, r₁) = propagate-Reach s₀ s hash marked t t₁ hashes sent r e in
    let (t', marked', f, none_left, r') =
      run_answers s₀ s hashes marked₁ t₁
        (propagate-sent hash (record t { solidifier_send = hashes }) t₁ e) r₁ in
    (t', marked', rw e f, none_left, r')

-- Provided that no hash was stored twice, when no insertion is on its way from the vertices to the channel and the
-- solidifier is between two rounds of its outer loop, it works off the whole channel, which takes a bounded number of rounds;
-- a transaction is then solid exactly when it is there with its whole past, down to solid entry
-- points.
pub run_solidifies :
    (entry_points : List ℕ) (s : System)
    → Reach (initial entry_points) s
    → s.loop.stack ≡ []
    → s.stored ≡ []
    → (t' : Tangle) × (run s.tangle.solidifier_send s.tangle ≡ some t')
      × ((hash : ℕ)
          → (is_solid_transaction hash t' ≡ true) ↔ Rooted t'.solid_entry_points t'.vertices hash)
run_solidifies entry_points s r empty done =
    let from : Reach (initial entry_points) (at s s.tangle [] s.loop.already_solid) =
      subst (λ x. Reach (initial entry_points) (at s s.tangle x s.loop.already_solid)) empty r in
    let (t', marked, e, none_left, r') =
      run_answers (initial entry_points) s s.tangle.solidifier_send s.loop.already_solid s.tangle
        refl from in
    (
      t',
      e,
      λ hash.
          solid_iff entry_points (at s t' [] marked) hash r'
            (record { no_stack = refl; none_sent = none_left; none_stored = done }),
    )
