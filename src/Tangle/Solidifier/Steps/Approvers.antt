-- ===== src/Tangle/Solidifier/Steps/Approvers.antt =====
-- The steps of bee-tangle/src/tangle.rs that enter a transaction at its parents keep the invariant.
use mathlib.Core.Path.{subst}
use bee_p.Common.{
  ℕ, ◌≡◌, sym, true, List, [], ◌∷◌, ◌++◌, arith, All, All-append, All-left, All-right,
}
use bee_p.Common.Assoc.{Assoc}
use bee_p.Common.Set.{has}
use bee_p.Tangle.{
  Tangle, TransactionRef, approvers_of, approve, approve_branch, is_solid_transaction,
}
use bee_p.Tangle.Solidifier.Facts.{
  IsApproved, approve_self, approve_keeps, approve_branch_keeps, approve_branch-IsApproved,
}
use bee_p.Tangle.Solidifier.System.{System}
use bee_p.Tangle.Solidifier.Steps.Consistent.{IsConsistent}

abbrev pub Pairs : Type 0
Pairs = List (TransactionRef × ℕ)

All-map :
    {P Q : TransactionRef × ℕ → Type 0} (xs : Pairs)
    → ((x : TransactionRef × ℕ) → P x → Q x)
    → All P xs
    → All Q xs
All-map [] f h = tt
All-map (x ∷ xs) f (p, h) = (f x p, All-map xs f h)

pub All-middle :
    (P : TransactionRef × ℕ → Type 0) (pre : Pairs) (x : TransactionRef × ℕ) (post : Pairs)
    → All P (pre ++ (x ∷ post))
    → P x × All P (pre ++ post)
All-middle P pre x post h =
    let right = All-right P pre (x ∷ post) h in
    (right.0, All-append P pre post (All-left P pre (x ∷ post) h) right.1)

-- More approvers, and insertions that have got further.
approvers-IsConsistent :
    (s : System) (approvers : Assoc (List ℕ)) (at_trunk at_parents : Pairs)
    → ((x y : ℕ)
        → has y (approvers_of x s.tangle) ≡ true
        → has y (approvers_of x (record (s.tangle) { approvers = approvers })) ≡ true)
    → All
        (λ p. has p.1 (approvers_of p.0.trunk (record (s.tangle) { approvers = approvers })) ≡ true)
        at_trunk
    → All (λ p. IsApproved (record (s.tangle) { approvers = approvers }) p.1 p.0) at_parents
    → IsConsistent s
    → IsConsistent (record s {
      tangle = record (s.tangle) { approvers = approvers };
      at_trunk = at_trunk;
      at_parents = at_parents;
    })
unfolding is_solid_transaction
approvers-IsConsistent s approvers at_trunk at_parents keep trunks parents c = record {
  rooted = c.rooted;
  approved =
      λ h v e. let (a, b) = c.approved h v e in (keep v.inner.trunk h a, keep v.inner.branch h b);
  pending = c.pending;
  visited = c.visited;
  trunks = trunks;
  parents = parents;
}

pub at_trunk-IsConsistent :
    (s : System) (transaction : TransactionRef) (hash : ℕ)
    → IsConsistent s
    → IsConsistent (record s {
      tangle = approve transaction.trunk hash s.tangle;
      at_trunk = (transaction, hash) ∷ s.at_trunk;
    })
unfolding approve
at_trunk-IsConsistent s transaction hash c =
    let keep = λ (x y : ℕ). approve_keeps x y transaction.trunk hash s.tangle in
    approvers-IsConsistent s _ ((transaction, hash) ∷ s.at_trunk) s.at_parents keep
      (
        approve_self transaction.trunk hash s.tangle,
        All-map s.at_trunk (λ p a. keep p.0.trunk p.1 a) c.trunks,
      )
      (All-map s.at_parents (λ p (a, b). (keep p.0.trunk p.1 a, keep p.0.branch p.1 b)) c.parents) c

only_approvers :
    (transaction : TransactionRef) (hash : ℕ) (t : Tangle)
    → approve_branch transaction hash t
      ≡ record t { approvers = (approve_branch transaction hash t).approvers }
unfolding approve_branch approve
only_approvers transaction hash t = ground arith

pub at_branch-IsConsistent :
    (s : System) (transaction : TransactionRef) (hash : ℕ) (pre post : Pairs)
    → s.at_trunk ≡ pre ++ ((transaction, hash) ∷ post)
    → IsConsistent s
    → IsConsistent (record s {
      tangle = approve_branch transaction hash s.tangle;
      at_trunk = pre ++ post;
      at_parents = (transaction, hash) ∷ s.at_parents;
    })
at_branch-IsConsistent s transaction hash pre post e c =
    let t' = approve_branch transaction hash s.tangle in
    let as_record = only_approvers transaction hash s.tangle in
    let keep = λ (x y : ℕ) (h : has y (approvers_of x s.tangle) ≡ true).
      (subst (λ t. has y (approvers_of x t) ≡ true) as_record
        (approve_branch_keeps x y hash transaction s.tangle h)) in
    let trunks = rw e at c.trunks in
    let (own, others) =
      All-middle (λ p. has p.1 (approvers_of p.0.trunk s.tangle) ≡ true) pre (transaction, hash)
        post trunks in
    let own_approved =
      subst (λ t. IsApproved t hash transaction) as_record
        (approve_branch-IsApproved hash transaction s.tangle own) in
    subst
      (λ t. IsConsistent (record s {
        tangle = t;
        at_trunk = pre ++ post;
        at_parents = (transaction, hash) ∷ s.at_parents;
      }))
      (sym as_record)
      (approvers-IsConsistent s t'.approvers (pre ++ post) ((transaction, hash) ∷ s.at_parents) keep
        (All-map (pre ++ post) (λ p a. keep p.0.trunk p.1 a) others)
        (
          own_approved,
          All-map s.at_parents (λ p (a, b). (keep p.0.trunk p.1 a, keep p.0.branch p.1 b))
              c.parents,
        )
        c)
