-- ===== src/Tangle/Solidifier/Facts.antt =====
-- What the operations of bee-tangle/src/tangle.rs and a round of the solidifier's loop do to the
-- approvers and to solidity.
use bee_p.Common.{
  ℕ, ◌≡◌, refl, inl, inr, true, none, some, List, [], ◌∷◌, ◌++◌, ◌==◌, ==_iff, if◌then◌else◌, arith,
  Bool-cases,
}
use bee_p.Common.Assoc.{Assoc, lookup, insert, lookup-insert}
use bee_p.Common.Set.{has, has-append}
use bee_p.Tangle.{
  Tangle, TransactionRef, Vertex, approvers_of, approve, approve_branch, is_solid,
  is_solid_transaction,
}
use bee_p.Tangle.Solidifier.{push_all}

pub has_self : (x : ℕ) (xs : List ℕ) → has x (x ∷ xs) ≡ true
unfolding has
has_self x xs = ground arith

pub has-push_all :
    (x : ℕ) (ys stack : List ℕ)
    → has x (push_all ys stack) ≡ (if has x ys then true else has x stack)
unfolding has push_all
has-push_all x [] stack = refl
has-push_all x (y ∷ ys) stack = ground (arith, has-push_all x ys (y ∷ stack))

approvers_of-approve :
    (x approvee hash : ℕ) (t : Tangle)
    → approvers_of x (approve approvee hash t)
      ≡ (if approvee == x then approvers_of approvee t ++ (hash ∷ []) else approvers_of x t)
unfolding approvers_of approve
approvers_of-approve x approvee hash t =
    ground (arith, lookup-insert approvee x (approvers_of approvee t ++ (hash ∷ [])) t.approvers)

pub approve_self :
    (approvee hash : ℕ) (t : Tangle)
    → has hash (approvers_of approvee (approve approvee hash t)) ≡ true
approve_self approvee hash t = ground (
  arith,
  approvers_of-approve approvee approvee hash t,
  has-append hash (approvers_of approvee t) (hash ∷ []),
  has_self hash [],
)

-- No approver is lost.
pub approve_keeps :
    (x y approvee hash : ℕ) (t : Tangle)
    → has y (approvers_of x t) ≡ true
    → has y (approvers_of x (approve approvee hash t)) ≡ true
approve_keeps x y approvee hash t h = elim (Bool-cases (approvee == x)) [
  | inl e ↦
      let same : approvee ≡ x = (==_iff approvee x).0 e in
      let there : has y (approvers_of approvee t) ≡ true = rw same h in
      rw
        (
          approvers_of-approve x approvee hash t,
          e,
          has-append y (approvers_of approvee t) (hash ∷ []),
          there,
        )
        refl
  | inr e ↦ rw (approvers_of-approve x approvee hash t, e) h
]

-- The transaction is an approver of its parents.
abbrev pub IsApproved : Tangle → ℕ → TransactionRef → Type 0
IsApproved t hash transaction =
    (has hash (approvers_of transaction.trunk t) ≡ true)
    × (has hash (approvers_of transaction.branch t) ≡ true)

pub approve_branch_keeps :
    (x y hash : ℕ) (transaction : TransactionRef) (t : Tangle)
    → has y (approvers_of x t) ≡ true
    → has y (approvers_of x (approve_branch transaction hash t)) ≡ true
unfolding approve_branch
approve_branch_keeps x y hash transaction t h =
    ground (arith, approve_keeps x y transaction.branch hash t h)

pub approve_branch-IsApproved :
    (hash : ℕ) (transaction : TransactionRef) (t : Tangle)
    → has hash (approvers_of transaction.trunk t) ≡ true
    → IsApproved (approve_branch transaction hash t) hash transaction
unfolding approve_branch
approve_branch-IsApproved hash transaction t h =
    elim (Bool-cases (transaction.trunk == transaction.branch)) [
      | inl e ↦
          let same : transaction.trunk ≡ transaction.branch =
            (==_iff transaction.trunk transaction.branch).0 e in
          rw e (h, rw (← same) h)
      | inr e ↦ rw e (
        approve_keeps transaction.trunk hash transaction.branch hash t h,
        approve_self transaction.branch hash t,
      )
    ]

-- Solidity where one vertex is set.
pub is_solid-insert :
    (x hash : ℕ) (v : Vertex) (t : Tangle)
    → is_solid_transaction x (record t { vertices = insert hash v t.vertices }) ≡ (
        if hash == x
        then (if has x t.solid_entry_points then true else is_solid v)
        else is_solid_transaction x t)
unfolding is_solid_transaction
is_solid-insert x hash v t = ground (arith, lookup-insert hash x v t.vertices)

pub not_solid_of_absent :
    (x : ℕ) (t : Tangle)
    → lookup x t.vertices ≡ none
    → is_solid_transaction x t ≡ has x t.solid_entry_points
unfolding is_solid_transaction
not_solid_of_absent x t h = ground arith

pub solid_of_vertex :
    (x : ℕ) (v : Vertex) (t : Tangle)
    → lookup x t.vertices ≡ some v
    → is_solid_transaction x t ≡ (if has x t.solid_entry_points then true else is_solid v)
unfolding is_solid_transaction
solid_of_vertex x v t h = ground arith

-- The transaction and its whole past are there, down to solid entry points.
pub data Rooted (entry_points : List ℕ) (vertices : Assoc Vertex) : ℕ → Type 0 where
  entry : {hash : ℕ} → has hash entry_points ≡ true → Rooted entry_points vertices hash
  attached :
      {hash : ℕ} (v : Vertex)
      → lookup hash vertices ≡ some v
      → Rooted entry_points vertices v.inner.trunk
      → Rooted entry_points vertices v.inner.branch
      → Rooted entry_points vertices hash

-- No vertex is lost, and none gets other parents.
abbrev pub Extends : Assoc Vertex → Assoc Vertex → Type 0
Extends vertices vertices' =
    (hash : ℕ) (v : Vertex)
    → lookup hash vertices ≡ some v
    → (w : Vertex) × (lookup hash vertices' ≡ some w) × (w.inner ≡ v.inner)

pub Rooted-Extends :
    {entry_points : List ℕ} {vertices vertices' : Assoc Vertex} {hash : ℕ}
    → Extends vertices vertices'
    → Rooted entry_points vertices hash
    → Rooted entry_points vertices' hash
Rooted-Extends x (entry h) = entry h
Rooted-Extends {entry_points} {vertices} {vertices'} {hash} x (attached v h trunk branch) =
    let (w, there, same) = x hash v h in
    attached w there (rw same (Rooted-Extends x trunk)) (rw same (Rooted-Extends x branch))

pub Extends-insert_new :
    (hash : ℕ) (w : Vertex) (vertices : Assoc Vertex)
    → lookup hash vertices ≡ none
    → Extends vertices (insert hash w vertices)
Extends-insert_new hash w vertices new x v h =
    (v, ground (arith, lookup-insert hash x w vertices), refl)

pub Extends-insert :
    (hash : ℕ) (v w : Vertex) (vertices : Assoc Vertex)
    → lookup hash vertices ≡ some v
    → w.inner ≡ v.inner
    → Extends vertices (insert hash w vertices)
Extends-insert hash v w vertices there same x u h = elim (Bool-cases (hash == x)) [
  | inl e ↦
      let at : hash ≡ x = (==_iff hash x).0 e in
      let one : some u ≡ some v = (let it = rw (← at) at h in cc) in
      (w, rw (lookup-insert hash x w vertices, e), ground arith)
  | inr e ↦ (u, rw (lookup-insert hash x w vertices, e) h, refl)
]
