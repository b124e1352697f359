-- ===== src/Tangle/Solidifier/Steps/Marks.antt =====
-- The steps of bee-tangle/src/{tangle,solidifier}.rs that change a vertex, and a round of the loop, keep
-- the invariant.
use mathlib.Core.Path.{subst}
use bee_p.Common.{
  ap, ℕ, ◌≡◌, refl, sym, ◌∙◌, ◌⊎◌, inl, inr, true, false, ◌&&◌, some, List, ◌∷◌, ◌==◌, ==_iff,
  if◌then◌else◌, arith, Bool-cases, Option-cases,
}
use bee_p.Common.Assoc.{lookup, insert, lookup-insert, lookup-insert_cases}
use bee_p.Common.Set.{has, has_cons, has-add, add}
use bee_p.Tangle.{
  Tangle, TransactionRef, Vertex, approvers_of, is_solid, is_solid_transaction, set_milestone,
  set_solid, add_milestone,
}
use bee_p.Tangle.Solidifier.{visit, mark, push_all}
use bee_p.Tangle.Solidifier.Facts.{
  IsApproved, attached, is_solid-insert, solid_of_vertex, Rooted-Extends, Extends-insert,
  has-push_all,
}
use bee_p.Tangle.Solidifier.System.{System}
use bee_p.Tangle.Solidifier.Steps.Consistent.{Awaits, IsConsistent}

-- A vertex that keeps its transaction and its solidity.
solid-reset :
    (hash : ℕ) (v w : Vertex) (t : Tangle)
    → lookup hash t.vertices ≡ some v
    → is_solid w ≡ is_solid v
    → (x : ℕ)
    → is_solid_transaction x (record t { vertices = insert hash w t.vertices })
      ≡ is_solid_transaction x t
solid-reset hash v w t there same x = elim (Bool-cases (hash == x)) [
  | inl e ↦
      let at : hash ≡ x = (==_iff hash x).0 e in
      rw (is_solid-insert x hash w t, e, same) (sym (solid_of_vertex x v t (rw (← at) there)))
  | inr e ↦ rw (is_solid-insert x hash w t, e) refl
]

vertex_reset-IsConsistent :
    (s : System) (index hash : ℕ) (v w : Vertex)
    → lookup hash s.tangle.vertices ≡ some v
    → is_solid w ≡ is_solid v
    → w.inner ≡ v.inner
    → IsConsistent s
    → IsConsistent (record s {
      tangle = record (s.tangle) {
        vertices = insert hash w s.tangle.vertices;
        milestones = insert index hash s.tangle.milestones;
      };
    })
unfolding approvers_of is_solid_transaction
vertex_reset-IsConsistent s index hash v w there same_flag same_inner c =
    let solid = solid-reset hash v w s.tangle there same_flag in
    record {
      rooted = λ h e.
          Rooted-Extends (Extends-insert hash v w s.tangle.vertices there same_inner)
            (c.rooted h (sym (solid h) ∙ e));
      approved = λ h u e. elim (lookup-insert_cases hash h w u s.tangle.vertices e) [
        | inl (same, one) ↦
            let old = c.approved h v (rw (← same) there) in
            subst (IsApproved s.tangle h) (sym (ap (λ (x : Vertex). x.inner) one ∙ same_inner)) old
        | inr (other, old) ↦ c.approved h u old
      ];
      pending = λ h u e n t b.
          let t' = sym (solid u.inner.trunk) ∙ t in
          let b' = sym (solid u.inner.branch) ∙ b in
          elim (lookup-insert_cases hash h w u s.tangle.vertices e) [
            | inl (same, one) ↦
                let inner : u.inner ≡ v.inner = ap (λ (x : Vertex). x.inner) one ∙ same_inner in
                c.pending h v (rw (← same) there) (sym same_flag ∙ (rw one at n))
                  (subst (λ (x : TransactionRef). is_solid_transaction x.trunk s.tangle ≡ true)
                    inner t')
                  (subst (λ (x : TransactionRef). is_solid_transaction x.branch s.tangle ≡ true)
                    inner b')
            | inr (other, old) ↦ c.pending h u old n t' b'
          ];
      visited = λ h marked.
          let (u, e, f) = c.visited h marked in
          elim (Bool-cases (hash == h)) [
            | inl same ↦
                let at : hash ≡ h = (==_iff hash h).0 same in
                let one : some v ≡ some u = sym there ∙ (rw at e) in
                (w, rw (lookup-insert hash h w s.tangle.vertices, same) refl, ground arith)
            | inr other ↦ (u, rw (lookup-insert hash h w s.tangle.vertices, other) e, f)
          ];
      trunks = c.trunks;
      parents = c.parents;
    }

pub milestone-IsConsistent :
    (s : System) (index hash : ℕ)
    → IsConsistent s
    → IsConsistent (record s { tangle = add_milestone index hash s.tangle })
unfolding add_milestone approvers_of is_solid_transaction
milestone-IsConsistent s index hash c = elim (Option-cases (lookup hash s.tangle.vertices)) [
  | inl e ↦ rw e (record {
    rooted = c.rooted;
    approved = c.approved;
    pending = c.pending;
    visited = c.visited;
    trunks = c.trunks;
    parents = c.parents;
  })
  | inr (v, e) ↦ rw e (vertex_reset-IsConsistent s index hash v (set_milestone v) e refl refl c)
]

-- A round that only takes the hash off the stack, where the solidifier need not look at it.
popped-IsConsistent :
    (s : System) (hash : ℕ) (rest : List ℕ)
    → s.loop.stack ≡ hash ∷ rest
    → ((v : Vertex)
        → lookup hash s.tangle.vertices ≡ some v
        → is_solid v ≡ false
        → is_solid_transaction v.inner.trunk s.tangle ≡ true
        → is_solid_transaction v.inner.branch s.tangle ≡ true
        → ⊥)
    → IsConsistent s
    → IsConsistent
        (record s { loop = record { stack = rest; already_solid = s.loop.already_solid } })
popped-IsConsistent s hash rest top useless c = record {
  rooted = c.rooted;
  approved = c.approved;
  pending = λ h v e n t b. elim (Bool-cases (h == hash)) [
    | inl same ↦
        absurd (let at : h ≡ hash = (==_iff h hash).0 same in useless v (rw (← at) e) n t b)
    | inr other ↦
        let waits = c.pending h v e n t b in
        let stack : has h s.loop.stack ≡ has h rest = rw (top, has_cons h hash rest, other) refl in
        ground arith
  ];
  visited = c.visited;
  trunks = c.trunks;
  parents = c.parents;
}

-- What awaits the solidifier, or is among the approvers that are pushed, awaits it then.
Awaits-push_all :
    (s : System) (hash h : ℕ) (rest approvers : List ℕ)
    → s.loop.stack ≡ hash ∷ rest
    → (hash == h) ≡ false
    → Awaits s h ⊎ (has h approvers ≡ true)
    → (has h (push_all approvers rest) ≡ true)
      ⊎ (has h s.tangle.solidifier_send ≡ true)
      ⊎ (has h s.stored ≡ true)
Awaits-push_all s hash h rest approvers top other a =
    let stack : has h s.loop.stack ≡ (if h == hash then true else has h rest) =
      rw top (has_cons h hash rest) in
    ground (arith, has-push_all h approvers rest)

-- Marking a vertex makes no other one solid.
is_solid-mark :
    (hash : ℕ) (v : Vertex) (t : Tangle) (x : ℕ)
    → (hash == x) ≡ false
    → is_solid_transaction x (record t { vertices = insert hash (set_solid v) t.vertices })
      ≡ is_solid_transaction x t
is_solid-mark hash v t x other = rw (is_solid-insert x hash (set_solid v) t, other) refl

marked-IsConsistent :
    (s : System) (hash : ℕ) (rest : List ℕ) (v : Vertex)
    → s.loop.stack ≡ hash ∷ rest
    → lookup hash s.tangle.vertices ≡ some v
    → is_solid_transaction v.inner.trunk s.tangle ≡ true
    → is_solid_transaction v.inner.branch s.tangle ≡ true
    → IsConsistent s
    → IsConsistent (record s {
      tangle = record (s.tangle) { vertices = insert hash (set_solid v) s.tangle.vertices };
      loop = record {
        stack = push_all (approvers_of hash s.tangle) rest;
        already_solid = add hash s.loop.already_solid;
      };
    })
unfolding approvers_of
marked-IsConsistent s hash rest v top there t b c =
    let w = set_solid v in
    let solid = is_solid-mark hash v s.tangle in
    let extends = Extends-insert hash v w s.tangle.vertices there refl in
    record {
      rooted = λ h e. elim (Bool-cases (hash == h)) [
        | inl same ↦ Rooted-Extends extends (
            attached v (rw (← (==_iff hash h).0 same) there) (c.rooted v.inner.trunk t)
              (c.rooted v.inner.branch b))
        | inr other ↦ Rooted-Extends extends (c.rooted h (sym (solid h other) ∙ e))
      ];
      approved = λ h u e. elim (lookup-insert_cases hash h w u s.tangle.vertices e) [
        | inl (same, one) ↦
            subst (λ (x : Vertex). IsApproved s.tangle h x.inner) (sym one)
              (c.approved h v (rw (← same) there))
        | inr (other, old) ↦ c.approved h u old
      ];
      pending = λ h u e n t' b'. elim (lookup-insert_cases hash h w u s.tangle.vertices e) [
        | inl (same, one) ↦ absurd (ground arith)
        | inr (other, old) ↦
            Awaits-push_all s hash h rest (approvers_of hash s.tangle) top other
              (elim (Bool-cases (hash == u.inner.trunk)) [
                | inl same ↦ inr (
                    subst (λ x. has h (approvers_of x s.tangle) ≡ true)
                      (sym ((==_iff hash u.inner.trunk).0 same)) (c.approved h u old).0)
                | inr trunk ↦ elim (Bool-cases (hash == u.inner.branch)) [
                  | inl same ↦ inr (
                      subst (λ x. has h (approvers_of x s.tangle) ≡ true)
                        (sym ((==_iff hash u.inner.branch).0 same)) (c.approved h u old).1)
                  | inr branch ↦ inl (
                      c.pending h u old n (sym (solid u.inner.trunk trunk) ∙ t')
                        (sym (solid u.inner.branch branch) ∙ b'))
                ]
              ])
      ];
      visited = λ h marked. elim (Bool-cases (hash == h)) [
        | inl same ↦ (w, rw (lookup-insert hash h w s.tangle.vertices, same) refl, refl)
        | inr other ↦
            let before : has h s.loop.already_solid ≡ true =
              ground (arith, has-add h hash s.loop.already_solid) in
            let (u, e, f) = c.visited h before in
            (u, rw (lookup-insert hash h w s.tangle.vertices, other) e, f)
      ];
      trunks = c.trunks;
      parents = c.parents;
    }

pub visit-IsConsistent :
    (s : System) (hash : ℕ) (rest : List ℕ)
    → s.loop.stack ≡ hash ∷ rest
    → IsConsistent s
    → IsConsistent (record s {
      tangle = (visit hash rest s.loop.already_solid s.tangle).1;
      loop = (visit hash rest s.loop.already_solid s.tangle).0;
    })
unfolding visit mark
visit-IsConsistent s hash rest top c = elim (Bool-cases (has hash s.loop.already_solid)) [
  | inl seen ↦
      let (v, there, solid) = c.visited hash seen in
      rw seen (popped-IsConsistent s hash rest top (λ u e n t b. ground arith) c)
  | inr unseen ↦ elim (Option-cases (lookup hash s.tangle.vertices)) [
    | inl e ↦ rw (unseen, e) (popped-IsConsistent s hash rest top (λ u f n t b. ground arith) c)
    | inr (v, e) ↦
        elim (Bool-cases (
          is_solid_transaction v.inner.trunk s.tangle
          && is_solid_transaction v.inner.branch s.tangle)) [
            | inl both ↦
                rw (unseen, e, both)
                  (marked-IsConsistent s hash rest v top e (ground arith) (ground arith) c)
            | inr one ↦
                rw (unseen, e, one)
                  (popped-IsConsistent s hash rest top (λ u f n t b. ground arith) c)
          ]
  ]
]
