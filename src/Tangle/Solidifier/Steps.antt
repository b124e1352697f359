-- ===== src/Tangle/Solidifier/Steps.antt =====
-- An invariant of the tangle with its solidifier (bee-tangle/src/{tangle,solidifier}.rs), kept by
-- each step.
pub mod Consistent
mod Marks
mod Approvers
use mathlib.Core.Path.{subst}
use bee_p.Common.{
  ℕ, ◌≡◌, ◌≢◌, refl, sym, ◌∙◌, ◌⊎◌, inl, inr, Bool, true, false, Option, none, some, List, [], ◌∷◌,
  ◌++◌, ◌==◌, ==_iff, if◌then◌else◌, arith, Bool-cases, Option-cases, All, All-append, All-left,
  All-right,
}
use bee_p.Common.Assoc.{Assoc, lookup, insert, lookup-insert, lookup-insert_cases}
use bee_p.Common.Set.{has, has-append, has_cons}
use bee_p.Tangle.{
  Tangle, TransactionRef, Vertex, vertex_from, approvers_of, approve, approve_branch, is_solid,
  is_solid_transaction, store, send, set_milestone, add_milestone,
}
use bee_p.Tangle.Solidifier.{Loop, visit}
use bee_p.Tangle.Solidifier.Facts.{
  IsApproved, Rooted, entry, attached, approve_self, approve_keeps, approve_branch_keeps,
  approve_branch-IsApproved, is_solid-insert, not_solid_of_absent, solid_of_vertex, Rooted-Extends,
  Extends-insert_new, Extends-insert, has_self,
}
use bee_p.Tangle.Solidifier.System.{
  System, Step, insert_at_trunk, insert_at_branch, insert_vertex, send_hash, receive_hash,
  visit_hash, mark_milestone, Reach, here, next, initial,
}
use bee_p.Tangle.Solidifier.Steps.Marks.{milestone-IsConsistent, visit-IsConsistent}
use bee_p.Tangle.Solidifier.Steps.Consistent.{Awaits, IsConsistent}
use bee_p.Tangle.Solidifier.Steps.Approvers.{
  Pairs, All-middle, at_trunk-IsConsistent, at_branch-IsConsistent,
}

has-middle :
    (x y : ℕ) (pre post : List ℕ)
    → has x (pre ++ (y ∷ post)) ≡ (if x == y then true else has x (pre ++ post))
has-middle x y pre post =
    ground (arith, has-append x pre (y ∷ post), has-append x pre post, has_cons x y post)

solid-store :
    (transaction : TransactionRef) (hash : ℕ) (t : Tangle)
    → lookup hash t.vertices ≡ none
    → (x : ℕ) → is_solid_transaction x (store transaction hash t) ≡ is_solid_transaction x t
unfolding store
solid-store transaction hash t new x =
    ground (arith, is_solid-insert x hash (vertex_from transaction hash) t, not_solid_of_absent x t)

vertex-IsConsistent :
    (s : System) (transaction : TransactionRef) (hash : ℕ) (pre post : Pairs)
    → s.at_parents ≡ pre ++ ((transaction, hash) ∷ post)
    → lookup hash s.tangle.vertices ≡ none
    → IsConsistent s
    → IsConsistent (record s {
      tangle = store transaction hash s.tangle;
      at_parents = pre ++ post;
      stored = hash ∷ s.stored;
    })
unfolding store approvers_of
vertex-IsConsistent s transaction hash pre post e new c =
    let same_solid = solid-store transaction hash s.tangle new in
    let (own, others) =
      All-middle (λ p. IsApproved s.tangle p.1 p.0) pre (transaction, hash) post
        (rw e at c.parents) in
    record {
      rooted = λ h solid.
          Rooted-Extends
            (Extends-insert_new hash (vertex_from transaction hash) s.tangle.vertices new)
            (c.rooted h (sym (same_solid h) ∙ solid));
      approved = λ h v there.
          elim (lookup-insert_cases hash h (vertex_from transaction hash) v s.tangle.vertices
            there) [
              | inl (same, one) ↦
                  subst (λ x. IsApproved s.tangle x v.inner) same
                    (subst (λ (u : Vertex). IsApproved s.tangle hash u.inner) (sym one) own)
              | inr (other, old) ↦ c.approved h v old
            ];
      pending = λ h v there n t b.
          elim (lookup-insert_cases hash h (vertex_from transaction hash) v s.tangle.vertices
            there) [
              | inl (same, one) ↦ inr (inr (rw same (has_self h s.stored)))
              | inr (other, old) ↦
                  let waits =
                    c.pending h v old n (sym (same_solid v.inner.trunk) ∙ t)
                      (sym (same_solid v.inner.branch) ∙ b) in
                  ground (arith, has_cons h hash s.stored)
            ];
      visited = λ h marked.
          let (v, there, solid) = c.visited h marked in
          (
            v,
            ground (arith, lookup-insert hash h (vertex_from transaction hash) s.tangle.vertices),
            solid,
          );
      trunks = c.trunks;
      parents = others;
    }

send-IsConsistent :
    (s : System) (hash : ℕ) (pre post : List ℕ)
    → s.stored ≡ pre ++ (hash ∷ post)
    → IsConsistent s
    → IsConsistent (record s { tangle = send hash s.tangle; stored = pre ++ post })
unfolding send approvers_of is_solid_transaction
send-IsConsistent s hash pre post e c = record {
  rooted = c.rooted;
  approved = c.approved;
  pending = λ h v l n t b.
      let stored = c.pending h v l n t b in
      let split = has-middle h hash pre post in
      let queue = has-append h s.tangle.solidifier_send (hash ∷ []) in
      let one = has_cons h hash [] in ground (arith);
  visited = c.visited;
  trunks = c.trunks;
  parents = c.parents;
}

receive-IsConsistent :
    (s : System) (hash : ℕ) (rest : List ℕ)
    → s.loop.stack ≡ []
    → s.tangle.solidifier_send ≡ hash ∷ rest
    → IsConsistent s
    → IsConsistent (record s {
      tangle = record (s.tangle) { solidifier_send = rest };
      loop = record { stack = hash ∷ []; already_solid = [] };
    })
unfolding approvers_of is_solid_transaction has
receive-IsConsistent s hash rest none_left sent c = record {
  rooted = c.rooted;
  approved = c.approved;
  pending = λ h v l n t b. let waits = c.pending h v l n t b in ground arith;
  visited = λ h no. absurd (ground arith);
  trunks = c.trunks;
  parents = c.parents;
}

pub Step-IsConsistent : {s t : System} → Step s t → IsConsistent s → IsConsistent t
Step-IsConsistent (insert_at_trunk s transaction hash) c =
    at_trunk-IsConsistent s transaction hash c
Step-IsConsistent (insert_at_branch s transaction hash pre post e) c =
    at_branch-IsConsistent s transaction hash pre post e c
Step-IsConsistent (insert_vertex s transaction hash pre post e new) c =
    vertex-IsConsistent s transaction hash pre post e new c
Step-IsConsistent (send_hash s hash pre post e) c = send-IsConsistent s hash pre post e c
Step-IsConsistent (receive_hash s hash rest none_left sent) c =
    receive-IsConsistent s hash rest none_left sent c
Step-IsConsistent (visit_hash s hash rest top) c = visit-IsConsistent s hash rest top c
Step-IsConsistent (mark_milestone s index hash) c = milestone-IsConsistent s index hash c

initial-IsConsistent : (entry_points : List ℕ) → IsConsistent (initial entry_points)
unfolding is_solid_transaction lookup has
initial-IsConsistent entry_points = record {
  rooted = λ h e. entry (ground arith);
  approved = λ h v e. absurd (ground arith);
  pending = λ h v e n t b. absurd (ground arith);
  visited = λ h e. absurd (ground arith);
  trunks = tt;
  parents = tt;
}

pub Reach-IsConsistent :
    {entry_points : List ℕ} {s : System} → Reach (initial entry_points) s → IsConsistent s
Reach-IsConsistent {entry_points} here = initial-IsConsistent entry_points
Reach-IsConsistent (next r st) = Step-IsConsistent st (Reach-IsConsistent r)
