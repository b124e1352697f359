-- ===== src/Tangle/Solidifier/Solid.antt =====
-- What the solidity of a transaction means, for the tangle and the solidifier of
-- bee-tangle/src/{tangle,solidifier}.rs.
use bee_p.Common.{[], false, refl, none, some, ℕ, ◌≡◌, ◌↔◌, inl, inr, true, List, arith, Bool-cases}
use bee_p.Common.Set.{has}
use bee_p.Common.Assoc.{lookup, lookup-insert}
use bee_p.Tangle.{
  Tangle, TransactionRef, approve, approve_branch, store, send, insert_transaction, vertex_from,
  Vertex, is_solid, is_solid_transaction,
}
use bee_p.Tangle.Solidifier.Facts.{Rooted, entry, attached, solid_of_vertex}
use bee_p.Tangle.Solidifier.System.{
  next, insert_at_trunk, insert_at_branch, insert_vertex, send_hash, System, Reach, initial, IsIdle,
}
use bee_p.Tangle.Solidifier.Steps.{Reach-IsConsistent}
use bee_p.Tangle.Solidifier.Steps.Consistent.{Awaits, IsConsistent}

-- Provided that no hash is stored twice, whatever the threads do and in whatever order, a transaction that is reported as
-- solid is there with its whole past, down to solid entry points.
pub solid-Rooted :
    (entry_points : List ℕ) (s : System) (hash : ℕ)
    → Reach (initial entry_points) s
    → is_solid_transaction hash s.tangle ≡ true
    → Rooted s.tangle.solid_entry_points s.tangle.vertices hash
solid-Rooted entry_points s hash r e = (Reach-IsConsistent r).rooted hash e

none-Awaits : (s : System) (hash : ℕ) → IsIdle s → Awaits s hash → ⊥
unfolding has
none-Awaits s hash idle waits =
    let a = idle.no_stack in let b = idle.none_sent in let c = idle.none_stored in ground arith

Rooted-solid :
    (s : System)
    → IsConsistent s
    → IsIdle s
    → {hash : ℕ} → Rooted s.tangle.solid_entry_points s.tangle.vertices hash
    → is_solid_transaction hash s.tangle ≡ true
unfolding is_solid_transaction
Rooted-solid s c idle (entry h) = ground arith
Rooted-solid s c idle {hash} (attached v there trunk branch) = elim (Bool-cases (is_solid v)) [
  | inl e ↦ ground (arith, solid_of_vertex hash v s.tangle)
  | inr e ↦ absurd (
      none-Awaits s hash idle
        (c.pending hash v there e (Rooted-solid s c idle trunk) (Rooted-solid s c idle branch)))
]

-- When the insertions that are under way and the solidifier have nothing left to do, a transaction
-- is solid exactly when it is there with its whole past, down to solid entry points: whatever the
-- order was in which the threads came to it, provided that no hash was stored twice.
pub solid_iff :
    (entry_points : List ℕ) (s : System) (hash : ℕ)
    → Reach (initial entry_points) s
    → IsIdle s
    → (is_solid_transaction hash s.tangle ≡ true)
      ↔ Rooted s.tangle.solid_entry_points s.tangle.vertices hash
solid_iff entry_points s hash r idle =
    (solid-Rooted entry_points s hash r, Rooted-solid s (Reach-IsConsistent r) idle)

-- An insertion of a new hash that is not interrupted is made of the steps of the system, and returns
-- the transaction.
pub insert_transaction-Reach :
    (s₀ s : System) (transaction : TransactionRef) (hash : ℕ)
    → Reach s₀ s
    → lookup hash s.tangle.vertices ≡ none
    → Reach s₀ (record s { tangle = (insert_transaction transaction hash s.tangle).0 })
      × ((insert_transaction transaction hash s.tangle).1 ≡ some transaction)
insert_transaction-Reach s₀ s transaction hash r new =
    let r₁ = next r (insert_at_trunk s transaction hash) in
    let r₂ = next r₁ (insert_at_branch _ transaction hash [] s.at_trunk refl) in
    let still : lookup hash
          (approve_branch transaction hash (approve transaction.trunk hash s.tangle)).vertices
        ≡ none =
      unfold approve approve_branch in ground arith in
    let r₃ = next r₂ (insert_vertex _ transaction hash [] s.at_parents refl still) in
    let r₄ = next r₃ (send_hash _ hash [] s.stored refl) in
    let whole : insert_transaction transaction hash s.tangle ≡ (
      send hash (
          store transaction hash
            (approve_branch transaction hash (approve transaction.trunk hash s.tangle))),
      some transaction,
    ) =
      unfold insert_transaction in ground arith in
    (rw whole r₄, rw whole refl)

-- An insertion of a hash that is there already replaces the vertex by one that is not solid, and does
-- not tell the solidifier: unless the hash is an entry point, the transaction is no longer solid.
pub insert_again :
    (transaction : TransactionRef) (hash : ℕ) (v : Vertex) (t : Tangle)
    → lookup hash t.vertices ≡ some v
    → has hash t.solid_entry_points ≡ false
    → ((insert_transaction transaction hash t).1 ≡ none)
      × ((insert_transaction transaction hash t).0.solidifier_send ≡ t.solidifier_send)
      × (is_solid_transaction hash (insert_transaction transaction hash t).0 ≡ false)
unfolding insert_transaction approve approve_branch store is_solid_transaction
insert_again transaction hash v t there no_entry =
    ground (arith, lookup-insert hash hash (vertex_from transaction hash) t.vertices)
