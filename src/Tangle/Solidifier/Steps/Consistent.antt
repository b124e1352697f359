-- ===== src/Tangle/Solidifier/Steps/Consistent.antt =====
-- The invariant of the tangle with its solidifier (bee-tangle/src/{tangle,solidifier}.rs).
use bee_p.Common.{ℕ, ◌≡◌, ◌⊎◌, true, false, some, All}
use bee_p.Common.Assoc.{lookup}
use bee_p.Common.Set.{has}
use bee_p.Tangle.{Vertex, approvers_of, is_solid, is_solid_transaction}
use bee_p.Tangle.Solidifier.Facts.{IsApproved, Rooted}
use bee_p.Tangle.Solidifier.System.{System}

-- The solidifier will still look at the hash.
abbrev pub Awaits : System → ℕ → Type 0
Awaits s hash =
    (has hash s.loop.stack ≡ true)
    ⊎ (has hash s.tangle.solidifier_send ≡ true)
    ⊎ (has hash s.stored ≡ true)

-- What is solid has its whole past; each vertex is an approver of its parents, and so are the
-- insertions that have got so far; a vertex with solid parents is solid or awaits the solidifier;
-- and what its loop has marked is solid.
pub record IsConsistent (s : System) : Type 0 where
  pub rooted :
      (hash : ℕ)
      → is_solid_transaction hash s.tangle ≡ true
      → Rooted s.tangle.solid_entry_points s.tangle.vertices hash
  pub approved :
      (hash : ℕ) (v : Vertex)
      → lookup hash s.tangle.vertices ≡ some v
      → IsApproved s.tangle hash v.inner
  pub pending :
      (hash : ℕ) (v : Vertex)
      → lookup hash s.tangle.vertices ≡ some v
      → is_solid v ≡ false
      → is_solid_transaction v.inner.trunk s.tangle ≡ true
      → is_solid_transaction v.inner.branch s.tangle ≡ true
      → Awaits s hash
  pub visited :
      (hash : ℕ)
      → has hash s.loop.already_solid ≡ true
      → (v : Vertex) × (lookup hash s.tangle.vertices ≡ some v) × (is_solid v ≡ true)
  pub trunks : All (λ p. has p.1 (approvers_of p.0.trunk s.tangle) ≡ true) s.at_trunk
  pub parents : All (λ p. IsApproved s.tangle p.1 p.0) s.at_parents
