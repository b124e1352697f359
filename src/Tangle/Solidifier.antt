-- ===== src/Tangle/Solidifier.antt =====
-- `SolidifierState` of bee-tangle/src/solidifier.rs: the thread that marks the transactions whose past
-- is there.
pub mod System
pub mod Facts
pub mod Steps
pub mod Solid
pub mod Ends
use bee_p.Common.{
  ℕ, zero, suc, ◌+◌, ◌&&◌, Bool, true, false, Option, none, some, List, [], ◌∷◌, if◌then◌else◌,
  length, ◌>>=◌,
}
use bee_p.Common.Assoc.{Assoc, lookup, insert}
use bee_p.Common.Set.{has, add}
use bee_p.Tangle.{Tangle, Vertex, is_solid_transaction, approvers_of, set_solid}

-- The loop's variables: the stack, its top first, and the hashes that it has marked.
pub record Loop : Type 0 where
  pub stack : List ℕ
  pub already_solid : List ℕ

unfoldable pub push_all : List ℕ → List ℕ → List ℕ
push_all [] stack = stack
push_all (x ∷ xs) stack = push_all xs (x ∷ stack)

-- The vertex and its parents are read, and it is marked if both are solid.
unfoldable pub mark : ℕ → Vertex → List ℕ → List ℕ → Tangle → Loop × Tangle
mark hash v rest already_solid t =
    if is_solid_transaction v.inner.trunk t && is_solid_transaction v.inner.branch t
    then (
      record {
        stack = push_all (approvers_of hash t) rest;
        already_solid = add hash already_solid;
      },
      record t { vertices = insert hash (set_solid v) t.vertices },
    )
    else (record { stack = rest; already_solid = already_solid }, t)

-- One round of the loop, with the hash that it has popped.
unfoldable pub visit : ℕ → List ℕ → List ℕ → Tangle → Loop × Tangle
visit hash rest already_solid t =
    if has hash already_solid
    then (record { stack = rest; already_solid = already_solid }, t)
    else elim (lookup hash t.vertices) [
      | none ↦ (record { stack = rest; already_solid = already_solid }, t)
      | some v ↦ mark hash v rest already_solid t
    ]

-- The loop, with fuel.
unfoldable pub propagate_from : ℕ → List ℕ → List ℕ → Tangle → Option Tangle
propagate_from fuel [] already_solid t = some t
propagate_from zero (hash ∷ rest) already_solid t = none
propagate_from (suc fuel) (hash ∷ rest) already_solid t =
    let (l, t') = visit hash rest already_solid t in propagate_from fuel l.stack l.already_solid t'

-- The approvers of all hashes that are not marked, each as often as it is listed.
unfoldable pub work : List ℕ → Assoc (List ℕ) → ℕ
work already_solid [] = 0
work already_solid ((hash, hashes) ∷ m) =
    (if has hash already_solid then 0 else length hashes) + work already_solid m

-- Each round takes a hash off the stack, and each approver is put there at most once.
unfoldable pub propagate : ℕ → Tangle → Option Tangle
propagate hash t = propagate_from (1 + work [] t.approvers) (hash ∷ []) [] t

-- The loop of `run` over the hashes that are in the channel.
unfoldable pub run : List ℕ → Tangle → Option Tangle
run [] t = some t
run (hash ∷ hashes) t = do
  t' ← propagate hash (record t { solidifier_send = hashes })
  run hashes t'
