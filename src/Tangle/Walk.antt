-- ===== src/Tangle/Walk.antt =====
-- The walks of bee-tangle/src/tangle.rs over the approvees of a transaction. What a walk calls its
-- closures with is returned, in order.
pub mod Rounds
pub mod Complete
pub mod Trunk
use bee_p.Common.{
  ℕ, zero, suc, ◌+◌, Bool, true, false, not, Option, none, some, List, [], ◌∷◌, ◌++◌, length,
  if◌then◌else◌,
}
use bee_p.Common.Assoc.{Assoc, lookup}
use bee_p.Common.Set.{has, add}
use bee_p.Tangle.{Tangle, Vertex, TransactionRef, is_solid_entry_point}

-- The calls of `map` and of `on_missing`.
pub record Calls : Type 0 where
  pub mapped : List TransactionRef
  pub missing : List ℕ

-- The variables of `walk_approvees_depth_first`; the top of the stack comes first.
pub record Walk : Type 0 where
  pub non_analyzed_hashes : List ℕ
  pub analyzed_hashes : List ℕ
  pub calls : Calls

module _ (should_follow : Vertex → Bool) (t : Tangle) where
  -- One round of the loop, with the hash that it has popped.
  unfoldable pub analyze : ℕ → List ℕ → List ℕ → Calls → Walk
  analyze hash rest analyzed calls =
      if has hash analyzed
      then record { non_analyzed_hashes = rest; analyzed_hashes = analyzed; calls = calls }
      else elim (lookup hash t.vertices) [
        | some v ↦ record {
          non_analyzed_hashes =
              if should_follow v then v.inner.trunk ∷ (v.inner.branch ∷ rest) else rest;
          analyzed_hashes = add hash analyzed;
          calls = record calls { mapped = calls.mapped ++ (v.inner ∷ []) };
        }
        | none ↦ record {
          non_analyzed_hashes = rest;
          analyzed_hashes = add hash analyzed;
          calls =
              if not (is_solid_entry_point hash t)
              then record calls { missing = calls.missing ++ (hash ∷ []) }
              else calls;
        }
      ]

  -- The loop, with fuel.
  unfoldable pub walk_from : ℕ → List ℕ → List ℕ → Calls → Option Calls
  walk_from fuel [] analyzed calls = some calls
  walk_from zero (hash ∷ rest) analyzed calls = none
  walk_from (suc fuel) (hash ∷ rest) analyzed calls =
      let w = analyze hash rest analyzed calls in
      walk_from fuel w.non_analyzed_hashes w.analyzed_hashes w.calls

-- Two for each vertex that is not analyzed.
unfoldable pub unseen : List ℕ → Assoc Vertex → ℕ
unseen analyzed [] = 0
unseen analyzed ((hash, v) ∷ m) = (if has hash analyzed then 0 else 2) + unseen analyzed m

-- Each round takes a hash off the stack, and each vertex puts two there once.
unfoldable pub walk_approvees_depth_first : (Vertex → Bool) → ℕ → Tangle → Option Calls
walk_approvees_depth_first should_follow root t =
    walk_from should_follow t (1 + unseen [] t.vertices) (root ∷ []) []
      (record { mapped = []; missing = [] })
