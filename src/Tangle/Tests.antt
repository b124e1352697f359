-- ===== src/Tangle/Tests.antt =====
-- The theorems about the tangle at concrete inputs.
use bee_p.Common.{
  List, ℕ, ◌≡◌, ◌↔◌, refl, ◌==◌, ◌<◌, ◌≤◌, if◌then◌else◌, List, arith, true, false, not, none, some,
  [], ◌∷◌,
}
use bee_p.Common.Assoc.{lookup, insert, lookup-All}
use bee_p.Common.Set.{has, add}
use bee_p.Bundle.Samples.{blank}
use bee_p.Tangle.{
  Tangle, TransactionRef, insert_transaction, approve, approve_branch, approvers_of, store, send,
  vertex_from, is_solid, is_solid_transaction,
}
use bee_p.Tangle.Solidifier.{run, visit, mark, push_all}
use bee_p.Tangle.Solidifier.Facts.{Rooted}
use bee_p.Tangle.Solidifier.System.{
  IsIdle, System, Reach, here, next, initial, receive_hash, visit_hash,
}
use bee_p.Tangle.Solidifier.Solid.{solid-Rooted, solid_iff, insert_again, insert_transaction-Reach}
use bee_p.Tangle.Solidifier.Ends.{run_solidifies}
use bee_p.Tangle.Walk.{Calls, walk_approvees_depth_first}
use bee_p.Tangle.Walk.Rounds.{Leads, IsMissing}
use bee_p.Tangle.Walk.Trunk.{
  Found, StartsAt, IsTrunkChain, trunk_walk_approvers, trunk_walk_approvers_chain,
}
use bee_p.Tangle.Walk.Complete.{walk_finds_missing}

-- It approves the entry point 0 twice.
abbrev first : TransactionRef
first = record { trunk = 0; branch = 0; index = 0; content = blank }

-- It approves 7, which is missing.
abbrev second : TransactionRef
second = record { trunk = 1; branch = 7; index = 0; content = blank }

abbrev start : System
start = initial (0 ∷ [])

abbrev with_first : Tangle
with_first = (insert_transaction first 1 start.tangle).0

abbrev first_inserted : System
first_inserted = record start { tangle = with_first }

first_inserted-Reach : Reach start first_inserted
unfolding lookup
first_inserted-Reach = (insert_transaction-Reach start start first 1 here refl).0

run_solidifies_example :
    (t' : Tangle) × (run first_inserted.tangle.solidifier_send first_inserted.tangle ≡ some t')
    × ((hash : ℕ)
        → (is_solid_transaction hash t' ≡ true) ↔ Rooted t'.solid_entry_points t'.vertices hash)
run_solidifies_example = run_solidifies (0 ∷ []) first_inserted first_inserted-Reach refl refl

abbrev received : System
received = record first_inserted {
  tangle = record with_first { solidifier_send = [] };
  loop = record { stack = 1 ∷ []; already_solid = [] };
}

abbrev visited : System
visited = record received {
  tangle = (visit 1 [] [] received.tangle).1;
  loop = (visit 1 [] [] received.tangle).0;
}

visited-Reach : Reach start visited
unfolding insert_transaction send approve approve_branch store lookup
visited-Reach =
    next (next first_inserted-Reach (receive_hash first_inserted 1 [] refl refl))
      (visit_hash received 1 [] refl)

visited-IsIdle : IsIdle visited
unfolding visit mark push_all insert_transaction send approve approve_branch store lookup
    approvers_of is_solid_transaction has insert
visited-IsIdle = record { no_stack = refl; none_sent = refl; none_stored = refl }

solid_iff_example :
    (is_solid_transaction 1 visited.tangle ≡ true)
    ↔ Rooted visited.tangle.solid_entry_points visited.tangle.vertices 1
solid_iff_example = solid_iff (0 ∷ []) visited 1 visited-Reach visited-IsIdle

visited_solid : is_solid_transaction 1 visited.tangle ≡ true
unfolding visit mark push_all insert_transaction send approve approve_branch store lookup
    approvers_of is_solid_transaction has insert add
visited_solid = refl

solid-Rooted_example : Rooted visited.tangle.solid_entry_points visited.tangle.vertices 1
solid-Rooted_example = solid-Rooted (0 ∷ []) visited 1 visited-Reach visited_solid

first_there :
    lookup 1 visited.tangle.vertices
    ≡ some (record (vertex_from first 1) {
      flags = record { solid = true; tail = true; requested = false; milestone = false };
    })
unfolding visit mark push_all insert_transaction send approve approve_branch store lookup
    approvers_of is_solid_transaction has insert add
first_there = refl

no_entry : has 1 visited.tangle.solid_entry_points ≡ false
unfolding visit mark push_all insert_transaction send approve approve_branch store lookup
    approvers_of is_solid_transaction has insert add
no_entry = refl

insert_again_example :
    ((insert_transaction first 1 visited.tangle).1 ≡ none)
    × ((insert_transaction first 1 visited.tangle).0.solidifier_send
        ≡ visited.tangle.solidifier_send)
    × (is_solid_transaction 1 (insert_transaction first 1 visited.tangle).0 ≡ false)
insert_again_example = insert_again first 1 _ visited.tangle first_there no_entry

abbrev with_second : Tangle
with_second = (insert_transaction second 2 with_first).0

walk_finds_missing_example :
    (calls : Calls) × (walk_approvees_depth_first (λ v. not (is_solid v)) 2 with_second
      ≡ some calls)
    × ((hash : ℕ)
        → (has hash calls.missing ≡ true)
          ↔ (Leads (λ v. not (is_solid v)) with_second 2 hash × IsMissing with_second hash))
walk_finds_missing_example = walk_finds_missing (λ v. not (is_solid v)) 2 with_second

-- 1 and 2 are a chain along the trunk.
abbrev two : Tangle
two = (insert_transaction second 2 with_first).0

abbrev rank : ℕ → ℕ
rank n = if n == 1 then 1 else if n == 2 then 2 else 0

trunk_walk_approvers_chain_example :
    (found : List Found) × (trunk_walk_approvers (λ r. true) two 3 1 ≡ some found)
    × StartsAt (λ r. true) two 1 found
    × IsTrunkChain (λ r. true) two found
unfolding insert_transaction send approve approve_branch store lookup insert
trunk_walk_approvers_chain_example =
    trunk_walk_approvers_chain (λ r. true) two 2 1 rank
      (λ hash v e.
        lookup-All (λ h u. (rank u.inner.trunk < rank h) × (rank h ≤ 2) × (u.id ≡ h)) hash v
          two.vertices ((omega arith, omega arith, refl), ((omega arith, omega arith, refl), tt)) e)
