-- ===== src/Tangle/Walk/Complete.antt =====
-- What `walk_approvees_depth_first` of bee-tangle/src/tangle.rs finds.
use bee_p.Common.{
  ℕ, zero, suc, ◌+◌, ◌≤◌, ◌≡◌, ◌↔◌, refl, inl, inr, Bool, true, false, some, List, [], ◌∷◌, length,
  arith, Bool-cases, Option-cases, ◌==◌,
}
use bee_p.Common.Assoc.{Assoc, lookup}
use bee_p.Common.Set.{has, add, has-add}
use bee_p.Tangle.{Tangle, Vertex}
use bee_p.Tangle.Walk.{Calls, analyze, walk_from, unseen, walk_approvees_depth_first}
use bee_p.Tangle.Walk.Rounds.{Leads, IsMissing, Holds, Holds-start, Holds-analyze, all_seen}

unseen-add_le :
    (hash : ℕ) (analyzed : List ℕ) (m : Assoc Vertex)
    → unseen (add hash analyzed) m ≤ unseen analyzed m
unfolding unseen
unseen-add_le hash analyzed [] = omega arith
unseen-add_le hash analyzed ((k, v) ∷ m) =
    ground (arith, has-add k hash analyzed, unseen-add_le hash analyzed m)

unseen-add :
    (hash : ℕ) (analyzed : List ℕ) (m : Assoc Vertex) (v : Vertex)
    → has hash analyzed ≡ false
    → lookup hash m ≡ some v
    → unseen (add hash analyzed) m + 2 ≤ unseen analyzed m
unfolding unseen lookup
unseen-add hash analyzed [] v new e = absurd (ground arith)
unseen-add hash analyzed ((k, u) ∷ m) v new e = elim (Bool-cases (k == hash)) [
  | inl same ↦ ground (arith, has-add k hash analyzed, unseen-add_le hash analyzed m)
  | inr other ↦
      let there : lookup hash m ≡ some v = ground arith in
      ground (arith, has-add k hash analyzed, unseen-add hash analyzed m v new there)
]

module _ (should_follow : Vertex → Bool) (t : Tangle) (root : ℕ) where
  unseen-analyze :
      (hash : ℕ) (rest analyzed : List ℕ) (calls : Calls)
      → unseen (analyze should_follow t hash rest analyzed calls).analyzed_hashes t.vertices
          + length (analyze should_follow t hash rest analyzed calls).non_analyzed_hashes
        ≤ unseen analyzed t.vertices + length rest
  unfolding analyze
  unseen-analyze hash rest analyzed calls = elim (Option-cases (lookup hash t.vertices)) [
    | inl absent ↦ ground (arith, unseen-add_le hash analyzed t.vertices)
    | inr (v, there) ↦
        ground
          (arith, unseen-add_le hash analyzed t.vertices, unseen-add hash analyzed t.vertices v)
  ]

  walk_from_answers :
      (fuel : ℕ) (stack analyzed : List ℕ) (calls : Calls)
      → unseen analyzed t.vertices + length stack ≤ fuel
      → Holds should_follow t root stack analyzed calls
      → (calls' : Calls) × (walk_from should_follow t fuel stack analyzed calls ≡ some calls')
        × (analyzed' : List ℕ) × Holds should_follow t root [] analyzed' calls'
  unfolding walk_from
  walk_from_answers fuel [] analyzed calls h w = (calls, refl, analyzed, w)
  walk_from_answers zero (hash ∷ rest) analyzed calls h w = absurd (omega arith)
  walk_from_answers (suc fuel) (hash ∷ rest) analyzed calls h w =
      let next = analyze should_follow t hash rest analyzed calls in
      walk_from_answers fuel next.non_analyzed_hashes next.analyzed_hashes next.calls
        (omega (arith, unseen-analyze hash rest analyzed calls))
        (Holds-analyze should_follow t root hash rest analyzed calls w)

-- The walk over the approvees ends, and reports as missing exactly the hashes that have no vertex, are
-- no entry points, and are led to from the root along trunks and branches through vertices that
-- are to be followed.
pub walk_finds_missing :
    (should_follow : Vertex → Bool) (root : ℕ) (t : Tangle)
    → (calls : Calls) × (walk_approvees_depth_first should_follow root t ≡ some calls)
      × ((hash : ℕ)
          → (has hash calls.missing ≡ true) ↔ (Leads should_follow t root hash × IsMissing t hash))
unfolding walk_approvees_depth_first
walk_finds_missing should_follow root t =
    let (calls, e, analyzed, w) =
      walk_from_answers should_follow t root (1 + unseen [] t.vertices) (root ∷ []) []
        (record { mapped = []; missing = [] }) (omega arith) (Holds-start should_follow t root) in
    (
      calls,
      e,
      λ hash.
          let (to, from) = w.reported hash in
          (
            λ x. let (a, b) = to x in (w.seen hash a, b),
            λ (l, m). from (all_seen should_follow t root w l, m),
          ),
    )
