-- ===== src/Protocol/Solidification/Missing.antt =====
-- What the solidifiers ask for, and when the solid milestone moves.
use mathlib.Core.List.{map}
use bee_p.Common.{
  ℕ, ◌≡◌, ◌↔◌, ◌∙◌, refl, sym, ap, Bool, true, false, Option, some, List, [], ◌∷◌, ◌++◌,
  append_assoc, append-nil, arith, if◌then◌else◌,
}
use bee_p.Common.Set.{has, add, has-add, HasOnce, HasOnce-add}
use bee_p.Protocol.{Protocol, TransactionRequesterWorkerEntry, request_transaction}
use bee_p.Protocol.Transactions.{is_empty}
use bee_p.Protocol.Solidification.{solidify, collect, request_all, not_solid}
use bee_p.Tangle.Walk.Rounds.{Leads, IsMissing}
use bee_p.Tangle.Walk.Complete.{walk_finds_missing}

has-collect :
    (x : ℕ) (hashes missing : List ℕ)
    → has x (collect hashes missing) ≡ (if has x hashes then true else has x missing)
unfolding collect has
has-collect x [] missing = refl
has-collect x (h ∷ hashes) missing =
    ground (arith, has-collect x hashes (add h missing), has-add x h missing)

HasOnce-collect : (hashes missing : List ℕ) → HasOnce missing → HasOnce (collect hashes missing)
unfolding collect
HasOnce-collect [] missing h = h
HasOnce-collect (x ∷ hashes) missing h =
    HasOnce-collect hashes (add x missing) (HasOnce-add x missing h)

abbrev pub entry_for : ℕ → ℕ → TransactionRequesterWorkerEntry
entry_for index hash = record { hash = hash; index = index }

abbrev pub asked : List ℕ → ℕ → Protocol → Protocol
asked hashes index p = record p {
  transaction_requester_worker = p.transaction_requester_worker ++ map (entry_for index) hashes;
}

request_all_lem :
    (hashes : List ℕ) (index : ℕ) (p : Protocol) → request_all hashes index p ≡ asked hashes index p
unfolding request_all
request_all_lem [] index p =
    ap (λ (q : List TransactionRequesterWorkerEntry). record p { transaction_requester_worker = q })
      (sym (append-nil p.transaction_requester_worker))
request_all_lem (h ∷ hashes) index p =
    request_all_lem hashes index (request_transaction h index p)
    ∙ ap
        (λ (q : List TransactionRequesterWorkerEntry). record p {
          transaction_requester_worker = q;
        })
        (append_assoc p.transaction_requester_worker (entry_for index h ∷ [])
          (map (entry_for index) hashes))

none_before : (b : Bool) → (if b then true else false) ≡ b
none_before true = refl
none_before false = refl

-- The end of `solidify`.
request_missing :
    (hashes : List ℕ) (index : ℕ) (p : Protocol)
    → (elim hashes as (λ x. Option (Protocol × Bool)) [
      | [] ↦ some (p, true)
      | missing ∷ others ↦ some (request_all (missing ∷ others) index p, false)
    ])
      ≡ some (asked hashes index p, is_empty hashes)
unfolding request_all
request_missing [] index p = ap (λ (q : Protocol). some (q, true)) (request_all_lem [] index p)
request_missing (x ∷ xs) index p =
    ap (λ (q : Protocol). some (q, false)) (request_all_lem (x ∷ xs) index p)

-- Solidification of a transaction ends. It requests, once each and with the given index, exactly
-- the hashes that have no vertex, are no entry points, and are led to from the transaction along trunks and
-- branches through vertices that are not solid; it changes nothing else, and answers whether none are missing.
pub solidify_requests :
    (root index : ℕ) (p : Protocol)
    → (hashes : List ℕ) × (solidify root index p ≡ some (asked hashes index p, is_empty hashes))
      × HasOnce hashes
      × ((hash : ℕ)
          → (has hash hashes ≡ true)
            ↔ (Leads not_solid p.tangle root hash × IsMissing p.tangle hash))
unfolding solidify has
solidify_requests root index p =
    let (calls, e, exactly) = walk_finds_missing not_solid root p.tangle in
    let same : (hash : ℕ) → has hash (collect calls.missing []) ≡ has hash calls.missing =
      λ hash. has-collect hash calls.missing [] ∙ none_before (has hash calls.missing) in
    (
      collect calls.missing [],
      rw (solidify, e) (request_missing (collect calls.missing []) index p),
      HasOnce-collect calls.missing [] tt,
      λ hash.
          let (to, back) = exactly hash in (λ h. to (sym (same hash) ∙ h), λ h. same hash ∙ back h),
    )
