-- ===== src/Tangle/Solidifier/System.antt =====
-- The tangle, the solidifier thread of bee-tangle/src/solidifier.rs and the threads that insert
-- transactions, as a step relation: which thread goes on is left open.
use bee_p.Common.{ℕ, ◌≡◌, none, List, [], ◌∷◌, ◌++◌}
use bee_p.Common.Assoc.{lookup}
use bee_p.Tangle.{Tangle, TransactionRef, approve, approve_branch, store, send, add_milestone}
use bee_p.Tangle.Solidifier.{Loop, visit}

-- The tangle; the loop of the solidifier; and the insertions that have entered the transaction at its
-- trunk, at both its parents, and among the vertices.
pub record System : Type 0 where
  pub tangle : Tangle
  pub loop : Loop
  pub at_trunk : List (TransactionRef × ℕ)
  pub at_parents : List (TransactionRef × ℕ)
  pub stored : List ℕ

-- Each insertion takes the steps of `insert_transaction`, each at any time; a hash that is stored is
-- new. The solidifier receives a hash when its stack is empty, and does a round of its loop when it
-- is not. Milestones are added at any time.
pub data Step : System → System → Type 0 where
  insert_at_trunk :
      (s : System) (transaction : TransactionRef) (hash : ℕ)
      → Step s (record s {
        tangle = approve transaction.trunk hash s.tangle;
        at_trunk = (transaction, hash) ∷ s.at_trunk;
      })
  insert_at_branch :
      (s : System) (transaction : TransactionRef) (hash : ℕ) (pre post : List (TransactionRef × ℕ))
      → s.at_trunk ≡ pre ++ ((transaction, hash) ∷ post)
      → Step s (record s {
        tangle = approve_branch transaction hash s.tangle;
        at_trunk = pre ++ post;
        at_parents = (transaction, hash) ∷ s.at_parents;
      })
  insert_vertex :
      (s : System) (transaction : TransactionRef) (hash : ℕ) (pre post : List (TransactionRef × ℕ))
      → s.at_parents ≡ pre ++ ((transaction, hash) ∷ post)
      → lookup hash s.tangle.vertices ≡ none
      → Step s (record s {
        tangle = store transaction hash s.tangle;
        at_parents = pre ++ post;
        stored = hash ∷ s.stored;
      })
  send_hash :
      (s : System) (hash : ℕ) (pre post : List ℕ)
      → s.stored ≡ pre ++ (hash ∷ post)
      → Step s (record s { tangle = send hash s.tangle; stored = pre ++ post })
  receive_hash :
      (s : System) (hash : ℕ) (rest : List ℕ)
      → s.loop.stack ≡ []
      → s.tangle.solidifier_send ≡ hash ∷ rest
      → Step s (record s {
        tangle = record (s.tangle) { solidifier_send = rest };
        loop = record { stack = hash ∷ []; already_solid = [] };
      })
  visit_hash :
      (s : System) (hash : ℕ) (rest : List ℕ)
      → s.loop.stack ≡ hash ∷ rest
      → Step s (record s {
        tangle = (visit hash rest s.loop.already_solid s.tangle).1;
        loop = (visit hash rest s.loop.already_solid s.tangle).0;
      })
  mark_milestone :
      (s : System) (index hash : ℕ)
      → Step s (record s { tangle = add_milestone index hash s.tangle })

pub data Reach (s : System) : System → Type 0 where
  here : Reach s s
  next : {t u : System} → Reach s t → Step t u → Reach s u

-- A tangle with entry points and no transactions.
abbrev pub initial : List ℕ → System
initial entry_points = record {
  tangle = record {
    vertices = [];
    approvers = [];
    milestones = [];
    solid_entry_points = entry_points;
    solidifier_send = [];
    solid_milestone_index = 0;
    snapshot_milestone_index = 0;
    last_milestone_index = 0;
  };
  loop = record { stack = []; already_solid = [] };
  at_trunk = [];
  at_parents = [];
  stored = [];
}

-- Nothing is left to do for the threads that are under way.
pub record IsIdle (s : System) : Type 0 where
  pub no_stack : s.loop.stack ≡ []
  pub none_sent : s.tangle.solidifier_send ≡ []
  pub none_stored : s.stored ≡ []
