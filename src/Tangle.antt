-- ===== src/Tangle.antt =====
-- bee-tangle/src/{tangle,vertex}.rs: the graph of the transactions. A `Hash` is a number that stands
-- for its trits (`hash_number`).
pub mod Solidifier
pub mod Walk
pub mod Hash
mod Tests
use bee_p.Common.{
  ℕ, ◌+◌, ◌*◌, Bool, true, false, Option, none, some, List, [], ◌∷◌, ◌++◌, length, ◌==◌, not,
  if◌then◌else◌,
}
use bee_p.Common.Assoc.{Assoc, lookup, insert, erase, is_some}
use bee_p.Common.Set.{has, remove, add}
use bee_p.Bundle.Transaction.{Trits, Transaction}
use bee_p.Ternary.Utrit.{into_utrit}

-- The numbers of 243 trits, `HashMap` keys here. The first trit counts least.
unfoldable pub hash_number : Trits → ℕ
hash_number [] = 0
hash_number (t ∷ ts) = into_utrit t + 3 * hash_number ts

-- What the tangle reads of a transaction, and the whole transaction.
pub record TransactionRef : Type 0 where
  pub trunk : ℕ
  pub branch : ℕ
  pub index : ℕ
  pub content : Transaction

-- `TransactionRef(Arc<Transaction>)`
abbrev pub transaction_ref : Transaction → TransactionRef
transaction_ref t = record {
  trunk = hash_number t.trunk;
  branch = hash_number t.branch;
  index = t.index;
  content = t;
}

pub record Flags : Type 0 where
  pub solid : Bool
  pub tail : Bool
  pub requested : Bool
  pub milestone : Bool

pub record Vertex : Type 0 where
  pub id : ℕ
  pub inner : TransactionRef
  pub flags : Flags

abbrev pub vertex_from : TransactionRef → ℕ → Vertex
vertex_from transaction hash = record {
  id = hash;
  inner = transaction;
  flags = record {
    solid = false;
    tail = transaction.index == 0;
    requested = false;
    milestone = false;
  };
}

abbrev pub is_solid : Vertex → Bool
is_solid v = v.flags.solid

abbrev pub set_solid : Vertex → Vertex
set_solid v = record v { flags = record (v.flags) { solid = true } }

abbrev pub set_milestone : Vertex → Vertex
set_milestone v = record v { flags = record (v.flags) { milestone = true } }

-- `solidifier_send` holds what was sent and not yet received.
pub record Tangle : Type 0 where
  pub vertices : Assoc Vertex
  pub approvers : Assoc (List ℕ)
  pub milestones : Assoc ℕ
  pub solid_entry_points : List ℕ
  pub solidifier_send : List ℕ
  pub solid_milestone_index : ℕ
  pub snapshot_milestone_index : ℕ
  pub last_milestone_index : ℕ

abbrev pub new : Tangle
new = record {
  vertices = [];
  approvers = [];
  milestones = [];
  solid_entry_points = [];
  solidifier_send = [];
  solid_milestone_index = 0;
  snapshot_milestone_index = 0;
  last_milestone_index = 0;
}

-- What an entry of `approvers` holds; none are there where there is no entry.
unfoldable pub approvers_of : ℕ → Tangle → List ℕ
approvers_of hash t = elim (lookup hash t.approvers) [ none ↦ [] | some hashes ↦ hashes ]

-- `self.approvers.entry(approvee)`, occupied or vacant.
unfoldable pub approve : ℕ → ℕ → Tangle → Tangle
approve approvee hash t = record t {
  approvers = insert approvee (approvers_of approvee t ++ (hash ∷ [])) t.approvers;
}

unfoldable pub approve_branch : TransactionRef → ℕ → Tangle → Tangle
approve_branch transaction hash t =
    if not (transaction.trunk == transaction.branch) then approve transaction.branch hash t else t

unfoldable pub store : TransactionRef → ℕ → Tangle → Tangle
store transaction hash t = record t {
  vertices = insert hash (vertex_from transaction hash) t.vertices;
}

unfoldable pub send : ℕ → Tangle → Tangle
send hash t = record t { solidifier_send = t.solidifier_send ++ (hash ∷ []) }

unfoldable pub insert_transaction : TransactionRef → ℕ → Tangle → Tangle × Option TransactionRef
insert_transaction transaction hash t =
    let t' = approve_branch transaction hash (approve transaction.trunk hash t) in
    if is_some (lookup hash t'.vertices)
    then (store transaction hash t', none)
    else (send hash (store transaction hash t'), some transaction)

abbrev pub inner_of : Option Vertex → Option TransactionRef
inner_of none = none
inner_of (some v) = some v.inner

abbrev pub get_transaction : ℕ → Tangle → Option TransactionRef
get_transaction hash t = inner_of (lookup hash t.vertices)

abbrev pub contains_transaction : ℕ → Tangle → Bool
contains_transaction hash t = is_some (lookup hash t.vertices)

abbrev pub is_solid_entry_point : ℕ → Tangle → Bool
is_solid_entry_point hash t = has hash t.solid_entry_points

unfoldable pub is_solid_transaction : ℕ → Tangle → Bool
is_solid_transaction hash t =
    if is_solid_entry_point hash t
    then true
    else elim (lookup hash t.vertices) [ none ↦ false | some v ↦ is_solid v ]

unfoldable pub add_milestone : ℕ → ℕ → Tangle → Tangle
add_milestone index hash t = record t {
  milestones = insert index hash t.milestones;
  vertices = elim (lookup hash t.vertices) [
    | none ↦ t.vertices
    | some v ↦ insert hash (set_milestone v) t.vertices
  ];
}

abbrev pub remove_milestone : ℕ → Tangle → Tangle
remove_milestone index t = record t { milestones = erase index t.milestones }

abbrev pub get_milestone_hash : ℕ → Tangle → Option ℕ
get_milestone_hash index t = lookup index t.milestones

abbrev pub contains_milestone : ℕ → Tangle → Bool
contains_milestone index t = is_some (lookup index t.milestones)

unfoldable pub get_milestone : ℕ → Tangle → Option TransactionRef
get_milestone index t = elim (get_milestone_hash index t) [
  | none ↦ none
  | some hash ↦ get_transaction hash t
]

abbrev pub update_solid_milestone_index : ℕ → Tangle → Tangle
update_solid_milestone_index new_index t = record t { solid_milestone_index = new_index }

abbrev pub update_snapshot_milestone_index : ℕ → Tangle → Tangle
update_snapshot_milestone_index new_index t = record t { snapshot_milestone_index = new_index }

abbrev pub update_last_milestone_index : ℕ → Tangle → Tangle
update_last_milestone_index new_index t = record t { last_milestone_index = new_index }

abbrev pub add_solid_entry_point : ℕ → Tangle → Tangle
add_solid_entry_point hash t = record t { solid_entry_points = add hash t.solid_entry_points }

abbrev pub remove_solid_entry_point : ℕ → Tangle → Tangle
remove_solid_entry_point hash t = record t { solid_entry_points = remove hash t.solid_entry_points }

abbrev pub is_synced : Tangle → Bool
is_synced t = t.solid_milestone_index == t.last_milestone_index

abbrev pub size : Tangle → ℕ
size t = length t.vertices
