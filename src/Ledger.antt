-- ===== src/Ledger.antt =====
-- bee-ledger/src/worker.rs. An address is a number that stands for its trits, a balance a `u64`, and
-- the entries of a diff come in the order of a list. The events are those that arrive before the
-- shutdown.
pub mod Balances
mod Tests
use bee_p.Common.{ℕ, Bool, Option, none, some, List, [], ◌∷◌, ◌++◌, if◌then◌else◌, ◌>>=◌}
use bee_p.Common.Int.{ℤ, pos, leb_ℤ, as_i64, as_u64, add_i64}
use bee_p.Common.Assoc.{Assoc, lookup, insert}

pub data LedgerWorkerEvent : Type 0 where
  event_apply_diff : Assoc ℤ → LedgerWorkerEvent
  event_get_balance : ℕ → LedgerWorkerEvent

-- The worker, with the answers that it has sent.
pub record LedgerWorker : Type 0 where
  pub state : Assoc ℕ
  pub answers : List (Option ℕ)

abbrev pub new : Assoc ℕ → LedgerWorker
new state = record { state = state; answers = [] }

-- The closure of `and_modify`.
unfoldable pub modify : Bool → ℕ → ℤ → Option ℕ
modify overflow_checks balance value = do
  sum ← add_i64 overflow_checks (as_i64 balance) value
  some (if leb_ℤ (pos 0) sum then as_u64 sum else balance)

unfoldable pub apply_entry : Bool → ℕ → ℤ → Assoc ℕ → Option (Assoc ℕ)
apply_entry overflow_checks key value state = elim (lookup key state) [
  | none ↦ some (insert key (as_u64 value) state)
  | some balance ↦ (do
    balance' ← modify overflow_checks balance value
    some (insert key balance' state))
]

unfoldable pub apply_diff : Bool → Assoc ℤ → Assoc ℕ → Option (Assoc ℕ)
apply_diff overflow_checks [] state = some state
apply_diff overflow_checks ((key, value) ∷ diff) state = do
  state' ← apply_entry overflow_checks key value state
  apply_diff overflow_checks diff state'

unfoldable pub get_balance : ℕ → LedgerWorker → LedgerWorker
get_balance address w = record w { answers = w.answers ++ (lookup address w.state ∷ []) }

unfoldable pub run : Bool → List LedgerWorkerEvent → LedgerWorker → Option LedgerWorker
run overflow_checks [] w = some w
run overflow_checks (event_apply_diff diff ∷ events) w = do
  state ← apply_diff overflow_checks diff w.state
  run overflow_checks events (record w { state = state })
run overflow_checks (event_get_balance address ∷ events) w =
    run overflow_checks events (get_balance address w)
