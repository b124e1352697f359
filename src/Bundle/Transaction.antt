-- ===== src/Bundle/Transaction.antt =====
-- bee-bundle/src/transaction/{transaction,fields}.rs and bee-bundle/src/constants.rs: the types.
use bee_p.Common.{ℕ, Bool, true, false, List, [], ◌∷◌, ◌==◌, if◌then◌else◌}
use bee_p.Common.Int.{ℤ}
use bee_p.Ternary.{Btrit, same_trit, TritsI64ConversionError}

abbrev pub Trits : Type 0
Trits = List Btrit

abbrev pub iota_supply : ℕ
iota_supply = 2779530283277761

-- The `&'static str` of an error.
pub data FieldName : Type 0 where
  payload address value obsolete_tag timestamp index last_index bundle trunk branch tag
        attachment_ts attachment_lbts attachment_ubts nonce :
      FieldName

pub data TransactionError : Type 0 where
  invalid_numeric_field : FieldName → TritsI64ConversionError → TransactionError
  missing_field : FieldName → TransactionError
  invalid_value : ℤ → TransactionError
  invalid_address : TransactionError

-- The value is an `i64`, the timestamps are `u64`, the indices `usize`.
pub record Transaction : Type 0 where
  pub payload : Trits
  pub address : Trits
  pub value : ℤ
  pub obsolete_tag : Trits
  pub timestamp : ℕ
  pub index : ℕ
  pub last_index : ℕ
  pub bundle : Trits
  pub trunk : Trits
  pub branch : Trits
  pub tag : Trits
  pub attachment_ts : ℕ
  pub attachment_lbts : ℕ
  pub attachment_ubts : ℕ
  pub nonce : Trits

abbrev pub is_tail : Transaction → Bool
is_tail t = t.index == 0

abbrev pub is_head : Transaction → Bool
is_head t = t.index == t.last_index

-- `PartialEq` of `Hash`: the trits in pairs.
unfoldable pub hash_eq : Trits → Trits → Bool
hash_eq (x ∷ xs) (y ∷ ys) = let rest = hash_eq xs ys in if same_trit x y then rest else false
hash_eq _ _ = true

-- Equality of vectors.
unfoldable pub trits_eq : Trits → Trits → Bool
trits_eq [] [] = true
trits_eq (x ∷ xs) (y ∷ ys) = let rest = trits_eq xs ys in if same_trit x y then rest else false
trits_eq _ _ = false
