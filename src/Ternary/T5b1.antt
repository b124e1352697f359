-- ===== src/Ternary/T5b1.antt =====
-- bee-ternary/src/t5b1.rs: five trits in a byte. A byte is an `i8`, from -121 to 121 where it is valid.
pub mod Places
pub mod RoundTrip
use bee_p.Common.{
  ℕ, zero, suc, ◌+◌, ◌-◌, ◌*◌, ◌/◌, ◌%◌, ◌^◌, ◌&&◌, Bool, true, false, Option, none, some, List, [],
  ◌∷◌, ◌++◌, take, leb, ◌==◌, if◌then◌else◌,
}
use bee_p.Common.Int.{ℤ, pos, pos_part, neg_part, sub_ℕ}
use bee_p.Ternary.Utrit.{from_utrit, into_utrit}
use bee_p.Ternary.{Btrit}

-- `x + BAL` of a byte that is in range.
abbrev pub shifted : ℤ → ℕ
shifted x = pos_part x + 121 - neg_part x

unfoldable pub extract : ℤ → ℕ → Btrit
extract x elem = from_utrit (shifted x / 3 ^ elem % 3)

-- The digit that is there is taken away before the new one is added.
unfoldable pub insert : ℤ → ℕ → Btrit → ℤ
insert x elem trit =
    sub_ℕ (shifted x + into_utrit trit * 3 ^ elem) (shifted x / 3 ^ elem % 3 * 3 ^ elem + 121)

abbrev pub is_valid : ℤ → Bool
is_valid b = leb (neg_part b) 121 && leb (pos_part b) 121

-- A vector of bytes, and the number of trits.
pub record T5b1Buf : Type 0 where
  pub bytes : List ℤ
  pub len : ℕ

-- `insert` into the last byte
unfoldable pub insert_last : ℕ → Btrit → List ℤ → List ℤ
insert_last elem trit [] = []
insert_last elem trit (x ∷ []) = insert x elem trit ∷ []
insert_last elem trit (x ∷ y ∷ ys) = x ∷ insert_last elem trit (y ∷ ys)

unfoldable pub push : Btrit → T5b1Buf → T5b1Buf
push trit b = record {
  bytes =
      if b.len % 5 == 0
      then b.bytes ++ (insert (pos 0) 0 trit ∷ [])
      else insert_last (b.len % 5) trit b.bytes;
  len = b.len + 1;
}

-- `collect` of trits: they are pushed one by one.
unfoldable pub push_all : List Btrit → T5b1Buf → T5b1Buf
push_all [] b = b
push_all (t ∷ ts) b = push_all ts (push t b)

unfoldable pub encode_t5b1 : List Btrit → T5b1Buf
encode_t5b1 trits = push_all trits (record { bytes = []; len = 0 })

-- The trits of all bytes.
unfoldable pub extract_all : List ℤ → List Btrit
extract_all [] = []
extract_all (x ∷ xs) =
    extract x 0 ∷ extract x 1 ∷ extract x 2 ∷ extract x 3 ∷ extract x 4 ∷ extract_all xs

-- `get_unchecked` at each index below the length.
unfoldable pub decode_t5b1 : T5b1Buf → List Btrit
decode_t5b1 b = take b.len (extract_all b.bytes)

unfoldable pub all_valid : List ℤ → Bool
all_valid [] = true
all_valid (x ∷ xs) = let rest = all_valid xs in if is_valid x then rest else false

-- `Trits::try_from_raw`, `none` where a byte is not valid.
unfoldable pub try_from_raw : List ℤ → ℕ → Option T5b1Buf
try_from_raw raw num_trits =
    if all_valid raw then some (record { bytes = raw; len = num_trits }) else none
