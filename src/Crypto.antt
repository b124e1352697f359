-- ===== src/Crypto.antt =====
-- `CurlP` of bee-crypto/src/sponge/curlp.rs, with the methods of bee-crypto/src/sponge/sponge.rs. A
-- panic is `none`.
pub mod Reference
pub mod Rounds
mod Tests
use bee_p.Common.{
  ℕ, zero, suc, ◌+◌, ◌-◌, ◌*◌, ◌%◌, ◌==◌, Option, none, some, List, [], ◌∷◌, ◌++◌, length, take,
  drop, get_elem?, if◌then◌else◌, ◌>>=◌,
}
use bee_p.Common.Int.{ℤ, pos, negsuc, pos_part, ◌+ℤ◌}
use bee_p.Ternary.{Btrit, neg_one, no_one, plus_one, trit_value, zeros}

abbrev pub hash_len : ℕ
hash_len = 243

abbrev pub state_len : ℕ
state_len = 729

abbrev pub half_state_len : ℕ
half_state_len = 364

abbrev pub truth_table : List ℤ
truth_table =
    pos 1
    ∷ pos 0
    ∷ negsuc 0
    ∷ pos 2
    ∷ pos 1
    ∷ negsuc 0
    ∷ pos 0
    ∷ pos 2
    ∷ negsuc 0
    ∷ pos 1
    ∷ pos 0
    ∷ []

pub record CurlP : Type 0 where
  pub rounds : ℕ
  pub state : List Btrit
  pub work_state : List Btrit

abbrev pub new : ℕ → CurlP
new rounds = record { rounds = rounds; state = zeros state_len; work_state = zeros state_len }

-- `<< 2` of a trit
abbrev pub shl_2 : Btrit → ℤ
shl_2 neg_one = negsuc 3
shl_2 no_one = pos 0
shl_2 plus_one = pos 4

unfoldable pub calculate_truth_table_index : Btrit → Btrit → ℕ
calculate_truth_table_index x y = pos_part (trit_value x +ℤ shl_2 y +ℤ pos 5)

-- `try_into().unwrap()` of a number
abbrev pub try_into : ℤ → Option Btrit
try_into (pos zero) = some no_one
try_into (pos (suc zero)) = some plus_one
try_into (pos (suc (suc n))) = none
try_into (negsuc zero) = some neg_one
try_into (negsuc (suc n)) = none

unfoldable pub substitute : List Btrit → ℕ → ℕ → Option Btrit
substitute input p q = do
  x ← get_elem? input p
  y ← get_elem? input q
  value ← get_elem? truth_table (calculate_truth_table_index x y)
  try_into value

-- The loop from `state_index` on. The writes go through the output place by place.
unfoldable pub substitute_from : ℕ → ℕ → List Btrit → Option (List Btrit)
substitute_from zero state_index input = some []
substitute_from (suc n) state_index input = do
  a ← substitute input (half_state_len - state_index) (state_len - state_index - 1)
  b ← substitute input (state_len - state_index - 1) (half_state_len - state_index - 1)
  rest ← substitute_from n (state_index + 1) input
  some (a ∷ b ∷ rest)

unfoldable pub apply_substitution_box : List Btrit → Option (List Btrit)
apply_substitution_box input = do
  first ← substitute input 0 half_state_len
  rest ← substitute_from half_state_len 0 input
  some (first ∷ rest)

-- The loop over the rounds. `swap` exchanges the two buffers themselves.
unfoldable pub run_rounds : ℕ → CurlP → Option CurlP
run_rounds zero c = some c
run_rounds (suc n) c = do
  output ← apply_substitution_box c.state
  run_rounds n (record c { state = output; work_state = c.state })

abbrev pub swap : CurlP → CurlP
swap c = record c { state = c.work_state; work_state = c.state }

unfoldable pub transform : CurlP → Option CurlP
transform c = do c' ← run_rounds c.rounds c; some (if c.rounds % 2 == 0 then swap c' else c')

abbrev pub write_chunk : List Btrit → CurlP → CurlP
write_chunk chunk c = record c { state = chunk ++ drop (length chunk) c.state }

-- The loop over the chunks. The fuel is the length of the input: each round takes a trit or more.
unfoldable pub absorb_from : ℕ → List Btrit → CurlP → Option CurlP
absorb_from zero input c = some c
absorb_from (suc fuel) [] c = some c
absorb_from (suc fuel) (t ∷ ts) c = do
  c' ← transform (write_chunk (take hash_len (t ∷ ts)) c)
  absorb_from fuel (drop hash_len (t ∷ ts)) c'

unfoldable pub absorb : List Btrit → CurlP → Option CurlP
absorb input c = absorb_from (length input) input c

abbrev pub reset : CurlP → CurlP
reset c = record c { state = zeros (length c.state) }

-- One chunk of output.
unfoldable pub squeeze : CurlP → Option (CurlP × List Btrit)
squeeze c = do c' ← transform c; some (c', take hash_len c.state)

unfoldable pub digest : List Btrit → CurlP → Option (CurlP × List Btrit)
digest input c = do
  absorbed ← absorb input c
  (squeezed, output) ← squeeze absorbed
  some (reset squeezed, output)
