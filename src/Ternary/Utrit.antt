-- ===== src/Ternary/Utrit.antt =====
-- bee-ternary/src/trit: the trits from 0 to 2, and numbers with a digit in base 3 set.
use bee_p.Common.{ℕ, ◌+◌, ◌-◌, ◌*◌, ◌/◌, ◌%◌, ◌≤◌, ◌≡◌, ◌==◌, if◌then◌else◌, arith}
use bee_p.Ternary.{Btrit, neg_one, no_one, plus_one}

-- `Utrit::from_u8` of a digit, which is at most 2, then `Utrit::shift`; and `Btrit::shift`.
abbrev pub from_utrit : ℕ → Btrit
from_utrit u = if u == 0 then neg_one else if u == 1 then no_one else plus_one

abbrev pub into_utrit : Btrit → ℕ
into_utrit neg_one = 0
into_utrit no_one = 1
into_utrit plus_one = 2

-- A number with one of its digits in base 3 set.
abbrev pub set_digit : ℕ → ℕ → ℕ → ℕ
set_digit u d p = u + d * p - u / p % 3 * p

pub utrit_bound : (t : Btrit) → into_utrit t ≤ 2
utrit_bound t = ground arith

pub from_utrit-into_utrit : (t : Btrit) → from_utrit (into_utrit t) ≡ t
from_utrit-into_utrit t = ground arith
