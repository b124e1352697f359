-- ===== src/Bundle/Samples.antt =====
-- A transaction (bee-bundle/src/transaction/transaction.rs) for the tests.
use bee_p.Common.{arith, refl, inl}
use bee_p.Common.Int.{pos}
use bee_p.Ternary.{zeros}
use bee_p.Bundle.Transaction.{Transaction}
use bee_p.Bundle.IntoTrits.Writes.{IsValid}

-- The transaction of 8019 zeros.
abbrev pub blank : Transaction
blank = record {
  payload = zeros 6561;
  address = zeros 243;
  value = pos 0;
  obsolete_tag = zeros 81;
  timestamp = 0;
  index = 0;
  last_index = 0;
  bundle = zeros 243;
  trunk = zeros 243;
  branch = zeros 243;
  tag = zeros 81;
  attachment_ts = 0;
  attachment_lbts = 0;
  attachment_ubts = 0;
  nonce = zeros 81;
}

pub blank-IsValid : IsValid blank
unfolding zeros
blank-IsValid = record {
  payload = refl;
  address = refl;
  value = omega arith;
  obsolete_tag = refl;
  timestamp = omega arith;
  index = omega arith;
  last_index = omega arith;
  bundle = refl;
  trunk = refl;
  branch = refl;
  tag = refl;
  attachment_ts = omega arith;
  attachment_lbts = omega arith;
  attachment_ubts = omega arith;
  nonce = refl;
  address_fits = inl refl;
}
