-- ===== src/Signing/Tests.antt =====
-- The normalized hash at concrete inputs.
use bee_p.Common.{◌≡◌, some, List, ◌++◌, replicate, arith}
use bee_p.Ternary.{Btrit, no_one, plus_one}
use bee_p.Signing.Normalize.{normalize_hash}
use bee_p.Signing.Normalize.Idempotent.{IsNormalized, normalize_hash-IsNormalized}

abbrev ones : List Btrit
ones = replicate 5 plus_one ++ replicate 238 no_one

normalize_hash-IsNormalized_example :
    (trits : List Btrit) × (normalize_hash ones ≡ some trits) × IsNormalized trits
normalize_hash-IsNormalized_example = normalize_hash-IsNormalized ones (ground arith)
