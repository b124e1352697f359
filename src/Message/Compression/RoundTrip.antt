-- ===== src/Message/Compression/RoundTrip.antt =====
-- `compress_transaction_bytes` and `uncompress_transaction_bytes` of
-- bee-protocol/src/message/compression.rs, one after the other.
use mathlib.Core.Path.{subst}
use bee_p.Common.{
  ℕ, zero, suc, ◌+◌, ◌-◌, ◌≤◌, ◌<◌, ◌≡◌, ◌≢◌, refl, sym, ap, ◌∙◌, inl, inr, some, List, [], ◌∷◌,
  ◌++◌, length, replicate, get_elem?, ◌==◌, if◌then◌else◌, arith, take, drop, length-append,
  length-replicate, append_assoc, Bool-cases, ==_iff, length-take, take-append-drop, length-drop,
}
use native.Mathlib.Nat.{suc-add}
use bee_p.Common.Bytes.{split_at, split_at-append, copy_from_slice-eq, checked_sub-eq}
use bee_p.Message.Compression.{
  transaction_byte_len, non_payload_size, max_payload_size, trim, compress_transaction_bytes,
  uncompress_transaction_bytes,
}

abbrev cons_unless : ℕ → List ℕ → List ℕ
cons_unless x [] = if x == 0 then [] else x ∷ []
cons_unless x (y ∷ ys) = x ∷ y ∷ ys

-- The list without the zeros at its end.
abbrev pub strip : List ℕ → List ℕ
strip [] = []
strip (x ∷ xs) = cons_unless x (strip xs)

strip-zero : (xs : List ℕ) → strip (xs ++ (0 ∷ [])) ≡ strip xs
strip-zero [] = refl
strip-zero (x ∷ xs) = ap (cons_unless x) (strip-zero xs)

strip-ne_zero : (xs : List ℕ) (b : ℕ) → b ≢ 0 → strip (xs ++ (b ∷ [])) ≡ xs ++ (b ∷ [])
strip-ne_zero [] b h = ground arith
strip-ne_zero (x ∷ []) b h = ap (cons_unless x) (strip-ne_zero [] b h)
strip-ne_zero (x ∷ y ∷ xs) b h = ap (cons_unless x) (strip-ne_zero (y ∷ xs) b h)

length-strip : (xs : List ℕ) → length (strip xs) ≤ length xs
length-strip [] = omega arith
length-strip (x ∷ xs) = ground (arith, length-strip xs)

-- What was dropped is zeros.
zeros-step :
    (x : ℕ) (ys xs : List ℕ) (k : ℕ)
    → ys ++ replicate k 0 ≡ xs
    → (j : ℕ) × (cons_unless x ys ++ replicate j 0 ≡ x ∷ xs)
zeros-step x [] xs k e = elim (Bool-cases (x == 0)) [
  | inl z ↦ (suc k, rw z (ground (arith, e)))
  | inr n ↦ (k, rw n (ap (λ zs. x ∷ zs) e))
]
zeros-step x (y ∷ ys) xs k e = (k, ap (λ zs. x ∷ zs) e)

pub strip-zeros : (xs : List ℕ) → (k : ℕ) × (strip xs ++ replicate k 0 ≡ xs)
strip-zeros [] = (0, refl)
strip-zeros (x ∷ xs) = let (k, e) = strip-zeros xs in zeros-step x (strip xs) xs k e

take-suc :
    (i : ℕ) (xs : List ℕ)
    → i < length xs
    → (b : ℕ) × (get_elem? xs i ≡ some b) × (take (suc i) xs ≡ take i xs ++ (b ∷ []))
take-suc i [] h = absurd (omega arith)
take-suc zero (x ∷ xs) h = (x, refl, refl)
take-suc (suc i) (x ∷ xs) h =
    let (b, e, t) = take-suc i xs (omega arith) in (b, e, ap (λ ys. x ∷ ys) t)

trim_lem :
    (i : ℕ) (bytes : List ℕ) (trimmed : ℕ)
    → i ≤ length bytes
    → trim i bytes trimmed ≡ some (trimmed + (i - length (strip (take i bytes))))
unfolding trim
trim_lem zero bytes trimmed h = ap some (omega arith)
trim_lem (suc i) bytes trimmed h =
    let (b, e, t) = take-suc i bytes (omega arith) in
    elim (Bool-cases (b == 0)) [
      | inl z ↦
          let same : take (suc i) bytes ≡ take i bytes ++ (0 ∷ []) =
            t ∙ ap (λ (n : ℕ). take i bytes ++ (n ∷ [])) ((==_iff b 0).0 z) in
          rw (e, z, same, strip-zero (take i bytes))
            (trim_lem i bytes (trimmed + 1) (omega arith)
              ∙ ap some (omega (arith, length-strip (take i bytes), length-take i bytes)))
      | inr n ↦
          let whole : length (strip (take (suc i) bytes)) ≡ suc i =
            rw (t, strip-ne_zero (take i bytes) b (λ z. cc (n, (==_iff b 0).1 z)))
              (omega (arith, length-append (take i bytes) (b ∷ []), length-take i bytes)) in
          rw (e, n) (ap some (omega arith))
    ]

replicate-append : (a b : ℕ) → replicate {A = ℕ} (a + b) 0 ≡ replicate a 0 ++ replicate b 0
replicate-append zero b = ap (λ n. replicate {A = ℕ} n 0) (omega arith)
replicate-append (suc a) b =
    ap (λ n. replicate {A = ℕ} n 0) (suc-add a b) ∙ ap (λ ys. 0 ∷ ys) (replicate-append a b)

-- The bytes of a transaction, as its payload with the zeros at the end apart, and the rest.
record Parts (bytes : List ℕ) : Type 0 where
  kept : List ℕ
  zeros : ℕ
  rest : List ℕ
  whole : bytes ≡ kept ++ (replicate zeros 0 ++ rest)
  payload : strip (take max_payload_size bytes) ≡ kept
  payload_length : length kept + zeros ≡ max_payload_size
  rest_length : length rest ≡ non_payload_size
  at_rest : drop max_payload_size bytes ≡ rest

parts : (bytes : List ℕ) → length bytes ≡ transaction_byte_len → Parts bytes
parts bytes l =
    let (k, e) = strip-zeros (take max_payload_size bytes) in
    record {
      kept = strip (take max_payload_size bytes);
      zeros = k;
      rest = drop max_payload_size bytes;
      whole =
          sym (take-append-drop max_payload_size bytes)
          ∙ ap (λ ys. ys ++ drop max_payload_size bytes) (sym e)
          ∙ append_assoc (strip (take max_payload_size bytes)) (replicate k 0)
              (drop max_payload_size bytes);
      payload = refl;
      payload_length = omega (
        arith,
        ap length e,
        length-append (strip (take max_payload_size bytes)) (replicate k 0),
        length-replicate {A = ℕ} k 0,
        length-take max_payload_size bytes,
      );
      rest_length = omega (arith, length-drop max_payload_size bytes);
      at_rest = refl;
    }

split_at-replicate :
    (a b n : ℕ) → n ≡ a + b → split_at a (replicate n 0) ≡ some (replicate a 0, replicate b 0)
split_at-replicate a b n h =
    rw (h, replicate-append a b)
      (split_at-append a (replicate a 0) (replicate b 0) (length-replicate a 0))

module _ (kept rest : List ℕ) (zeros : ℕ) (payload_length : length kept + zeros ≡ max_payload_size)
    (rest_length : length rest ≡ non_payload_size) where
  abbrev whole : List ℕ
  whole = kept ++ (replicate zeros 0 ++ rest)

  -- The payload is what stands before the rest, with or without bytes in place of the latter.
  split_at-payload :
      (back : List ℕ)
      → split_at max_payload_size (kept ++ (replicate zeros 0 ++ back))
        ≡ some (kept ++ replicate zeros 0, back)
  split_at-payload back = rw (← append_assoc kept (replicate zeros 0) back) (
      split_at-append max_payload_size (kept ++ replicate zeros 0) back
        (omega (arith, length-append kept (replicate zeros 0), length-replicate {A = ℕ} zeros 0)))

  compress_eq :
      trim max_payload_size whole 0 ≡ some zeros
      → compress_transaction_bytes whole ≡ some (kept ++ rest)
  unfolding compress_transaction_bytes
  compress_eq trimmed =
      let kept_length : max_payload_size - zeros ≡ length kept = omega arith in
      rw (
        trimmed,
        kept_length,
        split_at-replicate (length kept) non_payload_size (length kept + non_payload_size) refl,
        split_at-append (length kept) kept (replicate zeros 0 ++ rest) refl,
        copy_from_slice-eq (replicate (length kept) 0) kept (length-replicate (length kept) 0),
        split_at-payload rest,
        copy_from_slice-eq (replicate non_payload_size 0) rest (sym rest_length),
      )

  uncompress_eq : uncompress_transaction_bytes (kept ++ rest) ≡ some whole
  unfolding uncompress_transaction_bytes
  uncompress_eq = rw (
    checked_sub-eq (length (kept ++ rest)) non_payload_size (length kept)
        (omega (arith, length-append kept rest)),
    split_at-replicate (length kept) (zeros + non_payload_size) transaction_byte_len (omega arith),
    split_at-append (length kept) kept rest refl,
    copy_from_slice-eq (replicate (length kept) 0) kept (length-replicate (length kept) 0),
    replicate-append zeros non_payload_size,
    split_at-payload (replicate non_payload_size 0),
    copy_from_slice-eq (replicate non_payload_size 0) rest (sym rest_length),
    append_assoc kept (replicate zeros 0) rest,
  )

-- The counting loop finds the zeros.
trim-Parts : (bytes : List ℕ) (p : Parts bytes) → trim max_payload_size bytes 0 ≡ some p.zeros
trim-Parts bytes p =
    trim_lem max_payload_size bytes 0 (
      omega (
        arith,
        ap length p.whole,
        length-append p.kept (replicate p.zeros 0 ++ p.rest),
        length-append (replicate p.zeros 0) p.rest,
        length-replicate {A = ℕ} p.zeros 0,
      ))
    ∙ rw p.payload (ap some (omega (arith, p.payload_length)))

compress-Parts :
    (bytes : List ℕ) (p : Parts bytes) → compress_transaction_bytes bytes ≡ some (p.kept ++ p.rest)
compress-Parts bytes p =
    ap compress_transaction_bytes p.whole
    ∙ compress_eq p.kept p.rest p.zeros p.payload_length p.rest_length
        (sym (ap (λ ys. trim max_payload_size ys 0) p.whole) ∙ trim-Parts bytes p)

-- Of the 1604 bytes of a transaction, compression keeps the payload without the zeros at its end,
-- and all that follows the payload.
pub compress_transaction_bytes_lem :
    (bytes : List ℕ)
    → length bytes ≡ transaction_byte_len
    → compress_transaction_bytes bytes
      ≡ some (strip (take max_payload_size bytes) ++ drop max_payload_size bytes)
compress_transaction_bytes_lem bytes l =
    let p : Parts bytes = parts bytes l in rw (p.payload, p.at_rest) (compress-Parts bytes p)

-- A transaction of 1604 bytes survives compression, which does not panic, and whose result has
-- between 292 and 1604 bytes: the size range of a broadcast.
pub compress_roundtrip :
    (bytes : List ℕ)
    → length bytes ≡ transaction_byte_len
    → (compressed : List ℕ) × (compress_transaction_bytes bytes ≡ some compressed)
      × (uncompress_transaction_bytes compressed ≡ some bytes)
      × (non_payload_size ≤ length compressed)
      × (length compressed ≤ transaction_byte_len)
compress_roundtrip bytes l =
    let p : Parts bytes = parts bytes l in
    (
      p.kept ++ p.rest,
      compress-Parts bytes p,
      uncompress_eq p.kept p.rest p.zeros p.payload_length p.rest_length ∙ ap some (sym p.whole),
      omega (arith, length-append p.kept p.rest, p.rest_length),
      omega (arith, length-append p.kept p.rest, p.rest_length, p.payload_length),
    )

-- What has between 292 and 1604 bytes is uncompressed to 1604 bytes, without a panic.
pub uncompress_answers :
    (bytes : List ℕ)
    → non_payload_size ≤ length bytes
    → length bytes ≤ transaction_byte_len
    → (out : List ℕ) × (uncompress_transaction_bytes bytes ≡ some out)
      × (length out ≡ transaction_byte_len)
uncompress_answers bytes low high =
    let n = length bytes - non_payload_size in
    let kept = take n bytes in
    let rest = drop n bytes in
    let kept_length : length kept ≡ n = omega (arith, length-take n bytes) in
    let rest_length : length rest ≡ non_payload_size = omega (arith, length-drop n bytes) in
    let zeros = max_payload_size - n in
    (
      whole kept rest zeros (omega arith) rest_length,
      subst
          (λ b.
            uncompress_transaction_bytes b ≡ some (whole kept rest zeros (omega arith) rest_length))
          (take-append-drop n bytes) (uncompress_eq kept rest zeros (omega arith) rest_length),
      omega (
        arith,
        length-append kept (replicate zeros 0 ++ rest),
        length-append (replicate zeros 0) rest,
        length-replicate {A = ℕ} zeros 0,
      ),
    )
