-- ===== src/Ternary/T5b1/RoundTrip.antt =====
-- Trits that are packed by bee-ternary/src/t5b1.rs and read back.
use bee_p.Common.{
  ℕ, suc, ◌+◌, ◌-◌, ◌*◌, ◌/◌, ◌%◌, ◌≤◌, ◌<◌, ◌≡◌, refl, sym, ap, true, List, [], ◌∷◌, ◌++◌,
  append-nil, append_assoc, length, length-append, take, All, All-append, arith, inl, inr, some,
  Bool-cases, ◌==◌,
}
use bee_p.Common.Int.{ℤ, pos}
use bee_p.Ternary.{Btrit}
use bee_p.Ternary.T5b1.{
  is_valid, T5b1Buf, insert, extract_all, insert_last, push, push_all, encode_t5b1, decode_t5b1,
  all_valid, try_from_raw,
}
use bee_p.Ternary.T5b1.Places.{IsByte, five, take-insert}

IsByte-is_valid : (x : ℤ) → IsByte x → is_valid x ≡ true
IsByte-is_valid x h = ground arith

all_valid-bytes : (xs : List ℤ) → All IsByte xs → all_valid xs ≡ true
unfolding all_valid
all_valid-bytes [] h = refl
all_valid-bytes (x ∷ xs) (b, h) = rw (IsByte-is_valid x b, all_valid-bytes xs h) refl

pub length-extract_all : (xs : List ℤ) → length (extract_all xs) ≡ 5 * length xs
unfolding extract_all
length-extract_all [] = refl
length-extract_all (x ∷ xs) = omega (arith, length-extract_all xs)

-- A byte behind the others, of which one trit counts.
take-snoc :
    (n : ℕ) (xs : List ℤ) (y : ℤ) (t : Btrit)
    → n ≡ 5 * length xs
    → take 1 (five y) ≡ t ∷ []
    → take (suc n) (extract_all (xs ++ (y ∷ []))) ≡ take n (extract_all xs) ++ (t ∷ [])
unfolding extract_all
take-snoc n [] y t e h = rw (e) h
take-snoc n (x ∷ xs) y t e h =
    let m = n - 5 in
    let n-suc : n ≡ suc (suc (suc (suc (suc m)))) = omega arith in
    rw (n-suc, take-snoc m xs y t (omega arith) h) refl

take-insert_last :
    (r n : ℕ) (xs : List ℤ) (t : Btrit)
    → n + 5 ≡ 5 * length xs + r
    → r < 5
    → 1 ≤ length xs
    → All IsByte xs
    → (take (suc n) (extract_all (insert_last r t xs)) ≡ take n (extract_all xs) ++ (t ∷ []))
      × All IsByte (insert_last r t xs)
      × (length (insert_last r t xs) ≡ length xs)
unfolding extract_all insert_last
take-insert_last r n [] t e l one h = absurd (omega arith)
take-insert_last r n (x ∷ []) t e l one (b, h) =
    let n-r : n ≡ r = omega arith in
    let (read, byte) = take-insert x r t l b in (rw (n-r) read, (byte, h), refl)
take-insert_last r n (x ∷ y ∷ ys) t e l one (b, h) =
    let m = n - 5 in
    let n-suc : n ≡ suc (suc (suc (suc (suc m)))) = omega arith in
    let (read, bytes, size) = take-insert_last r m (y ∷ ys) t (omega arith) l (omega arith) h in
    (rw (n-suc, read) refl, (b, bytes), ap suc size)

-- The bytes are valid, and just as many as the trits need.
pub record IsPacked (b : T5b1Buf) : Type 0 where
  pub bytes_valid : All IsByte b.bytes
  pub enough : b.len ≤ 5 * length b.bytes
  pub tight : 5 * length b.bytes ≤ b.len + 4

packed :
    (xs : List ℤ) (n : ℕ)
    → All IsByte xs
    → n ≤ 5 * length xs
    → 5 * length xs ≤ n + 4
    → IsPacked (record { bytes = xs; len = n })
packed xs n h enough tight = record { bytes_valid = h; enough = enough; tight = tight }

push_lem :
    (t : Btrit) (b : T5b1Buf)
    → IsPacked b
    → IsPacked (push t b) × (decode_t5b1 (push t b) ≡ decode_t5b1 b ++ (t ∷ []))
unfolding push decode_t5b1
push_lem t b p = elim (Bool-cases (b.len % 5 == 0)) [
  | inl c ↦
      let full : b.len ≡ 5 * length b.bytes = ground (arith, p.enough, p.tight) in
      let (read, byte) = take-insert (pos 0) 0 t (omega arith) (omega arith, omega arith) in
      let made = insert (pos 0) 0 t in
      let size = length-append b.bytes (made ∷ []) in
      let bytes = All-append IsByte b.bytes (made ∷ []) p.bytes_valid (byte, tt) in
      let one : b.len + 1 ≡ suc b.len = omega arith in
      rw (c, one)
        (
          packed (b.bytes ++ (made ∷ [])) (suc b.len) bytes (omega arith) (omega arith),
          take-snoc b.len b.bytes made t full read,
        )
  | inr c ↦
      let enough = p.enough in
      let tight = p.tight in
      let part : 1 ≤ b.len % 5 = ground arith in
      let e : b.len + 5 ≡ 5 * length b.bytes + b.len % 5 = omega arith in
      let (read, bytes, size) =
        take-insert_last (b.len % 5) b.len b.bytes t e (omega arith) (omega arith) p.bytes_valid in
      let one : b.len + 1 ≡ suc b.len = omega arith in
      rw (c, one)
        (
          packed (insert_last (b.len % 5) t b.bytes) (suc b.len) bytes (omega arith) (omega arith),
          read,
        )
]

length-push : (t : Btrit) (b : T5b1Buf) → (push t b).len ≡ b.len + 1
unfolding push
length-push t b = refl

push_all_lem :
    (ts : List Btrit) (b : T5b1Buf)
    → IsPacked b
    → IsPacked (push_all ts b)
      × (decode_t5b1 (push_all ts b) ≡ decode_t5b1 b ++ ts)
      × ((push_all ts b).len ≡ b.len + length ts)
unfolding push_all
push_all_lem [] b p = (p, sym (append-nil (decode_t5b1 b)), omega arith)
push_all_lem (t ∷ ts) b p =
    let (packed_t, read_t) = push_lem t b p in
    let (packed_ts, read_ts, size) = push_all_lem ts (push t b) packed_t in
    (
      packed_ts,
      rw (read_ts, read_t) (append_assoc (decode_t5b1 b) (t ∷ []) ts),
      omega (arith, length-push t b),
    )

pub encode_t5b1-IsPacked : (ts : List Btrit) → IsPacked (encode_t5b1 ts)
unfolding encode_t5b1
encode_t5b1-IsPacked ts =
    (push_all_lem ts (record { bytes = []; len = 0 })
      (packed [] 0 tt (omega arith) (omega arith))).0

-- Trits that are packed five to a byte take no byte more than they need, all bytes are valid, and
-- `try_from_raw` on the bytes and the number of trits gives a buffer that holds the same trits.
pub try_from_raw-encode_t5b1 :
    (ts : List Btrit)
    → (length (encode_t5b1 ts).bytes ≡ (length ts + 4) / 5)
      × ((encode_t5b1 ts).len ≡ length ts)
      × (try_from_raw (encode_t5b1 ts).bytes (length ts) ≡ some (encode_t5b1 ts))
      × (decode_t5b1 (encode_t5b1 ts) ≡ ts)
unfolding encode_t5b1 try_from_raw decode_t5b1 extract_all
try_from_raw-encode_t5b1 ts =
    let (p, read, size) =
      push_all_lem ts (record { bytes = []; len = 0 })
        (packed [] 0 tt (omega arith) (omega arith)) in
    let enough = p.enough in
    let tight = p.tight in
    let size' : (encode_t5b1 ts).len ≡ length ts = omega arith in
    (
      omega arith,
      size',
      rw (all_valid-bytes (encode_t5b1 ts).bytes p.bytes_valid, sym size') refl,
      read,
    )
