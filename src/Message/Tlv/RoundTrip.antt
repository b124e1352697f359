-- ===== src/Message/Tlv/RoundTrip.antt =====
-- The encoding of bee-protocol/src/message/tlv/tlv.rs on lawful messages.
use bee_p.Common.{
  ℕ, ◌+◌, ◌%◌, ◌^◌, ◌<◌, ◌≡◌, ◌≢◌, ◌↔◌, inl, inr, none, some, List, ◌++◌, length, replicate, take,
  drop, true, Bool-cases, ok, arith, length-replicate, length-append, ap, ◌∙◌, ==_iff, refl,
  take-append, drop-append,
}
use bee_p.Common.Bytes.{AreBytes, split_at, split_at-parts, length-to_be_bytes}
use native.Mathlib.Nat.{mod-eq_of_lt}
use bee_p.Message.{Message, contains, IsLawful}
use bee_p.Message.Header
use bee_p.Message.Header.{Header, header_size, header_bytes, to_bytes-eq, from_bytes-header_bytes}
use bee_p.Message.Tlv.{tlv_from_bytes, tlv_into_bytes}

module _ {M : Type 0} (m : Message M) (IsValid : M → Type 0) (layout : M → List ℕ)
    (law : IsLawful m IsValid layout) where
  -- The header of a message with these bytes.
  abbrev pub header_of : List ℕ → Header
  header_of bytes = record { message_type = m.id; message_length = length bytes }

  pub range_small :
      (bytes : List ℕ) → contains m.size_range (length bytes) ≡ true → length bytes < 2 ^ 16
  range_small bytes r = ground (arith, law.range_word)

  header_eq :
      (h : Header) (bytes : List ℕ)
      → h.message_type ≡ m.id
      → h.message_length ≡ length bytes
      → h ≡ header_of bytes
  header_eq h bytes t l = ground arith

  length-header_bytes : (h : Header) → header_size ≡ length (header_bytes h)
  length-header_bytes h = omega (arith, length-to_be_bytes 2 h.message_length)

  -- `tlv_into_bytes` once its buffer is split.
  tlv_into_bytes-split :
      (x : M) (front back : List ℕ)
      → IsValid x
      → contains m.size_range (length (layout x)) ≡ true
      → split_at header_size (replicate (header_size + m.size x) 0) ≡ some (front, back)
      → length front ≡ header_size
      → length back ≡ length (layout x)
      → tlv_into_bytes m x ≡ some (header_bytes (header_of (layout x)) ++ layout x)
  unfolding tlv_into_bytes
  tlv_into_bytes-split x front back v r split f b = rw (
    split,
    ap (λ n. n % 2 ^ 16) (law.sizes x v) ∙ mod-eq_of_lt (range_small (layout x) r),
    to_bytes-eq (header_of (layout x)) front f,
    law.writes x back v b,
  )

  -- A valid message is written as its header and its layout.
  pub tlv_into_bytes-layout :
      (x : M)
      → IsValid x
      → contains m.size_range (length (layout x)) ≡ true
      → tlv_into_bytes m x ≡ some (header_bytes (header_of (layout x)) ++ layout x)
  tlv_into_bytes-layout x v r =
      let buffer : length (replicate {A = ℕ} (header_size + m.size x) 0) ≡ header_size + m.size x =
        length-replicate {A = ℕ} (header_size + m.size x) 0 in
      let (front, back, split, f, b, _) =
        split_at-parts header_size (replicate (header_size + m.size x) 0) (omega arith) in
      tlv_into_bytes-split x front back v r split f (omega (arith, law.sizes x v))

  pub tlv_from_bytes-accept :
      (bytes : List ℕ) (x : M)
      → m.from_bytes bytes ≡ some x
      → contains m.size_range (length bytes) ≡ true
      → tlv_from_bytes m (header_of bytes) bytes ≡ some (ok x)
  unfolding tlv_from_bytes
  tlv_from_bytes-accept bytes x e r =
      rw ((==_iff m.id m.id).1 refl, (==_iff (length bytes) (length bytes)).1 refl, r, e)

  -- A valid message within its size range survives the round trip: it is written without a panic,
  -- and its first three bytes are a header with which the rest is read back as the same message.
  pub tlv_roundtrip :
      (x : M)
      → IsValid x
      → contains m.size_range (m.size x) ≡ true
      → (bytes : List ℕ) × (h : Header) × (tlv_into_bytes m x ≡ some bytes)
        × (Header.from_bytes (take header_size bytes) ≡ some h)
        × (tlv_from_bytes m h (drop header_size bytes) ≡ some (ok x))
        × (length bytes ≡ header_size + m.size x)
  tlv_roundtrip x v r =
      let fits : contains m.size_range (length (layout x)) ≡ true = rw (law.sizes x v) at r in
      let h : Header = header_of (layout x) in
      (
        header_bytes h ++ layout x,
        h,
        tlv_into_bytes-layout x v fits,
        rw (take-append header_size (header_bytes h) (layout x) (length-header_bytes h))
            (from_bytes-header_bytes h (range_small (layout x) fits)),
        rw (drop-append header_size (header_bytes h) (layout x) (length-header_bytes h))
            (tlv_from_bytes-accept (layout x) x (law.reads x v fits) fits),
        omega (
          arith,
          length-append (header_bytes h) (layout x),
          length-header_bytes h,
          law.sizes x v,
        ),
      )

  pub tlv_from_bytes-passes :
      (h : Header) (bytes : List ℕ) (x : M)
      → tlv_from_bytes m h bytes ≡ some (ok x)
      → (h.message_type ≡ m.id)
        × (h.message_length ≡ length bytes)
        × (contains m.size_range (length bytes) ≡ true)
        × (m.from_bytes bytes ≡ some x)
  unfolding tlv_from_bytes
  tlv_from_bytes-passes h bytes x e = ground arith

  -- `tlv_from_bytes` accepts a header and a buffer exactly when the type is that
  -- of the message, the advertised length that of the buffer, and that length in the size range.
  pub tlv_from_bytes_accepts :
      (h : Header) (bytes : List ℕ)
      → AreBytes bytes
      → ((x : M) × (tlv_from_bytes m h bytes ≡ some (ok x))) ↔ (
          (h.message_type ≡ m.id)
          × (h.message_length ≡ length bytes)
          × (contains m.size_range (length bytes) ≡ true))
  tlv_from_bytes_accepts h bytes b = (
    λ (x, e). let (t, l, r, _) = tlv_from_bytes-passes h bytes x e in (t, l, r),
    λ (t, l, r).
        let (x, e, _, _) = law.decodes bytes b r in
        (x, rw (header_eq h bytes t l) (tlv_from_bytes-accept bytes x e r)),
  )

  -- It answers on every buffer of bytes: there is no panic.
  pub tlv_from_bytes_answers :
      (h : Header) (bytes : List ℕ) → AreBytes bytes → tlv_from_bytes m h bytes ≢ none
  unfolding tlv_from_bytes
  tlv_from_bytes_answers h bytes b e = elim (Bool-cases (contains m.size_range (length bytes))) [
    | inl r ↦ let (x, read, _, _) = law.decodes bytes b r in ground arith
    | inr r ↦ ground arith
  ]

  -- From a buffer of bytes that `tlv_from_bytes` accepts with a header comes a valid message, which is written back, without
  -- a panic, as that header and the buffer as it was.
  pub tlv_reencode :
      (h : Header) (bytes : List ℕ) (x : M)
      → AreBytes bytes
      → tlv_from_bytes m h bytes ≡ some (ok x)
      → IsValid x × (tlv_into_bytes m x ≡ some (header_bytes h ++ bytes))
  tlv_reencode h bytes x b e =
      let (t, l, r, read) = tlv_from_bytes-passes h bytes x e in
      let (y, read', v, whole) = law.decodes bytes b r in
      let same : y ≡ x = cc (read, read') in
      let v' : IsValid x = rw same at v in
      let whole' : layout x ≡ bytes = rw same at whole in
      (v', tlv_into_bytes-layout x v' (rw whole' r) ∙ rw (whole', header_eq h bytes t l))
