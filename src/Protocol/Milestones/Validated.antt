-- ===== src/Protocol/Milestones/Validated.antt =====
-- When the milestone validator adds a milestone, and what becomes of the last index.
use bee_p.Common.{
  ℕ, zero, suc, ◌+◌, ◌-◌, ◌*◌, ◌<◌, ◌≤◌, ◌^◌, ◌≡◌, ◌⊎◌, inl, inr, ◌∙◌, refl, ap, Bool, true, false,
  Option, none, some, List, [], ◌∷◌, ◌++◌, arith, Option-cases, Bool-cases, Result, ok, err,
  Result-cases, if◌then◌else◌, ltb, ◌==◌, length, length-append, All, get_elem?,
}
use Prim.Native.Nat.{max}
use mathlib.Core.Option.{some_inj}
use mathlib.Core.Path.{subst}
use bee_p.Common.Assoc.{lookup, lookup-insert, lookup-All}
use bee_p.Common.Int.{ℤ}
use bee_p.Ternary.{i64_try_from}
use bee_p.Bundle.Transaction.{Trits, Transaction}
use bee_p.Protocol.{ProtocolConfig}
use bee_p.Protocol.Milestones.{
  signature_buf, validate_signatures, validate, collect_trunk, validate_milestone, on_milestone,
  on_tail, as_u32, payload_trit_len,
}
use bee_p.Signing.Normalize.{normalize_hash}
use bee_p.Signing.Normalize.Idempotent.{IsNormalized, normalize_hash-IsNormalized}
use bee_p.Tangle.{
  Tangle, Vertex, TransactionRef, get_transaction, add_milestone, get_milestone_hash,
}

-- The payloads and the trunks have their lengths, as of all transactions that are read from trits.
abbrev pub IsShaped : Transaction → Type 0
IsShaped x = (length x.payload ≡ payload_trit_len) × (length x.trunk ≡ 243)

abbrev pub AreShaped : Tangle → Type 0
AreShaped t = (hash : ℕ) (r : TransactionRef) → get_transaction hash t ≡ some r → IsShaped r.content

pub vertices-AreShaped :
    (t : Tangle)
    → All (λ (entry : ℕ × Vertex). IsShaped entry.1.inner.content) t.vertices
    → AreShaped t
vertices-AreShaped t all hash r e = elim (Option-cases (lookup hash t.vertices)) [
  | inl absent ↦ absurd (ground (arith, absent, e))
  | inr (v, there) ↦
      let same : v.inner ≡ r = some_inj.0 (rw (there) at e) in
      subst (λ x. IsShaped x.content) same
        (lookup-All (λ h u. IsShaped u.inner.content) hash v t.vertices all there)
]

collect_trunk-IsShaped :
    (n : ℕ) (r : TransactionRef) (t : Tangle)
    → AreShaped t
    → (collect_trunk n r t ≡ none)
      ⊎ ((rest : List Transaction) × (collect_trunk n r t ≡ some rest)
          × (length rest ≡ n)
          × All IsShaped rest)
unfolding collect_trunk
collect_trunk-IsShaped zero r t h = inr ([], refl, refl, tt)
collect_trunk-IsShaped (suc n) r t h = elim (Option-cases (get_transaction r.trunk t)) [
  | inl e ↦ inl (rw (collect_trunk, e) refl)
  | inr (next, e) ↦ elim (collect_trunk-IsShaped n next t h) [
    | inl e' ↦ inl (rw (collect_trunk, e, e') refl)
    | inr (rest, e', size, shaped) ↦ inr (
      next.content ∷ rest,
      rw (collect_trunk, e, e') refl,
      ap suc size,
      (h r.trunk next e, shaped),
    )
  ]
]

pub signature_buf-some :
    (ts : List Transaction)
    → All IsShaped ts
    → (s : Trits) × (signature_buf ts ≡ some s) × (length s ≡ payload_trit_len * length ts)
unfolding signature_buf
signature_buf-some [] h = ([], refl, refl)
signature_buf-some (t ∷ ts) ((payload, _), h) =
    let (s, e, size) = signature_buf-some ts h in
    (t.payload ++ s, rw (e, payload) refl, omega (arith, length-append t.payload s, payload, size))

get-All :
    (n : ℕ) (ts : List Transaction)
    → n < length ts
    → All IsShaped ts
    → (t : Transaction) × (get_elem? ts n ≡ some t) × IsShaped t
get-All n [] l h = absurd (omega arith)
get-All zero (t ∷ ts) l (p, h) = (t, refl, p)
get-All (suc n) (t ∷ ts) l (p, h) = get-All n ts (omega arith) h

-- The milestone is found under its index, and no other index is touched; the last index is the
-- greater one, and the solid one stays.
pub record IsAdded (tail_hash index : ℕ) (t t' : Tangle) : Type 0 where
  pub found :
      (i : ℕ)
      → get_milestone_hash i t' ≡ (if index == i then some tail_hash else get_milestone_hash i t)
  pub last : t'.last_milestone_index ≡ max t.last_milestone_index index
  pub solid : t'.solid_milestone_index ≡ t.solid_milestone_index

add_milestone_lem :
    (index hash : ℕ) (t : Tangle)
    → ((i : ℕ)
        → get_milestone_hash i (add_milestone index hash t)
          ≡ (if index == i then some hash else get_milestone_hash i t))
      × ((add_milestone index hash t).last_milestone_index ≡ t.last_milestone_index)
      × ((add_milestone index hash t).solid_milestone_index ≡ t.solid_milestone_index)
unfolding add_milestone
add_milestone_lem index hash t = (λ i. lookup-insert index i hash t.milestones, refl, refl)

on_milestone-IsAdded :
    (index hash : ℕ) (t : Tangle)
    → IsAdded hash index t (on_milestone (record { hash = hash; index = index }) t)
on_milestone-IsAdded index hash t =
    let (found, last, solid) = add_milestone_lem index hash t in
    elim (Bool-cases (ltb t.last_milestone_index index)) [
      | inl c ↦ rw (c) (record { found = found; last = ground arith; solid = solid })
      | inr c ↦ rw (c) (record { found = found; last = ground (arith, last); solid = solid })
    ]

module _ {E : Type 0} (verify : Trits → ℕ → ℕ → Trits → Trits → Option (Result E Bool)) where
  -- The tail is known, and the transactions behind it along the trunk, as many as the security
  -- level; its obsolete tag reads as the index, and the signature in the payloads is accepted for the
  -- trunk of the one before the last.
  pub record IsSigned (config : ProtocolConfig) (tail_hash index : ℕ) (t : Tangle) : Type 0 where
    pub tail : TransactionRef
    pub rest : List Transaction
    pub value : ℤ
    pub signature : Trits
    pub root : Transaction
    pub hash : Trits
    pub known : get_transaction tail_hash t ≡ some tail
    pub starts : (tail.index == 0) ≡ true
    pub chain : collect_trunk config.coordinator_security_level tail t ≡ some rest
    pub numbered : i64_try_from tail.content.obsolete_tag ≡ ok value
    pub cast : as_u32 value ≡ index
    pub payloads : signature_buf (tail.content ∷ rest) ≡ some signature
    pub several : ltb (length (tail.content ∷ rest)) 2 ≡ false
    pub before_last : get_elem? (tail.content ∷ rest) (length (tail.content ∷ rest) - 2) ≡ some root
    pub normalized : normalize_hash root.trunk ≡ some hash
    pub signed :
        verify tail.content.address config.coordinator_depth index signature hash ≡ some (ok true)

  -- What the builder answers, by the answer of the public key.
  checked :
      (config : ProtocolConfig) (tail_hash : ℕ) (v : ℤ) (t : Tangle) → Result E Bool → Option Tangle
  checked config tail_hash v t (ok true) =
      some (on_milestone (record { hash = tail_hash; index = as_u32 v }) t)
  checked config tail_hash v t (ok false) = some t
  checked config tail_hash v t (err e) = some t

  on_tail_verified :
      (config : ProtocolConfig) (tail_hash : ℕ) (t : Tangle) (tail : TransactionRef)
      (rest : List Transaction) (v : ℤ) (signature : Trits) (root : Transaction) (hash : Trits)
      (answer : Result E Bool)
      → get_transaction tail_hash t ≡ some tail
      → (tail.index == 0) ≡ true
      → collect_trunk config.coordinator_security_level tail t ≡ some rest
      → i64_try_from tail.content.obsolete_tag ≡ ok v
      → signature_buf (tail.content ∷ rest) ≡ some signature
      → ltb (length (tail.content ∷ rest)) 2 ≡ false
      → get_elem? (tail.content ∷ rest) (length (tail.content ∷ rest) - 2) ≡ some root
      → normalize_hash root.trunk ≡ some hash
      → verify tail.content.address config.coordinator_depth (as_u32 v) signature hash ≡ some answer
      → on_tail verify config tail_hash t ≡ checked config tail_hash v t answer
  unfolding checked on_tail validate_milestone validate validate_signatures
  on_tail_verified config tail_hash t tail rest v signature root hash (ok true) a b c d e f g h i =
      rw (on_tail, validate_milestone, a, b, c, validate, d, validate_signatures, e, f, g, h, i)
        refl
  on_tail_verified config tail_hash t tail rest v signature root hash (ok false) a b c d e f g h i =
      rw (on_tail, validate_milestone, a, b, c, validate, d, validate_signatures, e, f, g, h, i)
        refl
  on_tail_verified config tail_hash t tail rest v signature root hash (err x) a b c d e f g h i =
      rw (on_tail, validate_milestone, a, b, c, validate, d, validate_signatures, e, f, g, h, i)
        refl

  -- Nothing is added, or a signed milestone is.
  abbrev pub Outcome : ProtocolConfig → ℕ → Tangle → Tangle → Type 0
  Outcome config tail_hash t t' =
      (t' ≡ t)
      ⊎ ((index : ℕ) × (index < 2 ^ 32)
          × IsSigned config tail_hash index t
          × IsAdded tail_hash index t t')

  -- The public key answers, without a panic, on every signature of one payload more than the security level, on every
  -- index of 32 bits and every normalized hash.
  abbrev pub Verifies : ProtocolConfig → Type 0
  Verifies config =
      (address signature hash : Trits) (index : ℕ)
      → length signature ≡ payload_trit_len * (config.coordinator_security_level + 1)
      → index < 2 ^ 32
      → IsNormalized hash
      → (answer : Result E Bool) × (verify address config.coordinator_depth index signature hash
          ≡ some answer)

  Answers : ProtocolConfig → ℕ → Tangle → Type 0
  Answers config tail_hash t =
      (t' : Tangle) × (on_tail verify config tail_hash t ≡ some t') × Outcome config tail_hash t t'

  on_chain :
      (config : ProtocolConfig) (tail_hash : ℕ) (t : Tangle) (tail : TransactionRef)
      (rest : List Transaction) (v : ℤ)
      → 1 ≤ config.coordinator_security_level
      → Verifies config
      → get_transaction tail_hash t ≡ some tail
      → (tail.index == 0) ≡ true
      → collect_trunk config.coordinator_security_level tail t ≡ some rest
      → length rest ≡ config.coordinator_security_level
      → All IsShaped (tail.content ∷ rest)
      → i64_try_from tail.content.obsolete_tag ≡ ok v
      → Answers config tail_hash t
  unfolding Answers checked
  on_chain config tail_hash t tail rest v one verifies known first chain size shaped numbered =
      let all = tail.content ∷ rest in
      let (signature, payloads, long) = signature_buf-some all shaped in
      let several : ltb (length all) 2 ≡ false = ground arith in
      let (root, before_last, (_, trunk)) = get-All (length all - 2) all (omega arith) shaped in
      let (hash, normalized, is_normalized) =
        normalize_hash-IsNormalized root.trunk (omega arith) in
      let enough : length signature ≡ payload_trit_len * (config.coordinator_security_level + 1) =
        omega (arith, long, size) in
      let (answer, given) =
        verifies tail.content.address signature hash (as_u32 v) enough (omega arith)
          is_normalized in
      let answers : (a : Result E Bool)
          → answer ≡ a
          → on_tail verify config tail_hash t ≡ checked config tail_hash v t a =
        λ a e.
          on_tail_verified config tail_hash t tail rest v signature root hash a known first chain
            numbered payloads several before_last normalized (given ∙ ap some e) in
      elim (Result-cases answer) [
        | inr (x, e) ↦ (t, answers (err x) e, inl refl)
        | inl (b, e) ↦ elim (Bool-cases b) [
          | inl accepted ↦ (
            on_milestone (record { hash = tail_hash; index = as_u32 v }) t,
            answers (ok true) (e ∙ ap ok accepted),
            inr (
              as_u32 v,
              omega arith,
              record {
                tail = tail;
                rest = rest;
                value = v;
                signature = signature;
                root = root;
                hash = hash;
                known = known;
                starts = first;
                chain = chain;
                numbered = numbered;
                cast = refl;
                payloads = payloads;
                several = several;
                before_last = before_last;
                normalized = normalized;
                signed = given ∙ ap some (e ∙ ap ok accepted);
              },
              on_milestone-IsAdded (as_u32 v) tail_hash t,
            ),
          )
          | inr refused ↦ (t, answers (ok false) (e ∙ ap ok refused), inl refl)
        ]
      ]

  -- If all transactions of the tangle have payloads of 6561 and trunks of 243 trits, the security level is not 0, and
  -- the public key's verification does not panic on a signature of one payload more than this level and a normalized hash,
  -- then the validator does not panic on any tail, and either leaves the tangle as it is or adds
  -- a milestone that is signed, under an index of 32 bits.
  pub on_tail_answers :
      (config : ProtocolConfig) (tail_hash : ℕ) (t : Tangle)
      → 1 ≤ config.coordinator_security_level
      → Verifies config
      → AreShaped t
      → (t' : Tangle) × (on_tail verify config tail_hash t ≡ some t')
        × Outcome config tail_hash t t'
  unfolding Answers on_tail validate_milestone validate
  on_tail_answers config tail_hash t one verifies shaped =
      elim (Option-cases (get_transaction tail_hash t)) [
        | inl e ↦ (t, rw (on_tail, validate_milestone, e) refl, inl refl)
        | inr (tail, known) ↦ elim (Bool-cases (tail.index == 0)) [
          | inr c ↦ (t, rw (on_tail, validate_milestone, known, c) refl, inl refl)
          | inl first ↦
              elim (collect_trunk-IsShaped config.coordinator_security_level tail t shaped) [
                | inl e ↦ (t, rw (on_tail, validate_milestone, known, first, e) refl, inl refl)
                | inr (rest, chain, size, all) ↦
                    elim (Result-cases (i64_try_from tail.content.obsolete_tag)) [
                      | inr (x, e) ↦ (
                        t,
                        rw (on_tail, validate_milestone, known, first, chain, validate, e) refl,
                        inl refl,
                      )
                      | inl (v, numbered) ↦
                          on_chain config tail_hash t tail rest v one verifies known first chain
                            size (shaped tail_hash tail known, all) numbered
                    ]
              ]
        ]
      ]
