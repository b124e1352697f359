-- ===== src/Bundle/IntoTrits/Segments.antt =====
-- A buffer as the list of its segments: what a copy to a segment and a slice of one give.
use native.Mathlib.Nat.{suc-add}
use bee_p.Common.{
  ℕ, zero, suc, ◌+◌, ◌-◌, ◌≤◌, ◌<◌, ◌≡◌, ◌∙◌, refl, sym, ap, some, List, [], ◌∷◌, ◌++◌, length,
  take, drop, append_assoc, append-nil, arith, ok, leb, length-append, take-append, drop-append,
  true,
}
use bee_p.Ternary.{no_one, zeros}
use bee_p.Ternary.Padded.{padded, length-zeros}
use bee_p.Bundle.Transaction.{Trits}
use bee_p.Bundle.FromTrits.{Offset, slice}
use bee_p.Bundle.IntoTrits.{copy_raw_bytes}

abbrev pub concat : List Trits → Trits
concat [] = []
concat (s ∷ ss) = s ++ concat ss

-- Where a segment starts.
abbrev pub start_of : ℕ → List Trits → ℕ
start_of zero ss = 0
start_of (suc i) [] = 0
start_of (suc i) (s ∷ ss) = length s + start_of i ss

abbrev pub set : List Trits → ℕ → Trits → List Trits
set [] i v = []
set (s ∷ ss) zero v = v ∷ ss
set (s ∷ ss) (suc i) v = s ∷ set ss i v

abbrev pub get_elem : List Trits → ℕ → Trits
get_elem [] i = []
get_elem (s ∷ ss) zero = s
get_elem (s ∷ ss) (suc i) = get_elem ss i

take_all : (n : ℕ) (xs : Trits) → n ≡ length xs → take n xs ≡ xs
take_all n xs h = sym (ap (take n) (append-nil xs)) ∙ take-append n xs [] h

copy_raw_bytes-append :
    (xs pre old post : Trits) (o n : ℕ)
    → o ≡ length pre
    → n ≡ length old
    → n ≡ length xs
    → copy_raw_bytes xs o n (pre ++ (old ++ post)) ≡ some (pre ++ (xs ++ post))
unfolding copy_raw_bytes
copy_raw_bytes-append xs pre old post o n h k l =
    let in_range : leb (o + n) (length (pre ++ (old ++ post))) ≡ true =
      ground (arith, length-append pre (old ++ post), length-append old post) in
    let enough : leb n (length xs) ≡ true = ground arith in
    rw (in_range, enough, take-append o pre (old ++ post) h, take_all n xs l)
      (ap (λ zs. some (pre ++ (xs ++ zs)))
        (ap (drop (o + n)) (sym (append_assoc pre old post))
          ∙ drop-append (o + n) (pre ++ old) post (omega (arith, length-append pre old))))

-- The parts of a list of segments round one of them.
record Split (ss : List Trits) (i : ℕ) : Type 0 where
  pre : Trits
  post : Trits
  whole : concat ss ≡ pre ++ (get_elem ss i ++ post)
  others : (v : Trits) → concat (set ss i v) ≡ pre ++ (v ++ post)
  size : length pre ≡ start_of i ss

split : (ss : List Trits) (i : ℕ) → i < length ss → Split ss i
split [] i h = absurd (omega arith)
split (s ∷ ss) zero h = record {
  pre = [];
  post = concat ss;
  whole = refl;
  others = λ v. refl;
  size = refl;
}
split (s ∷ ss) (suc i) h =
    let r : Split ss i = split ss i (omega arith) in
    record {
      pre = s ++ r.pre;
      post = r.post;
      whole = rw (r.whole) (sym (append_assoc s r.pre (get_elem ss i ++ r.post)));
      others = λ v. rw (r.others v) (sym (append_assoc s r.pre (v ++ r.post)));
      size = rw (length-append s r.pre, r.size) refl;
    }

-- A field is copied over the segment at its offset.
pub copy_segment :
    (ss : List Trits) (i : ℕ) (xs : Trits) (o : Offset)
    → i < length ss
    → o.start ≡ start_of i ss
    → o.length ≡ length (get_elem ss i)
    → o.length ≡ length xs
    → copy_raw_bytes xs o.start o.length (concat ss) ≡ some (concat (set ss i xs))
copy_segment ss i xs o h s l k =
    let r : Split ss i = split ss i h in
    rw (r.whole, r.others xs)
      (copy_raw_bytes-append xs r.pre (get_elem ss i) r.post o.start o.length (s ∙ sym r.size) l k)

zeros-add : (a b : ℕ) → zeros (a + b) ≡ zeros a ++ zeros b
unfolding zeros
zeros-add zero b = ap zeros (omega arith)
zeros-add (suc a) b = ap zeros (suc-add a b) ∙ ap (λ zs. no_one ∷ zs) (zeros-add a b)

-- A number is copied to a segment of zeros.
pub copy_segment_number :
    (ss : List Trits) (i : ℕ) (xs : Trits) (o : Offset)
    → i < length ss
    → o.start ≡ start_of i ss
    → get_elem ss i ≡ zeros o.length
    → length xs ≤ o.length
    → copy_raw_bytes xs o.start (length xs) (concat ss)
      ≡ some (concat (set ss i (padded o.length xs)))
copy_segment_number ss i xs o h s z k =
    let r : Split ss i = split ss i h in
    let apart : zeros o.length ≡ zeros (length xs) ++ zeros (o.length - length xs) =
      ap zeros (omega arith) ∙ zeros-add (length xs) (o.length - length xs) in
    let all : concat ss ≡ r.pre ++ (zeros (length xs) ++ (zeros (o.length - length xs) ++ r.post)) =
      r.whole
      ∙ ap (λ old. r.pre ++ (old ++ r.post)) (z ∙ apart)
      ∙ ap (λ old. r.pre ++ old)
          (append_assoc (zeros (length xs)) (zeros (o.length - length xs)) r.post) in
    rw (all) (
      copy_raw_bytes-append xs r.pre (zeros (length xs)) (zeros (o.length - length xs) ++ r.post)
        o.start (length xs) (s ∙ sym r.size) (sym (length-zeros (length xs))) refl
      ∙ ap some (
          ap (λ new. r.pre ++ new) (sym (append_assoc xs (zeros (o.length - length xs)) r.post))
          ∙ sym (r.others (padded o.length xs))))

-- A slice at the place of a segment is the segment.
pub slice_segment :
    (ss : List Trits) (i : ℕ) (o : Offset)
    → i < length ss
    → o.start ≡ start_of i ss
    → o.length ≡ length (get_elem ss i)
    → slice o (concat ss) ≡ some (ok (get_elem ss i))
unfolding slice
slice_segment ss i o h s l =
    let r : Split ss i = split ss i h in
    let old = get_elem ss i in
    let in_range : leb (o.start + o.length) (length (r.pre ++ (old ++ r.post))) ≡ true =
      ground (arith, length-append r.pre (old ++ r.post), length-append old r.post, r.size) in
    rw
      (
        r.whole,
        in_range,
        drop-append o.start r.pre (old ++ r.post) (s ∙ sym r.size),
        take-append o.length old r.post l,
      )
      refl

-- A buffer of zeros as segments.
abbrev pub blanks : List ℕ → List Trits
blanks [] = []
blanks (n ∷ ns) = zeros n ∷ blanks ns

abbrev pub sum : List ℕ → ℕ
sum [] = 0
sum (n ∷ ns) = n + sum ns

pub concat-blanks : (ns : List ℕ) → concat (blanks ns) ≡ zeros (sum ns)
unfolding zeros
concat-blanks [] = refl
concat-blanks (n ∷ ns) = ap (λ zs. zeros n ++ zs) (concat-blanks ns) ∙ sym (zeros-add n (sum ns))

pub length-concat : (ss : List Trits) → length (concat ss) ≡ start_of (length ss) ss
length-concat [] = refl
length-concat (s ∷ ss) = omega (arith, length-append s (concat ss), length-concat ss)
