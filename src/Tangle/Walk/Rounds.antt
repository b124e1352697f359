-- ===== src/Tangle/Walk/Rounds.antt =====
-- The invariant of `walk_approvees_depth_first` of bee-tangle/src/tangle.rs, kept by each round.
use mathlib.Core.Path.{subst}
use bee_p.Common.{
  ℕ, ◌≡◌, ◌↔◌, refl, sym, ◌⊎◌, inl, inr, Bool, true, false, none, some, List, [], ◌∷◌, ◌++◌,
  if◌then◌else◌, arith, Bool-cases, Option-cases, ◌==◌, ==_iff,
}
use bee_p.Common.Assoc.{lookup}
use bee_p.Common.Set.{has, add, has-add, has-append, has_cons}
use bee_p.Tangle.{Tangle, Vertex}
use bee_p.Tangle.Walk.{Calls, analyze}

-- The hashes to which there is a way from the root along trunks and branches, through vertices that
-- are to be followed.
pub data Leads (should_follow : Vertex → Bool) (t : Tangle) (root : ℕ) : ℕ → Type 0 where
  start : Leads should_follow t root root
  trunk :
      {hash : ℕ} (v : Vertex)
      → Leads should_follow t root hash
      → lookup hash t.vertices ≡ some v
      → should_follow v ≡ true
      → Leads should_follow t root v.inner.trunk
  branch :
      {hash : ℕ} (v : Vertex)
      → Leads should_follow t root hash
      → lookup hash t.vertices ≡ some v
      → should_follow v ≡ true
      → Leads should_follow t root v.inner.branch

has_nil : (x : ℕ) → has x [] ≡ false
unfolding has
has_nil x = refl

-- There is no vertex for the hash, and it is no entry point.
abbrev pub IsMissing : Tangle → ℕ → Type 0
IsMissing t hash = (lookup hash t.vertices ≡ none) × (has hash t.solid_entry_points ≡ false)

module _ (should_follow : Vertex → Bool) (t : Tangle) (root : ℕ) where
  -- In the loop: what is on the stack or analyzed is led to; the root is among them, and so are the
  -- approvees of the analyzed vertices that are to be followed; what was reported as missing is
  -- analyzed and missing, and the other way round.
  pub record Holds (stack analyzed : List ℕ) (calls : Calls) : Type 0 where
    pub on_stack : (h : ℕ) → has h stack ≡ true → Leads should_follow t root h
    pub seen : (h : ℕ) → has h analyzed ≡ true → Leads should_follow t root h
    pub root_seen : (has root stack ≡ true) ⊎ (has root analyzed ≡ true)
    pub closed :
        (h : ℕ) (v : Vertex)
        → has h analyzed ≡ true
        → lookup h t.vertices ≡ some v
        → should_follow v ≡ true
        → ((has v.inner.trunk stack ≡ true) ⊎ (has v.inner.trunk analyzed ≡ true))
          × ((has v.inner.branch stack ≡ true) ⊎ (has v.inner.branch analyzed ≡ true))
    pub reported :
        (h : ℕ) → (has h calls.missing ≡ true) ↔ ((has h analyzed ≡ true) × IsMissing t h)

  pub Holds-start : Holds (root ∷ []) [] (record { mapped = []; missing = [] })
  unfolding has
  Holds-start = record {
    on_stack = λ h e. subst (Leads should_follow t root) (ground arith) start;
    seen = λ h e. absurd (ground arith);
    root_seen = inl (ground arith);
    closed = λ h v e f g. absurd (ground arith);
    reported = λ h. (λ e. absurd (ground arith), λ (e, _). absurd (ground arith));
  }

  -- At the end everything that is led to is analyzed.
  pub all_seen :
      {analyzed : List ℕ} {calls : Calls}
      → Holds [] analyzed calls
      → {h : ℕ} → Leads should_follow t root h
      → has h analyzed ≡ true
  unfolding has
  all_seen w start = let r = w.root_seen in ground arith
  all_seen w (trunk {hash} v l e f) =
      let next = (w.closed hash v (all_seen w l) e f).0 in ground arith
  all_seen w (branch {hash} v l e f) =
      let next = (w.closed hash v (all_seen w l) e f).1 in ground arith

  -- A round that finds the hash analyzed.
  Holds-skip :
      (hash : ℕ) (rest analyzed : List ℕ) (calls : Calls)
      → has hash analyzed ≡ true
      → Holds (hash ∷ rest) analyzed calls
      → Holds rest analyzed calls
  Holds-skip hash rest analyzed calls e w = record {
    on_stack = λ h x. w.on_stack h (ground (arith, has_cons h hash rest));
    seen = w.seen;
    root_seen = let r = w.root_seen in ground (arith, has_cons root hash rest);
    closed = λ h v x f g.
        let (a, b) = w.closed h v x f g in
        (
          ground (arith, has_cons v.inner.trunk hash rest),
          ground (arith, has_cons v.inner.branch hash rest),
        );
    reported = w.reported;
  }

  -- A round that finds no vertex.
  Holds-absent :
      (hash : ℕ) (rest analyzed : List ℕ) (calls : Calls) (missing : List ℕ)
      → has hash analyzed ≡ false
      → lookup hash t.vertices ≡ none
      → missing
        ≡ (if has hash t.solid_entry_points then calls.missing else calls.missing ++ (hash ∷ []))
      → Holds (hash ∷ rest) analyzed calls
      → Holds rest (add hash analyzed) (record calls { missing = missing })
  Holds-absent hash rest analyzed calls missing new absent more w = record {
    on_stack = λ h x. w.on_stack h (ground (arith, has_cons h hash rest));
    seen = λ h x. elim (Bool-cases (h == hash)) [
      | inl same ↦ w.on_stack h (rw (has_cons h hash rest, same) refl)
      | inr other ↦ w.seen h (ground (arith, has-add h hash analyzed))
    ];
    root_seen =
        let r = w.root_seen in ground (arith, has_cons root hash rest, has-add root hash analyzed);
    closed = λ h v x f g. elim (Bool-cases (h == hash)) [
      | inl same ↦ absurd (ground arith)
      | inr other ↦
          let (a, b) = w.closed h v (ground (arith, has-add h hash analyzed)) f g in
          (
            ground (arith, has_cons v.inner.trunk hash rest, has-add v.inner.trunk hash analyzed),
            ground (arith, has_cons v.inner.branch hash rest, has-add v.inner.branch hash analyzed),
          )
    ];
    reported = λ h.
        let (to, from) = w.reported h in
        (
          λ x. ground (
            arith,
            has-add h hash analyzed,
            has-append h calls.missing (hash ∷ []),
            has_cons h hash [],
            has_nil h,
          ),
          λ (x, y). ground (
            arith,
            has-add h hash analyzed,
            has-append h calls.missing (hash ∷ []),
            has_cons h hash [],
            has_nil h,
          ),
        );
  }

  has_pushed :
      (h : ℕ) (v : Vertex) (rest stack : List ℕ)
      → stack ≡ (if should_follow v then v.inner.trunk ∷ (v.inner.branch ∷ rest) else rest)
      → has h stack ≡ (
          if should_follow v
          then (if h == v.inner.trunk
              then true
              else if h == v.inner.branch
              then true
              else has h rest)
          else has h rest)
  unfolding has
  has_pushed h v rest stack e = rw e (ground arith)

  -- A round that finds a vertex.
  Holds-vertex :
      (hash : ℕ) (v : Vertex) (rest analyzed : List ℕ) (calls : Calls) (stack : List ℕ)
      → has hash analyzed ≡ false
      → lookup hash t.vertices ≡ some v
      → stack ≡ (if should_follow v then v.inner.trunk ∷ (v.inner.branch ∷ rest) else rest)
      → Holds (hash ∷ rest) analyzed calls
      → Holds stack (add hash analyzed) (record calls { mapped = calls.mapped ++ (v.inner ∷ []) })
  Holds-vertex hash v rest analyzed calls stack new there pushed w =
      let self = w.on_stack hash (ground (arith, has_cons hash hash rest)) in
      let on = λ (h : ℕ). has_pushed h v rest stack pushed in
      record {
        on_stack = λ h x. elim (Bool-cases (should_follow v)) [
          | inr no_more ↦ w.on_stack h (ground (arith, has_cons h hash rest, on h))
          | inl more ↦ elim (Bool-cases (h == v.inner.trunk)) [
            | inl same ↦
                subst (Leads should_follow t root) (sym ((==_iff h v.inner.trunk).0 same))
                  (trunk v self there more)
            | inr other ↦ elim (Bool-cases (h == v.inner.branch)) [
              | inl same ↦
                  subst (Leads should_follow t root) (sym ((==_iff h v.inner.branch).0 same))
                    (branch v self there more)
              | inr neither ↦ w.on_stack h (ground (arith, has_cons h hash rest, on h))
            ]
          ]
        ];
        seen = λ h x. elim (Bool-cases (h == hash)) [
          | inl same ↦ w.on_stack h (rw (has_cons h hash rest, same) refl)
          | inr other ↦ w.seen h (ground (arith, has-add h hash analyzed))
        ];
        root_seen =
            let r = w.root_seen in
            ground (arith, has_cons root hash rest, has-add root hash analyzed, on root);
        closed = λ h u x f g. elim (Bool-cases (h == hash)) [
          | inl same ↦
              let one : some u ≡ some v = ground arith in
              (ground (arith, on u.inner.trunk), ground (arith, on u.inner.branch))
          | inr other ↦
              let (a, b) = w.closed h u (ground (arith, has-add h hash analyzed)) f g in
              (
                ground (
                  arith,
                  has_cons u.inner.trunk hash rest,
                  has-add u.inner.trunk hash analyzed,
                  on u.inner.trunk,
                ),
                ground (
                  arith,
                  has_cons u.inner.branch hash rest,
                  has-add u.inner.branch hash analyzed,
                  on u.inner.branch,
                ),
              )
        ];
        reported = λ h.
            let (to, from) = w.reported h in
            (
              λ x. ground (arith, has-add h hash analyzed),
              λ (x, y). ground (arith, has-add h hash analyzed),
            );
      }

  pub Holds-analyze :
      (hash : ℕ) (rest analyzed : List ℕ) (calls : Calls)
      → Holds (hash ∷ rest) analyzed calls
      → Holds
          (analyze should_follow t hash rest analyzed calls).non_analyzed_hashes
          (analyze should_follow t hash rest analyzed calls).analyzed_hashes
          (analyze should_follow t hash rest analyzed calls).calls
  unfolding analyze
  Holds-analyze hash rest analyzed calls w = elim (Bool-cases (has hash analyzed)) [
    | inl old ↦ rw old (Holds-skip hash rest analyzed calls old w)
    | inr new ↦ elim (Option-cases (lookup hash t.vertices)) [
      | inr (v, there) ↦
          rw (new, there) (Holds-vertex hash v rest analyzed calls _ new there refl w)
      | inl absent ↦ elim (Bool-cases (has hash t.solid_entry_points)) [
        | inl e ↦
            rw (new, absent, e)
              (Holds-absent hash rest analyzed calls calls.missing new absent (rw e refl) w)
        | inr e ↦
            rw (new, absent, e)
              (Holds-absent hash rest analyzed calls (calls.missing ++ (hash ∷ [])) new absent
                (rw e refl) w)
      ]
    ]
  ]
