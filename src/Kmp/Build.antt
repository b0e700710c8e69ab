-- ===== src/Kmp/Build.antt =====
-- src/80s/algo.c: every row of the table that `build_kmp` makes is right.
use s.Common.{
  leb, ◌==◌, Bool-cases, length, get_or, ℕ, zero, suc, ◌+◌, ◌-◌, ◌≤◌, ◌<◌, ◌≡◌, refl, sym, ap,
  subst, ◌∙◌, ◌≢◌, inl, inr, List, arith,
}
use s.Kmp.{Table, store_entry, fall_back, build_step, build_from, build_kmp}
use s.Kmp.Agree.{Agree, Agree-shift, Agree-meet, Row, Rows}

module _ (p : ℕ → ℕ) where
  -- Between rounds: the rows below `i` are right, and `j` is the longest border of the first `i`
  -- letters.
  record IsBuilt (i j : ℕ) (t : Table) : Type 0 where
    rows : Rows p t i
    inside : j < i
    agrees : Agree p p (i - j) j
    longest : (b : ℕ) → b < i → Agree p p (i - b) b → b ≤ j

  -- `r` is one more than the longest border of the first `i` letters that goes on with `c`, or 0.
  record IsFall (i c r : ℕ) : Type 0 where
    inside : (b : ℕ) → r ≡ suc b → b < i
    agrees : (b : ℕ) → r ≡ suc b → Agree p p (i - b) b
    letter : (b : ℕ) → r ≡ suc b → p b ≡ c
    longest : (b : ℕ) → b < i → Agree p p (i - b) b → p b ≡ c → suc b ≤ r

  Agree-at : (d d' n : ℕ) → d ≡ d' → Agree p p d n → Agree p p d' n
  Agree-at d d' n e = subst (λ t. Agree p p t n) e

  shorter :
      (i j b : ℕ) → j < i → b < j → Agree p p (i - j) j → Agree p p (i - b) b → Agree p p (j - b) b
  shorter i j b ji bj f g =
      Agree-meet p p (i - j) j (j - b) b f (Agree-at (i - b) (i - j + (j - b)) b (omega arith) g)
        (omega arith)

  longer :
      (i j b : ℕ) → j < i → b < j → Agree p p (i - j) j → Agree p p (j - b) b → Agree p p (i - b) b
  longer i j b ji bj f g =
      Agree-at (i - j + (j - b)) (i - b) b (omega arith)
        (Agree-shift p p (i - j) j (j - b) b f g (omega arith))

  Row-same : (t t' : Table) (i : ℕ) → t' i ≡ t i → Row p t i → Row p t' i
  Row-same t t' i e r = record {
    short = rw e r.short;
    border = rw e r.border;
    strong = rw e r.strong;
  }

  store_entry_self : (t : Table) (i e : ℕ) → store_entry t i e i ≡ e
  store_entry_self t i e = ground arith

  store_entry_below : (t : Table) (i e k : ℕ) → k < i → store_entry t i e k ≡ t k
  store_entry_below t i e k h = ground arith

  -- A row for `i` beside the rows below it.
  Rows-store :
      (t : Table) (i e : ℕ)
      → Rows p t i
      → Row p (store_entry t i e) i
      → Rows p (store_entry t i e) (i + 1)
  Rows-store t i e rs r k h = elim (Bool-cases (k == i)) [
    | inl q ↦ let q' : k ≡ i = ground arith in rw q' r
    | inr q ↦
        let lt : k < i = ground arith in
        Row-same t (store_entry t i e) k (store_entry_below t i e k lt) (rs k lt)
  ]

  Row-equal : (t : Table) (i j : ℕ) → IsBuilt i j t → p i ≡ p j → Row p (store_entry t i (t j)) i
  Row-equal t i j h e = of_row (h.rows j h.inside)
    where
      of_row : Row p t j → Row p (store_entry t i (t j)) i
      of_row r = record {
        short = rw (store_entry_self t i (t j)) (omega (arith, r.short, h.inside));
        border = λ b q.
            let q' : t j ≡ suc b = sym (store_entry_self t i (t j)) ∙ q in
            longer i j b h.inside (omega (arith, r.short)) h.agrees (r.border b q');
        strong = λ b bi le g. elim (Bool-cases (b == j)) [
          | inl same ↦ let s : b ≡ j = ground arith in ap p s ∙ sym e
          | inr other ↦
              let bj : b < j = ground (arith, h.longest b bi g) in
              r.strong b bj (rw (store_entry_self t i (t j)) at le)
                (shorter i j b h.inside bj h.agrees g)
              ∙ sym e
        ];
      }

  Row-differs : (t : Table) (i j : ℕ) → IsBuilt i j t → Row p (store_entry t i (j + 1)) i
  Row-differs t i j h = record {
    short = rw (store_entry_self t i (j + 1)) (omega (arith, h.inside));
    border = λ b q.
        let q' : b ≡ j = omega (arith, sym (store_entry_self t i (j + 1)) ∙ q) in rw q' h.agrees;
    strong = λ b bi le g.
        let le' : j + 1 ≤ b = rw (store_entry_self t i (j + 1)) at le in
        absurd (omega (arith, h.longest b bi g));
  }

  -- Where `j` does not go on with `c`, the search goes on at the entry of `j`.
  falls-next :
      (i c j : ℕ) (t : Table)
      → j < i
      → Agree p p (i - j) j
      → p j ≢ c
      → ((b : ℕ) → b < i → Agree p p (i - b) b → p b ≡ c → b ≤ j)
      → Row p t j
      → (b : ℕ) → b < i
      → Agree p p (i - b) b
      → p b ≡ c
      → suc b ≤ t j
  falls-next i c j t ji f ne top r b bi g e = elim (Bool-cases (b == j)) [
    | inl same ↦ let s : b ≡ j = ground arith in absurd (ne (ap p (sym s) ∙ e))
    | inr other ↦
        let bj : b < j = ground (arith, top b bi g e) in
        elim (Bool-cases (leb (t j) b)) [
          | inr below ↦ ground arith
          | inl above ↦
              absurd (ne (sym (r.strong b bj (ground arith) (shorter i j b ji bj f g)) ∙ e))
        ]
  ]

  fall_back-IsFall :
      (i c : ℕ) (t : Table) (fuel j : ℕ)
      → j ≤ fuel
      → Rows p t i
      → ((b : ℕ) → j ≡ suc b → (b < i) × Agree p p (i - b) b)
      → ((b : ℕ) → b < i → Agree p p (i - b) b → p b ≡ c → suc b ≤ j)
      → IsFall i c (fall_back p t c fuel j)
  unfolding fall_back
  fall_back-IsFall i c t fuel zero h rs at top = record {
    inside = λ b q. cc;
    agrees = λ b q. cc;
    letter = λ b q. cc;
    longest = top;
  }
  fall_back-IsFall i c t zero (suc j) h rs at top = absurd (omega arith)
  fall_back-IsFall i c t (suc fuel) (suc j) h rs at top =
      let (ji, f) = at j refl in
      let r = rs j ji in
      elim (Bool-cases (c == p j)) [
        | inl same ↦ rw same (record {
          inside = λ b q. let q' : j ≡ b = omega arith in rw (← q') ji;
          agrees = λ b q. let q' : j ≡ b = omega arith in rw (← q') f;
          letter = λ b q. let q' : j ≡ b = omega arith in rw (← q') (ground arith);
          longest = top;
        })
        | inr other ↦ rw other (
            fall_back-IsFall i c t fuel (t j) (omega (arith, r.short)) rs
              (λ b q.
                (omega (arith, r.short), longer i j b ji (omega (arith, r.short)) f (r.border b q)))
              (falls-next i c j t ji f (λ q. ground arith) (λ b bi g e. omega (arith, top b bi g e))
                r))
      ]

  -- The border that is found goes on, and no longer one does.
  next-inside : (i c r : ℕ) → IsFall i c r → r < i + 1
  next-inside i c zero f = omega arith
  next-inside i c (suc b) f = omega (arith, f.inside b refl)

  next-agrees : (i r : ℕ) → IsFall i (p i) r → Agree p p (i + 1 - r) r
  next-agrees i zero f x lt = absurd (omega arith)
  next-agrees i (suc b) f x lt = elim (Bool-cases (x == b)) [
    | inl last ↦
        let e : x ≡ b = ground arith in
        let at : i ≡ i + 1 - suc b + x = omega (arith, f.inside b refl) in
        ap p e ∙ f.letter b refl ∙ ap p at
    | inr before ↦
        let lt' : x < b = ground arith in
        f.agrees b refl x lt' ∙ ap p (omega (arith, f.inside b refl))
  ]

  next-longest :
      (i r : ℕ) → IsFall i (p i) r → (b : ℕ) → b < i + 1 → Agree p p (i + 1 - b) b → b ≤ r
  next-longest i r f zero bi g = omega arith
  next-longest i r f (suc b) bi g =
      f.longest b (omega arith) (λ x lt. g x (omega arith) ∙ ap p (omega arith))
        (g b (omega arith) ∙ ap p (omega arith))

  next-IsBuilt : (i r : ℕ) (t : Table) → Rows p t (i + 1) → IsFall i (p i) r → IsBuilt (i + 1) r t
  next-IsBuilt i r t rs f = record {
    rows = rs;
    inside = next-inside i (p i) r f;
    agrees = next-agrees i r f;
    longest = next-longest i r f;
  }

  build_step-IsBuilt :
      (i j : ℕ) (t : Table)
      → IsBuilt i j t
      → IsBuilt (i + 1) (build_step p i j t).1 (build_step p i j t).0
  unfolding build_step
  build_step-IsBuilt i j t h = elim (Bool-cases (p i == p j)) [
    | inl same ↦
        let e : p i ≡ p j = ground arith in
        rw same (
          next-IsBuilt i (j + 1) (store_entry t i (t j))
            (Rows-store t i (t j) h.rows (Row-equal t i j h e))
            (record {
              inside = λ b q. omega (arith, h.inside);
              agrees = λ b q. let q' : j ≡ b = omega arith in rw (← q') h.agrees;
              letter = λ b q. let q' : j ≡ b = omega arith in rw (← q') (sym e);
              longest = λ b bi g l. omega (arith, h.longest b bi g);
            }))
    | inr other ↦
        let t' = store_entry t i (j + 1) in
        let rs = Rows-store t i (j + 1) h.rows (Row-differs t i j h) in
        rw other (
          next-IsBuilt i _ t' rs (
            fall_back-IsFall i (p i) t' (j + 1) (j + 1) (omega arith) (λ k lt. rs k (omega arith))
              (λ b q. let q' : j ≡ b = omega arith in rw (← q') (h.inside, h.agrees))
              (λ b bi g l. omega (arith, h.longest b bi g))))
  ]

  build_from-Rows :
      (rounds i j : ℕ) (t : Table) → IsBuilt i j t → Rows p (build_from p rounds i j t) (i + rounds)
  unfolding build_from
  build_from-Rows zero i j t h k lt =
      Row-same t (store_entry t i (j + 1)) k (store_entry_below t i (j + 1) k (omega arith))
        (h.rows k (omega arith))
  build_from-Rows (suc rounds) i j t h k lt =
      build_from-Rows rounds (i + 1) (build_step p i j t).1 (build_step p i j t).0
        (build_step-IsBuilt i j t h) k (omega arith)

  start-IsBuilt : IsBuilt 1 0 (λ _. 0)
  start-IsBuilt = record {
    rows = λ k lt. record {
      short = omega arith;
      border = λ b q. cc;
      strong = λ b bi. absurd (omega arith);
    };
    inside = omega arith;
    agrees = λ x lt. absurd (omega arith);
    longest = λ b bi g. omega arith;
  }

-- Each entry of the table that `build_kmp` makes is -1 or a border of the letters before it, and
-- each longer border goes on with the same letter as the pattern.
pub build_kmp-Rows :
    (pattern : List ℕ) → Rows (λ x. get_or pattern x 0) (build_kmp pattern) (length pattern)
unfolding build_kmp
build_kmp-Rows pattern i lt =
    build_from-Rows (λ x. get_or pattern x 0) (length pattern - 1) 1 0 (λ _. 0)
      (start-IsBuilt (λ x. get_or pattern x 0)) i (omega arith)
