-- ===== src/Kmp/Answer.antt =====
-- src/80s/algo.c: the loop of `kmp` finds the first occurrence, or the longest beginning at the
-- end.
use s.Common.{
  ltb, leb, ◌==◌, Bool-cases, ℕ, zero, suc, ◌+◌, ◌-◌, ◌*◌, ◌≤◌, ◌<◌, min, ◌≡◌, refl, sym, ap, subst,
  ◌∙◌, ◌≢◌, inl, inr, some, arith,
}
use s.Kmp.{Table, Result, search_from}
use s.Kmp.Agree.{Agree, Agree-shift, Agree-meet, Rows}

-- What `kmp` should answer for a search from `from` on: the first place where the pattern stands
-- as a whole or runs into the end of the text, and how much of it stands there.
pub record IsAnswer (p h : ℕ → ℕ) (plen len from : ℕ) (r : Result) : Type 0 where
  pub begins : from ≤ r.offset
  pub inside : r.offset + r.length ≤ len
  pub at_most : r.length ≤ plen
  pub agrees : Agree p h r.offset r.length
  pub ends : r.length ≢ plen → r.offset + r.length ≡ len
  pub first : (s : ℕ) → from ≤ s → s < r.offset → ¬ Agree p h s (min plen (len - s))

module _ (p h : ℕ → ℕ) (plen len from : ℕ) (t : Table) (rows : Rows p t plen) where
  -- No place before `s` can still become an occurrence, as the letters up to `h[j]` show.
  abbrev Dead : ℕ → ℕ → Type 0
  Dead j s0 = (s : ℕ) → from ≤ s → s < s0 → ¬ Agree p h s (min plen (min len (j + 1) - s))

  record IsAt (j k : ℕ) : Type 0 where
    within : k ≤ j
    begins : from ≤ j - k
    shorter : k < plen
    bounded : j ≤ len
    agrees : Agree p h (j - k) k
    dead : Dead j (j - k)

  Agree-less : (s n m : ℕ) → m ≤ n → Agree p h s n → Agree p h s m
  Agree-less s n m le f x lt = f x (omega arith)

  Agree-at : (s s' n : ℕ) → s ≡ s' → Agree p h s n → Agree p h s' n
  Agree-at s s' n e = subst (λ u. Agree p h u n) e

  Dead-next : (j s0 : ℕ) → Dead j s0 → Dead (j + 1) s0
  Dead-next j s0 d s from_s lt f = d s from_s lt (
      Agree-less s (min plen (min len (j + 2) - s)) (min plen (min len (j + 1) - s)) (omega arith)
        (λ x l. f x (omega arith)))

  -- At a mismatch the places between the current one and that of the entry are dead too.
  Dead-shift :
      (j k : ℕ)
      → IsAt j k
      → j < len
      → p k ≢ h j
      → (s : ℕ) → from ≤ s
      → s + t k ≤ j
      → ¬ Agree p h s (min plen (min len (j + 1) - s))
  Dead-shift j k a jl ne s from_s le f = elim (Bool-cases (ltb s (j - k))) [
    | inl early ↦ a.dead s from_s (ground arith) f
    | inr late ↦
        let b = j - s in
        let sb : s + b ≡ j = ground arith in
        let bk : b ≤ k = ground (arith, a.within) in
        let letter : p b ≡ h j = f b (omega (arith, a.shorter)) ∙ ap h sb in
        elim (Bool-cases (b == k)) [
          | inl same ↦ let e : k ≡ b = ground arith in ne (ap p e ∙ letter)
          | inr other ↦
              let lt : b < k = ground arith in
              let at : Agree p h (j - k + (k - b)) b =
                λ x l. f x (omega (arith, a.shorter)) ∙ ap h (omega (arith, a.within)) in
              let border = Agree-meet p h (j - k) k (k - b) b a.agrees at (omega arith) in
              ne (sym ((rows k a.shorter).strong b lt (omega arith) border) ∙ letter)
        ]
  ]

  match-agrees : (j k : ℕ) → IsAt j k → p k ≡ h j → Agree p h (j - k) (k + 1)
  match-agrees j k a e x lt = elim (Bool-cases (x == k)) [
    | inl last ↦ let q : x ≡ k = ground arith in ap p q ∙ e ∙ ap h (omega (arith, a.within))
    | inr before ↦ a.agrees x (ground arith)
  ]

  match-IsAt : (j k : ℕ) → IsAt j k → j < len → p k ≡ h j → k + 1 < plen → IsAt (j + 1) (k + 1)
  match-IsAt j k a jl e more = record {
    within = omega (arith, a.within);
    begins = omega (arith, a.begins);
    shorter = more;
    bounded = omega arith;
    agrees = Agree-at (j - k) (j + 1 - (k + 1)) (k + 1) (omega arith) (match-agrees j k a e);
    dead = λ s from_s lt. Dead-next j (j - k) a.dead s from_s (omega (arith, lt));
  }

  shift-IsAt : (j k : ℕ) → IsAt j k → j < len → p k ≢ h j → (b : ℕ) → t k ≡ suc b → IsAt j b
  shift-IsAt j k a jl ne b e =
      let r = rows k a.shorter in
      let bk : b < k = omega (arith, r.short) in
      record {
        within = omega (arith, a.within);
        begins = omega (arith, a.begins, a.within);
        shorter = omega (arith, a.shorter);
        bounded = a.bounded;
        agrees =
            Agree-at (j - k + (k - b)) (j - b) b (omega (arith, a.within))
              (Agree-shift p h (j - k) k (k - b) b a.agrees (r.border b e) (omega arith));
        dead = λ s from_s lt. Dead-shift j k a jl ne s from_s (omega (arith, lt));
      }

  skip-IsAt : (j k : ℕ) → IsAt j k → j < len → 0 < plen → p k ≢ h j → t k ≡ 0 → IsAt (j + 1) 0
  skip-IsAt j k a jl some_letter ne e = record {
    within = omega arith;
    begins = omega (arith, a.begins);
    shorter = some_letter;
    bounded = omega arith;
    agrees = λ x lt. absurd (omega arith);
    dead = λ s from_s lt.
        Dead-next j (j + 1) (λ s' f' l'. Dead-shift j k a jl ne s' f' (omega (arith, l'))) s from_s
          (omega (arith, lt));
  }

  found-IsAnswer :
      (j k : ℕ)
      → IsAt j k
      → j < len
      → p k ≡ h j
      → k + 1 ≡ plen
      → IsAnswer p h plen len from (record { offset = j + 1 - (k + 1); length = k + 1 })
  found-IsAnswer j k a jl e full = record {
    begins = omega (arith, a.begins);
    inside = omega (arith, a.within);
    at_most = omega arith;
    agrees = Agree-at (j - k) (j + 1 - (k + 1)) (k + 1) (omega arith) (match-agrees j k a e);
    ends = λ ne. absurd (ne full);
    first = λ s from_s lt f.
        a.dead s from_s (omega (arith, lt))
          (Agree-less s (min plen (len - s)) (min plen (min len (j + 1) - s)) (omega arith) f);
  }

  ended-IsAnswer :
      (j k : ℕ)
      → IsAt j k
      → len ≤ j
      → IsAnswer p h plen len from (record { offset = j - k; length = k })
  ended-IsAnswer j k a done = record {
    begins = a.begins;
    inside = omega (arith, a.within, a.bounded);
    at_most = omega (arith, a.shorter);
    agrees = a.agrees;
    ends = λ ne. omega (arith, a.within, a.bounded);
    first = λ s from_s lt f.
        a.dead s from_s lt
          (Agree-less s (min plen (len - s)) (min plen (min len (j + 1) - s)) (omega arith) f);
  }

  -- The loop ends, with the right answer.
  search_from-IsAnswer :
      (fuel j k : ℕ)
      → 0 < plen
      → IsAt j k
      → 2 * (len - j) + k < fuel
      → (r : Result) × (search_from p plen h len t fuel j k ≡ some r) × IsAnswer p h plen len from r
  unfolding search_from
  search_from-IsAnswer zero j k pos a m = absurd (omega arith)
  search_from-IsAnswer (suc fuel) j k pos a m = elim (Bool-cases (leb len j)) [
    | inl done ↦ (_, rw done refl, ended-IsAnswer j k a (ground arith))
    | inr more ↦
        let jl : j < len = ground arith in
        elim (Bool-cases (p k == h j)) [
          | inl same ↦
              let e : p k ≡ h j = ground arith in
              elim (Bool-cases (k + 1 == plen)) [
                | inl full ↦
                    (_, rw (more, same, full) refl, found-IsAnswer j k a jl e (ground arith))
                | inr part ↦
                    rw (more, same, part)
                      (search_from-IsAnswer fuel (j + 1) (k + 1) pos
                        (match-IsAt j k a jl e (ground (arith, a.shorter))) (omega arith))
              ]
          | inr differs ↦
              let ne : p k ≢ h j = λ q. ground arith in
              elim (Bool-cases (t k == 0)) [
                | inl start_over ↦
                    rw (more, differs, start_over)
                      (search_from-IsAnswer fuel (j + 1) 0 pos
                        (skip-IsAt j k a jl pos ne (ground arith)) (omega arith))
                | inr entry ↦
                    rw (more, differs, entry)
                      (search_from-IsAnswer fuel j (t k - 1) pos
                        (shift-IsAt j k a jl ne (t k - 1) (ground arith))
                        (ground (arith, (rows k a.shorter).short)))
              ]
        ]
  ]

  begins-IsAt : 0 < plen → from ≤ len → IsAt from 0
  begins-IsAt pos le = record {
    within = omega arith;
    begins = omega arith;
    shorter = pos;
    bounded = le;
    agrees = λ x lt. absurd (omega arith);
    dead = λ s from_s lt. absurd (omega arith);
  }

  pub search-IsAnswer :
      0 < plen
      → from ≤ len
      → (r : Result) × (search_from p plen h len t (2 * len + 1) from 0 ≡ some r)
        × IsAnswer p h plen len from r
  search-IsAnswer pos le =
      search_from-IsAnswer (2 * len + 1) from 0 pos (begins-IsAt pos le) (omega arith)
