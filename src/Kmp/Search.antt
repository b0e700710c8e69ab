-- ===== src/Kmp/Search.antt =====
-- src/80s/algo.c: what `kmp` answers, on every way through it.
use s.Common.{
  ltb, leb, ◌==◌, Bool-cases, length, get_or, ℕ, zero, suc, ◌+◌, ◌-◌, ◌^◌, ◌≤◌, ◌<◌, ◌≡◌, refl, ap,
  ◌∙◌, ◌≢◌, ◌⊎◌, inl, inr, false, ◌||◌, Option, none, some, List, arith,
}
use s.Kmp.{Table, Result, memchr, build_kmp, letter_result, kmp}
use s.Kmp.Build.{build_kmp-Rows}
use s.Kmp.Answer.{IsAnswer, search-IsAnswer}

module _ (p h : ℕ → ℕ) (len from : ℕ) where
  NoLetter : ℕ → Type 0
  NoLetter j = (s : ℕ) → from ≤ s → s < j → p 0 ≢ h s

  none-IsAnswer : from ≤ len → NoLetter len → IsAnswer p h 1 len from (letter_result len none)
  unfolding letter_result NoLetter
  none-IsAnswer le no_letter = record {
    begins = le;
    inside = omega arith;
    at_most = omega arith;
    agrees = λ x lt. absurd (omega arith);
    ends = λ ne. omega arith;
    first = λ s from_s lt f. no_letter s from_s lt (f 0 (omega arith) ∙ ap h (omega arith));
  }

  some-IsAnswer :
      (j : ℕ)
      → from ≤ j
      → j < len
      → NoLetter j
      → p 0 ≡ h j
      → IsAnswer p h 1 len from (letter_result len (some j))
  unfolding letter_result NoLetter
  some-IsAnswer j le lt no_letter e = record {
    begins = le;
    inside = omega arith;
    at_most = omega arith;
    agrees = λ x lt'. let z : x ≡ 0 = omega arith in ap p z ∙ e ∙ ap h (omega arith);
    ends = λ ne. absurd (ne refl);
    first = λ s from_s lt' f. no_letter s from_s lt' (f 0 (omega arith) ∙ ap h (omega arith));
  }

  memchr-IsAnswer :
      (left j : ℕ)
      → from ≤ j
      → j + left ≡ len
      → NoLetter j
      → IsAnswer p h 1 len from (letter_result len (memchr h (p 0) left j))
  unfolding memchr letter_result NoLetter
  memchr-IsAnswer zero j le e n =
      let q : j ≡ len = omega arith in none-IsAnswer (omega arith) (rw (← q) n)
  memchr-IsAnswer (suc left) j le e n = elim (Bool-cases (h j == p 0)) [
    | inl same ↦ rw same (some-IsAnswer j le (omega arith) n (ground arith))
    | inr other ↦ rw other (
        memchr-IsAnswer left (j + 1) (omega arith) (omega arith) (λ s from_s lt q.
          elim (Bool-cases (s == j)) [
            | inl here ↦
                let z : s ≡ j = ground arith in let q' : p 0 ≡ h j = q ∙ ap h z in ground arith
            | inr before ↦ n s from_s (ground arith) q
          ]))
  ]

-- A whole answer of `kmp` for the two texts.
abbrev pub Answered : List ℕ → List ℕ → ℕ → Option Result → Type 0
Answered haystack pattern offset o =
    (r : Result) × (o ≡ some r)
    × IsAnswer (λ x. get_or pattern x 0) (λ x. get_or haystack x 0) (length pattern)
        (length haystack) offset r

module _ (haystack pattern : List ℕ) (offset : ℕ) (some_text : 1 ≤ length haystack)
    (inside : offset ≤ length haystack) (small : length haystack < 2 ^ 63) where
  kmp-letter :
      (table : Option Table)
      → length pattern ≡ 1
      → Answered haystack pattern offset (kmp haystack pattern offset table)
  unfolding kmp NoLetter
  kmp-letter table one =
      let e : ((length haystack == 0) || (length pattern == 0)) ≡ false = ground arith in
      let e2 : ltb (length haystack) offset ≡ false = ground (arith, inside) in
      rw (e, one, e2)
        (
          _,
          refl,
          memchr-IsAnswer (λ x. get_or pattern x 0) (λ x. get_or haystack x 0) (length haystack)
              offset (length haystack - offset) offset (omega arith) (omega arith)
              (λ s from_s lt. absurd (omega arith)),
        )

  kmp-own :
      2 ≤ length pattern
      → length pattern ≤ 256
      → Answered haystack pattern offset (kmp haystack pattern offset none)
  unfolding kmp
  kmp-own two fits =
      let e : ((length haystack == 0) || (length pattern == 0)) ≡ false = ground arith in
      let e2 : (length pattern == 1) ≡ false = ground arith in
      let e3 : ltb 256 (length pattern) ≡ false = ground arith in
      let e4 : leb (2 ^ 63) offset ≡ false = ground (arith, inside, small) in
      rw (e, e2, e3, e4)
        (search-IsAnswer (λ x. get_or pattern x 0) (λ x. get_or haystack x 0) (length pattern)
          (length haystack) offset (build_kmp pattern) (build_kmp-Rows pattern) (omega arith)
          inside)

  kmp-given :
      2 ≤ length pattern
      → Answered haystack pattern offset (kmp haystack pattern offset (some (build_kmp pattern)))
  unfolding kmp
  kmp-given two =
      let e : ((length haystack == 0) || (length pattern == 0)) ≡ false = ground arith in
      let e2 : (length pattern == 1) ≡ false = ground arith in
      let e4 : leb (2 ^ 63) offset ≡ false = ground (arith, inside, small) in
      rw (e, e2, e4)
        (search-IsAnswer (λ x. get_or pattern x 0) (λ x. get_or haystack x 0) (length pattern)
          (length haystack) offset (build_kmp pattern) (build_kmp-Rows pattern) (omega arith)
          inside)

-- For a text and a pattern that are not empty and an offset that is not past the text's end, the
-- text below 2 ^ 63 bytes: with its own table for a pattern of up to 256 letters, or with the
-- caller's from `build_kmp`, `kmp` ends, and answers with the first place from the offset on
-- where the pattern stands as a whole or runs into the end of the text, and with the number of
-- its letters there.
pub kmp_lem :
    (haystack pattern : List ℕ) (offset : ℕ) (table : Option Table)
    → 1 ≤ length haystack
    → 1 ≤ length pattern
    → offset ≤ length haystack
    → length haystack < 2 ^ 63
    → (table ≡ none × length pattern ≤ 256) ⊎ (table ≡ some (build_kmp pattern))
    → Answered haystack pattern offset (kmp haystack pattern offset table)
kmp_lem haystack pattern offset table text some_letter inside small ways =
    elim (Bool-cases (length pattern == 1)) [
      | inl one ↦ kmp-letter haystack pattern offset text inside small table (ground arith)
      | inr more ↦ elim ways [
        | inl (e, fits) ↦
            rw e (kmp-own haystack pattern offset text inside small (ground arith) fits)
        | inr e ↦ rw e (kmp-given haystack pattern offset text inside small (ground arith))
      ]
    ]
