-- ===== src/Net/Partscan.antt =====
-- src/80s/lua_net.c: `l_net_partscan`, the search as scripts call it, with places counted from 1.
mod Tests
use s.Common.{
  length, get_or, ◌>>=◌, size_mod, sub_size, ℕ, ◌+◌, ◌-◌, ◌%◌, ◌^◌, ◌≤◌, ◌<◌, ◌≡◌, refl, inl,
  Option, none, some, List, arith,
}
use s.Kmp.{Result, kmp, build_kmp}
use s.Kmp.Search.{Answered, kmp_lem}
use s.Kmp.Answer.{IsAnswer}

-- A number of a script is the 64 bits of a `lua_Integer`.
unfoldable pub l_net_partscan : List ℕ → List ℕ → ℕ → Option (ℕ × ℕ)
l_net_partscan haystack pattern index =
    kmp haystack pattern (sub_size index 1) none >>= λ r. some ((r.offset + 1) % size_mod, r.length)

partscan-kmp :
    (haystack pattern : List ℕ) (index offset : ℕ) (r : Result)
    → sub_size index 1 ≡ offset
    → kmp haystack pattern offset none ≡ some r
    → r.offset + 1 < size_mod
    → l_net_partscan haystack pattern index ≡ some (r.offset + 1, r.length)
unfolding l_net_partscan
partscan-kmp haystack pattern index offset r from e small =
    let unwrapped : (r.offset + 1) % size_mod ≡ r.offset + 1 = omega (arith, small) in
    rw (from, e, unwrapped) refl

-- For texts that are not empty, the first below 2 ^ 63 and the second up to 256 bytes, and a
-- place from 1 to the one behind the text: the first place from there on, counted from 1, where
-- the pattern stands as a whole or runs into the end of the text, and how much of it stands
-- there.
pub partscan_finds :
    (haystack pattern : List ℕ) (index : ℕ)
    → 1 ≤ length haystack
    → length haystack < 2 ^ 63
    → 1 ≤ length pattern
    → length pattern ≤ 256
    → 1 ≤ index
    → index ≤ length haystack + 1
    → (r : Result) × (l_net_partscan haystack pattern index ≡ some (r.offset + 1, r.length))
      × IsAnswer
          (λ x. get_or pattern x 0)
          (λ x. get_or haystack x 0)
          (length pattern)
          (length haystack)
          (index - 1)
          r
partscan_finds haystack pattern index text small letters fits first inside =
    let from : sub_size index 1 ≡ index - 1 = omega arith in
    let (r, e, answer) =
      kmp_lem haystack pattern (index - 1) none text letters (omega arith) small
        (inl (refl, fits)) in
    (
      r,
      partscan-kmp haystack pattern index (index - 1) r from e (omega (arith, answer.inside)),
      answer,
    )
