-- ===== src/Kmp.antt =====
-- src/80s/algo.c: the search of Knuth, Morris and Pratt, `build_kmp` and `kmp`.
pub mod Agree
pub mod Answer
pub mod Build
pub mod Search
mod Tests
use s.Common.{
  ltb, leb, ◌==◌, if◌then◌else◌, length, get_or, ℕ, zero, suc, ◌+◌, ◌-◌, ◌*◌, ◌^◌, ◌||◌, Option,
  none, some, List,
}

-- The table `KMP_T`. Its entries start at -1: an entry `e` is kept as `e + 1`.
abbrev pub Table : Type 0
Table = ℕ → ℕ

abbrev pub store_entry : Table → ℕ → ℕ → Table
store_entry t i e k = if k == i then e else t k

-- `while (j >= 0 && pattern[i] != pattern[j]) j = KMP_T[j];` for `j + 1`, with fuel for its rounds.
unfoldable pub fall_back : (ℕ → ℕ) → Table → ℕ → ℕ → ℕ → ℕ
fall_back p t c fuel zero = zero
fall_back p t c zero (suc j) = suc j
fall_back p t c (suc fuel) (suc j) =
    let again = fall_back p t c fuel (t j) in if c == p j then suc j else again

-- A round of the outer loop: the entry for `i`, and the next `j`.
unfoldable pub build_step : (ℕ → ℕ) → ℕ → ℕ → Table → Table × ℕ
build_step p i j t =
    if p i == p j
    then (store_entry t i (t j), j + 1)
    else (store_entry t i (j + 1), fall_back p (store_entry t i (j + 1)) (p i) (j + 1) (j + 1))

-- `while (i < pattern_len)`, by the rounds that are left, then the last entry.
unfoldable pub build_from : (ℕ → ℕ) → ℕ → ℕ → ℕ → Table → Table
build_from p zero i j t = store_entry t i (j + 1)
build_from p (suc rounds) i j t =
    let (t', j') = build_step p i j t in build_from p rounds (i + 1) j' t'

unfoldable pub build_kmp : List ℕ → Table
build_kmp pattern = build_from (λ x. get_or pattern x 0) (length pattern - 1) 1 0 (λ _. 0)

-- `kmp_result`
pub record Result : Type 0 where
  pub offset : ℕ
  pub length : ℕ

-- `while (j < len)`, with fuel for its rounds: `none` if it runs out. (`j == len` does not occur in
-- the loop.)
unfoldable pub search_from : (ℕ → ℕ) → ℕ → (ℕ → ℕ) → ℕ → Table → ℕ → ℕ → ℕ → Option Result
search_from p plen h len t zero j k = none
search_from p plen h len t (suc fuel) j k =
    let matched = search_from p plen h len t fuel (j + 1) (k + 1) in
    let shifted = search_from p plen h len t fuel j (t k - 1) in
    let skipped = search_from p plen h len t fuel (j + 1) 0 in
    if leb len j
    then some (record { offset = j - k; length = k })
    else if p k == h j
    then (if k + 1 == plen
        then some (record { offset = j + 1 - (k + 1); length = k + 1 })
        else matched)
    else if t k == 0
    then skipped
    else shifted

-- `memchr(haystack + offset, c, len - offset)`: the first place from `j` on, by the bytes left.
unfoldable pub memchr : (ℕ → ℕ) → ℕ → ℕ → ℕ → Option ℕ
memchr h c zero j = none
memchr h c (suc left) j = let later = memchr h c left (j + 1) in if h j == c then some j else later

-- What `kmp` makes of the answer of `memchr`.
unfoldable pub letter_result : ℕ → Option ℕ → Result
letter_result len none = record { offset = len; length = 0 }
letter_result len (some found) = record { offset = found; length = 1 }

-- `(size_t)-1`, the offset for a pattern that is too long for the local table.
abbrev pub no_offset : ℕ
no_offset = 2 ^ 64 - 1

-- `kmp`, without a table, or with one that the caller has built. `none` is undefined behaviour:
-- `len - offset` wraps around and `memchr` reads behind the text, or `(int64_t)offset` is
-- negative and the loop reads before it.
unfoldable pub kmp : List ℕ → List ℕ → ℕ → Option Table → Option Result
unfolding build_kmp search_from memchr
kmp haystack pattern offset table =
    let len = length haystack in
    let plen = length pattern in
    let p = λ (x : ℕ). get_or pattern x 0 in
    let h = λ (x : ℕ). get_or haystack x 0 in
    let run = λ (t : Table).
      let found = search_from p plen h len t (2 * len + 1) offset 0 in
      if leb (2 ^ 63) offset then none else found in
    let own : Option Result =
      if ltb 256 plen
      then some (record { offset = no_offset; length = 0 })
      else run (build_kmp pattern) in
    if len == 0 || plen == 0
    then some (record { offset = len; length = 0 })
    else if plen == 1
    then (if ltb len offset
        then none
        else some (letter_result len (memchr h (p 0) (len - offset) offset)))
    else elim table [ none ↦ own | some t ↦ run t ]
