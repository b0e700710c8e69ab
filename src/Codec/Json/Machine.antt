-- ===== src/Codec/Json/Machine.antt =====
-- src/80s/lua_codec.c: the local variables of `json_decode`, and the small moves that its states
-- share.
use s.Common.{
  leb, ◌==◌, if◌then◌else◌, get_or, ℕ, suc, ◌+◌, ◌-◌, Bool, true, false, ◌&&◌, ◌||◌, List, [], ◌∷◌,
}
use s.Dynstr.{Dynstr}
use s.Codec.Json.Mode.{Mode}

-- An array of the C function, written at one index.
abbrev pub update {ℓ} : {A : Type ℓ} → (ℕ → A) → ℕ → A → ℕ → A
update f k v j = if j == k then v else f j

-- The local variables. `level` is `at + 1`, so that `at == -1` is level 0, and `states[at]` is
-- `states (level - 1)`. The 64-bit numbers are bit patterns.
pub record Machine (S : Type 0) : Type 0 where
  pub ok : Bool
  pub i : ℕ
  pub level : ℕ
  pub states : ℕ → Mode
  pub top : ℕ → ℕ
  pub pushes : ℕ → ℕ
  pub str : Dynstr
  pub negative : Bool
  pub num : ℕ
  pub real : ℕ
  pub fractions : ℕ
  pub lua : S

abbrev pub is_space : ℕ → Bool
is_space c = c == b' ' || c == b'\n' || c == b'\t' || c == b'\r'

abbrev pub is_digit : ℕ → Bool
is_digit c = leb b'0' c && leb c b'9'

-- `case '\\'` maps the character behind it.
abbrev pub unescaped : ℕ → ℕ
unescaped c =
    if c == b'n'
    then b'\n'
    else if c == b'r'
    then b'\r'
    else if c == b't'
    then b'\t'
    else if c == b'b'
    then 8
    else if c == b'0'
    then 0
    else c

-- `!strncmp(text + i, word, length)`
abbrev pub word_at : List ℕ → ℕ → List ℕ → Bool
word_at text i [] = true
word_at text i (w ∷ ws) = get_or text i 0 == w && word_at text (suc i) ws

abbrev pub word_true : List ℕ
word_true = b't' ∷ b'r' ∷ b'u' ∷ b'e' ∷ []

abbrev pub word_false : List ℕ
word_false = b'f' ∷ b'a' ∷ b'l' ∷ b's' ∷ b'e' ∷ []

abbrev pub word_null : List ℕ
word_null = b'n' ∷ b'u' ∷ b'l' ∷ b'l' ∷ []

module _ {S : Type 0} where
  abbrev pub fail : Machine S → Machine S
  fail m = record m { ok = false }

  abbrev pub advance : Machine S → Machine S
  advance m = record m { i = m.i + 1 }

  -- `states[++at] = mode`
  abbrev pub enter : Mode → Machine S → Machine S
  enter mode m = record m { states = update m.states m.level mode; level = m.level + 1 }

  -- `states[at] = mode`
  abbrev pub switch : Mode → Machine S → Machine S
  switch mode m = record m { states = update m.states (m.level - 1) mode }

  -- `at--`
  abbrev pub leave : Machine S → Machine S
  leave m = record m { level = m.level - 1 }

  -- `pushes[at]`, counted up
  abbrev pub count : Machine S → Machine S
  count m = record m { pushes = update m.pushes (m.level - 1) (m.pushes (m.level - 1) + 1) }
