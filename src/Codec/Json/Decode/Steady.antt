-- ===== src/Codec/Json/Decode/Steady.antt =====
-- src/80s/lua_codec.c: what each state of `json_decode` keeps true of the Lua stack and the open
-- containers.
use s.Common.{
  ◌==◌, Bool-cases, ℕ, suc, ◌+◌, ◌-◌, ◌≤◌, ◌<◌, ◌≡◌, inl, inr, Bool, true, false, ◌||◌, List, arith,
}
use s.Dynstr.{Allocator, contents}
use s.Codec.Json.Mode.{
  Mode, in_object, in_array, read_key, read_value, read_num, read_real, read_text,
}
use s.Codec.Json.Api.{Lua}
use s.Codec.Json.Machine.{word_true, word_false, word_null}
use s.Codec.Json.Decode.{
  M, step_none, step_in_array, step_in_object, step_read_key, step_read_value, read_word,
  read_constant, begins_constant, step_read_num, step_read_real, step_read_text, step_mode,
}

abbrev is_container : Mode → Bool
is_container in_object = true
is_container in_array = true
is_container _ = false

abbrev is_text : Mode → Bool
is_text read_text = true
is_text _ = false

abbrev opens_table : ℕ → Bool
opens_table c = c == b'{' || c == b'['

module _ (L : Lua) where
  -- At a character `c`: the argument is still on the stack; each container that is open has its
  -- table above it (the innermost one unless `c` is about to open it); and texts are innermost,
  -- inside something.
  pub record IsSteady (c : ℕ) (m : M L) : Type 0 where
    pub base : 1 ≤ L.gettop m.lua
    pub below : (k : ℕ) → suc k < m.level → is_container (m.states k) ≡ true → 2 ≤ m.top k
    pub innermost :
        opens_table c ≡ false
        → 0 < m.level
        → is_container (m.states (m.level - 1)) ≡ true
        → 2 ≤ m.top (m.level - 1)
    pub no_text : (k : ℕ) → suc k < m.level → is_text (m.states k) ≡ false
    pub text_inside : 0 < m.level → is_text (m.states (m.level - 1)) ≡ true → 2 ≤ m.level

  -- The next character is another one only if the text went on.
  abbrev pub Next : ℕ → M L → M L → Type 0
  Next c m m' = (c' : ℕ) → (m'.i ≡ m.i → c' ≡ c) → IsSteady c' m'

  step_in_array-Next :
      (c : ℕ) (m : M L)
      → 0 < m.level
      → m.states (m.level - 1) ≡ in_array
      → IsSteady c m
      → Next c m (step_in_array L c m)
  unfolding step_in_array
  step_in_array-Next c m l e h c' same = record {
    base =
        ground
          (arith, L.gettop-createtable m.lua, L.gettop-rawseti (m.pushes (m.level - 1) + 1) m.lua);
    below = λ k. ground (arith, h.below k, h.innermost, L.gettop-createtable m.lua);
    innermost = ground (arith, h.below (m.level - 2), h.innermost, L.gettop-createtable m.lua);
    no_text = λ k. ground (arith, h.no_text k);
    text_inside = ground (arith, h.no_text (m.level - 2));
  }

  step_none-Next :
      (c : ℕ) (m : M L)
      → 0 < m.level
      → m.states (m.level - 1) ≡ Mode.none
      → IsSteady c m
      → Next c m (step_none L c m)
  unfolding step_none
  step_none-Next c m l e h c' same = record {
    base = ground (arith, h.base);
    below = λ k. ground (arith, h.below k, h.innermost, h.base);
    innermost = ground (arith, h.below (m.level - 2), h.innermost, h.base);
    no_text = λ k. ground (arith, h.no_text k);
    text_inside = ground (arith, h.no_text (m.level - 2));
  }

  step_in_object-Next :
      (c : ℕ) (m : M L)
      → 0 < m.level
      → m.states (m.level - 1) ≡ in_object
      → IsSteady c m
      → Next c m (step_in_object L c m)
  unfolding step_in_object
  step_in_object-Next c m l e h c' same = record {
    base = ground (arith, L.gettop-createtable m.lua, L.gettop-settable m.lua);
    below = λ k.
        ground (arith, h.below k, h.innermost, L.gettop-createtable m.lua, L.gettop-settable m.lua);
    innermost = ground (
      arith,
      h.below (m.level - 2),
      h.innermost,
      L.gettop-createtable m.lua,
      L.gettop-settable m.lua,
    );
    no_text = λ k. ground (arith, h.no_text k);
    text_inside = ground (arith, h.no_text (m.level - 2));
  }

  step_read_key-Next :
      (c : ℕ) (m : M L)
      → 0 < m.level
      → m.states (m.level - 1) ≡ read_key
      → IsSteady c m
      → Next c m (step_read_key L c m)
  unfolding step_read_key
  step_read_key-Next c m l e h c' same = record {
    base = ground (arith, h.base);
    below = λ k. ground (arith, h.below k, h.innermost, h.base);
    innermost = ground (arith, h.below (m.level - 2), h.innermost, h.base);
    no_text = λ k. ground (arith, h.no_text k);
    text_inside = ground (arith, h.no_text (m.level - 2));
  }

  read_word-Next :
      (text word : List ℕ) (push : L.State → L.State) (c : ℕ) (m : M L)
      → 0 < m.level
      → m.states (m.level - 1) ≡ read_value
      → L.gettop (push m.lua) ≡ L.gettop m.lua + 1
      → IsSteady c m
      → Next c m (read_word L text word push m)
  read_word-Next text word push c m l e up h c' same = record {
    base = ground (arith, h.base);
    below = λ k. ground (arith, h.below k);
    innermost = ground (arith, h.below (m.level - 2));
    no_text = λ k. ground (arith, h.no_text k);
    text_inside = ground (arith, h.no_text (m.level - 2));
  }

  read_constant-Next :
      (text : List ℕ) (c : ℕ) (m : M L)
      → 0 < m.level
      → m.states (m.level - 1) ≡ read_value
      → IsSteady c m
      → Next c m (read_constant L text c m)
  unfolding read_constant
  read_constant-Next text c m l e h = elim (Bool-cases (c == b't')) [
    | inl t ↦ rw t (
        read_word-Next text word_true (L.pushboolean true) c m l e (L.gettop-pushboolean true m.lua)
          h)
    | inr not_t ↦ elim (Bool-cases (c == b'f')) [
      | inl f ↦
          rw (not_t, f)
            (read_word-Next text word_false (L.pushboolean false) c m l e
              (L.gettop-pushboolean false m.lua) h)
      | inr not_f ↦
          rw (not_t, not_f)
            (read_word-Next text word_null L.pushnil c m l e (L.gettop-pushnil m.lua) h)
    ]
  ]

  step_read_value-Next :
      (text : List ℕ) (c : ℕ) (m : M L)
      → 0 < m.level
      → m.states (m.level - 1) ≡ read_value
      → IsSteady c m
      → Next c m (step_read_value L text c m)
  unfolding step_read_value
  step_read_value-Next text c m l e h = elim (Bool-cases (begins_constant L c)) [
    | inl constant ↦ rw constant (read_constant-Next text c m l e h)
    | inr other ↦ rw other (λ c' same. record {
      base = ground (arith, h.base);
      below = λ k. ground (arith, h.below k, h.innermost);
      innermost = ground (arith, h.below (m.level - 2), h.innermost);
      no_text = λ k. ground (arith, h.no_text k);
      text_inside = ground (arith, h.no_text (m.level - 2));
    })
  ]

  step_read_num-Next :
      (c : ℕ) (m : M L)
      → 0 < m.level
      → m.states (m.level - 1) ≡ read_num
      → IsSteady c m
      → Next c m (step_read_num L c m)
  unfolding step_read_num
  step_read_num-Next c m l e h c' same = record {
    base = ground (arith, L.gettop-pushinteger m.negative m.num m.lua);
    below =
        λ k. ground (arith, h.below k, h.innermost, L.gettop-pushinteger m.negative m.num m.lua);
    innermost =
        ground
          (arith, h.below (m.level - 2), h.innermost, L.gettop-pushinteger m.negative m.num m.lua);
    no_text = λ k. ground (arith, h.no_text k);
    text_inside = ground (arith, h.no_text (m.level - 2));
  }

  step_read_real-Next :
      (c : ℕ) (m : M L)
      → 0 < m.level
      → m.states (m.level - 1) ≡ read_real
      → IsSteady c m
      → Next c m (step_read_real L c m)
  unfolding step_read_real
  step_read_real-Next c m l e h c' same = record {
    base =
        ground
          (arith, L.gettop-pushnumber (L.real_value m.negative m.num m.real m.fractions) m.lua);
    below = λ k. ground (
      arith,
      h.below k,
      h.innermost,
      L.gettop-pushnumber (L.real_value m.negative m.num m.real m.fractions) m.lua,
    );
    innermost = ground (
      arith,
      h.below (m.level - 2),
      h.innermost,
      L.gettop-pushnumber (L.real_value m.negative m.num m.real m.fractions) m.lua,
    );
    no_text = λ k. ground (arith, h.no_text k);
    text_inside = ground (arith, h.no_text (m.level - 2));
  }

  step_read_text-Next :
      (a : Allocator) (text : List ℕ) (c : ℕ) (m : M L)
      → 0 < m.level
      → m.states (m.level - 1) ≡ read_text
      → IsSteady c m
      → Next c m (step_read_text L a text c m)
  unfolding step_read_text
  step_read_text-Next a text c m l e h c' same = record {
    base = ground (arith, L.gettop-pushlstring (contents m.str) m.lua);
    below =
        λ k. ground (arith, h.below k, h.innermost, L.gettop-pushlstring (contents m.str) m.lua);
    innermost =
        ground
          (arith, h.below (m.level - 2), h.innermost, L.gettop-pushlstring (contents m.str) m.lua);
    no_text = λ k. ground (arith, h.no_text k);
    text_inside = ground (arith, h.no_text (m.level - 2));
  }

  pub step_mode-Next :
      (a : Allocator) (text : List ℕ) (c : ℕ) (mode : Mode) (m : M L)
      → 0 < m.level
      → m.states (m.level - 1) ≡ mode
      → IsSteady c m
      → Next c m (step_mode L a text c mode m)
  unfolding step_mode
  step_mode-Next a text c Mode.none m l e h = step_none-Next c m l e h
  step_mode-Next a text c in_array m l e h = step_in_array-Next c m l e h
  step_mode-Next a text c in_object m l e h = step_in_object-Next c m l e h
  step_mode-Next a text c read_key m l e h = step_read_key-Next c m l e h
  step_mode-Next a text c read_value m l e h = step_read_value-Next text c m l e h
  step_mode-Next a text c read_num m l e h = step_read_num-Next c m l e h
  step_mode-Next a text c read_real m l e h = step_read_real-Next c m l e h
  step_mode-Next a text c read_text m l e h = step_read_text-Next a text c m l e h
