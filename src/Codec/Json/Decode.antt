-- ===== src/Codec/Json/Decode.antt =====
-- src/80s/lua_codec.c: `json_decode`, a stack of states over a text.
pub mod Ends
pub mod Height
pub mod Steady
use s.Common.{
  ltb, ◌==◌, if◌then◌else◌, length, get_or, ◌>>=◌, size_mod, ℕ, zero, suc, ◌+◌, ◌-◌, ◌*◌, ◌%◌, Bool,
  true, false, not, ◌&&◌, ◌||◌, Option, none, some, List,
}
use s.Dynstr.{Dynstr, Allocator, contents, init, putc}
use s.Codec.Json.Mode.{
  Mode, in_object, in_array, read_key, read_value, read_num, read_real, read_text,
}
use s.Codec.Json.Api.{Lua}
use s.Codec.Json.Machine.{
  Machine, update, is_space, is_digit, unescaped, word_at, word_true, word_false, word_null, fail,
  advance, enter, switch, leave, count,
}

-- How a call of `json_decode` ends.
pub data Outcome (S : Type 0) : Type 0 where
  returned : S → Outcome S
  broken_off : Outcome S

module _ (L : Lua) where
  open L use {
    State, gettop, gone, createtable, pushnil, pushboolean, pushinteger, pushnumber, pushlstring,
    rawseti, settable, pop, real_value,
  }

  abbrev pub M : Type 0
  M = Machine State

  -- `lua_rawseti(L, -2, ++pushes[at])`
  abbrev pub append_item : M → M
  append_item m = record m {
    pushes = update m.pushes (m.level - 1) (m.pushes (m.level - 1) + 1);
    lua = rawseti (m.pushes (m.level - 1) + 1) m.lua;
  }

  -- `lua_createtable(L, 0, 0); top[at] = lua_gettop(L);`
  abbrev pub open_table : M → M
  open_table m = record m {
    lua = createtable m.lua;
    top = update m.top (m.level - 1) (gettop (createtable m.lua));
  }

  unfoldable pub step_none : ℕ → M → M
  step_none c m =
      if c == b'{'
      then switch in_object m
      else if c == b'['
      then switch in_array m
      else if is_space c
      then advance m
      else fail m

  unfoldable pub step_in_array : ℕ → M → M
  step_in_array c m =
      let opened = open_table m in
      let over = gettop m.lua in
      let base = m.top (m.level - 1) in
      if c == b'['
      then advance (enter read_value (record opened { pushes = update m.pushes (m.level - 1) 0 }))
      else if c == b','
      then (if over == base
          then advance m
          else if not (over == base + 1)
          then fail m
          else advance (enter read_value (append_item m)))
      else if c == b']'
      then (if over == base
          then leave (advance m)
          else if not (over == base + 1)
          then fail m
          else advance (leave (append_item m)))
      else if is_space c
      then advance m
      else fail m

  unfoldable pub step_in_object : ℕ → M → M
  step_in_object c m =
      let over = gettop m.lua in
      let base = m.top (m.level - 1) in
      if c == b'{'
      then advance (enter read_key (open_table m))
      else if c == b','
      then (if over == base
          then advance (leave m)
          else if not (over == base + 2)
          then fail m
          else advance (enter read_key (record m { lua = settable m.lua })))
      else if c == b'}'
      then (if over == base
          then advance (leave m)
          else if not (over == base + 2)
          then fail m
          else advance (leave (record m { lua = settable m.lua })))
      else if is_space c
      then advance m
      else fail m

  -- `states[++at] = read_text; str.length = 0; i++;`
  abbrev pub open_text : M → M
  open_text m = advance (enter read_text (record m { str = record (m.str) { length = 0 } }))

  unfoldable pub step_read_key : ℕ → M → M
  step_read_key c m =
      if c == b'}'
      then leave m
      else if c == b'"'
      then open_text m
      else if c == b':'
      then advance (switch read_value m)
      else if is_space c
      then advance m
      else fail m

  -- A constant of `size` letters: pushed, with the rest of it skipped, if the text has it and
  -- goes on.
  abbrev pub read_word : List ℕ → List ℕ → (State → State) → M → M
  read_word text word push m =
      if ltb (m.i + length word) (length text) && word_at text m.i word
      then leave (record m { lua = push m.lua; i = m.i + length word })
      else advance m

  -- `case 't'`, `case 'f'` and `case 'n'`
  unfoldable pub read_constant : List ℕ → ℕ → M → M
  read_constant text c m =
      if c == b't'
      then read_word text word_true (pushboolean true) m
      else if c == b'f'
      then read_word text word_false (pushboolean false) m
      else read_word text word_null pushnil m

  abbrev pub begins_constant : ℕ → Bool
  begins_constant c = c == b't' || c == b'f' || c == b'n'

  unfoldable pub step_read_value : List ℕ → ℕ → M → M
  step_read_value text c m =
      if begins_constant c
      then read_constant text c m
      else if c == b'"'
      then open_text m
      else if c == b',' || c == b'}' || c == b']'
      then leave m
      else if c == b'{'
      then enter in_object m
      else if c == b'['
      then enter in_array m
      else if c == b'-'
      then advance (enter read_num (record m { negative = true; num = 0 }))
      else if is_digit c
      then enter read_num (record m { negative = false; num = 0 })
      else if is_space c
      then advance m
      else fail m

  unfoldable pub step_read_num : ℕ → M → M
  step_read_num c m =
      if is_digit c
      then advance (record m { num = (m.num * 10 + (c - b'0')) % size_mod })
      else if c == b'.'
      then advance (switch read_real (record m { real = 0; fractions = 0 }))
      else if c == b',' || c == b'}' || c == b']' || is_space c
      then leave (record m { lua = pushinteger m.negative m.num m.lua })
      else fail m

  unfoldable pub step_read_real : ℕ → M → M
  step_read_real c m =
      if is_digit c
      then advance (record m {
        real = (m.real * 10 + (c - b'0')) % size_mod;
        fractions = if m.fractions == 0 then 10 else m.fractions * 10 % size_mod;
      })
      else if c == b',' || c == b'}' || c == b']' || is_space c
      then leave
          (record m { lua = pushnumber (real_value m.negative m.num m.real m.fractions) m.lua })
      else fail m

  unfoldable pub step_read_text : Allocator → List ℕ → ℕ → M → M
  step_read_text a text c m =
      if c == b'"'
      then advance (count (leave (record m { lua = pushlstring (contents m.str) m.lua })))
      else if c == b'\\'
      then (if ltb (m.i + 1) (length text)
          then record m {
            i = m.i + 2;
            str = (putc a m.str (unescaped (get_or text (m.i + 1) 0))).0;
          }
          else advance m)
      else advance (record m { str = (putc a m.str c).0 })

  -- `switch (*current_state)`
  unfoldable pub step_mode : Allocator → List ℕ → ℕ → Mode → M → M
  step_mode a text c Mode.none m = step_none c m
  step_mode a text c in_array m = step_in_array c m
  step_mode a text c in_object m = step_in_object c m
  step_mode a text c read_key m = step_read_key c m
  step_mode a text c read_value m = step_read_value text c m
  step_mode a text c read_num m = step_read_num c m
  step_mode a text c read_real m = step_read_real c m
  step_mode a text c read_text m = step_read_text a text c m

  unfoldable pub step : Allocator → List ℕ → M → M
  step a text m = let c = get_or text m.i 0 in step_mode a text c (m.states (m.level - 1)) m

  -- `ok && i < len && at >= 0 && at < 30`
  unfoldable pub running : List ℕ → M → Bool
  running text m = m.ok && ltb m.i (length text) && ltb 0 m.level && ltb m.level 31

  -- The `while` loop, with fuel for its rounds: `none` if it runs out.
  unfoldable pub loop : Allocator → List ℕ → ℕ → M → Option M
  loop a text zero m = none
  loop a text (suc fuel) m =
      let rest = loop a text fuel (step a text m) in if running text m then rest else some m

  unfoldable pub start : State → M
  unfolding init
  start lua = record {
    ok = true;
    i = 0;
    level = 1;
    states = λ _. Mode.none;
    top = λ _. 0;
    pushes = λ _. 0;
    str = init true 4096;
    negative = false;
    num = 0;
    real = 0;
    fractions = 0;
    lua = lua;
  }

  -- What follows the loop: unless one value was read whole, all but the first is popped, and nil
  -- pushed.
  unfoldable pub finish : M → State
  finish m =
      let keep = gettop m.lua - 1 in
      if not m.ok || not (gettop m.lua == 2) || ltb 0 m.level
      then pushnil (if ltb 0 keep then pop keep m.lua else m.lua)
      else m.lua

  -- Rounds that suffice for a text: see `Ends`.
  abbrev pub enough_fuel : List ℕ → ℕ
  enough_fuel text = 64 * length text + 8

  -- What the caller sees: a state, unless a call of Lua has not returned.
  abbrev pub outcome : State → Outcome State
  outcome s = if gone s then broken_off else returned s

  unfoldable pub json_decode : Allocator → List ℕ → State → Option (Outcome State)
  json_decode a text lua =
      loop a text (enough_fuel text) (start lua) >>= λ m. some (outcome (finish m))
