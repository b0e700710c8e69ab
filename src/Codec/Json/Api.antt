-- ===== src/Codec/Json/Api.antt =====
-- The Lua C API as `json_decode` uses it, and the arithmetic of `double`: code that is not under
-- src/.
use s.Common.{ℕ, ◌+◌, ◌≤◌, ◌≡◌, Bool, true, List}

-- The stack's height after each call is what the Lua manual says. `gone` tells that a call has
-- not returned: it has raised a Lua error, as `lua_settable` does for a key that is NaN, or found
-- no more place on the stack, which is undefined behaviour. Nothing brings such a state back; its
-- height is counted on as if the call had returned.
pub record Lua : Type 1 where
  pub State : Type 0
  pub Number : Type 0
  pub gettop : State → ℕ
  pub gone : State → Bool
  pub createtable : State → State
  pub pushnil : State → State
  pub pushboolean : Bool → State → State
  -- sign and magnitude, a 64-bit pattern
  pub pushinteger : Bool → ℕ → State → State
  pub pushnumber : Number → State → State
  pub pushlstring : List ℕ → State → State
  -- `lua_rawseti(L, -2, n)`
  pub rawseti : ℕ → State → State
  -- `lua_settable(L, -3)`
  pub settable : State → State
  pub pop : ℕ → State → State
  -- `negative ? -r : r` for `r = (double)num + (double)real / fractions`
  pub real_value : Bool → ℕ → ℕ → ℕ → Number
  pub gettop-createtable : (s : State) → gettop (createtable s) ≡ gettop s + 1
  pub gettop-pushnil : (s : State) → gettop (pushnil s) ≡ gettop s + 1
  pub gettop-pushboolean : (b : Bool) (s : State) → gettop (pushboolean b s) ≡ gettop s + 1
  pub gettop-pushinteger :
      (b : Bool) (n : ℕ) (s : State) → gettop (pushinteger b n s) ≡ gettop s + 1
  pub gettop-pushnumber : (x : Number) (s : State) → gettop (pushnumber x s) ≡ gettop s + 1
  pub gettop-pushlstring : (t : List ℕ) (s : State) → gettop (pushlstring t s) ≡ gettop s + 1
  pub gettop-rawseti : (n : ℕ) (s : State) → 2 ≤ gettop s → gettop (rawseti n s) + 1 ≡ gettop s
  pub gettop-settable : (s : State) → 3 ≤ gettop s → gettop (settable s) + 2 ≡ gettop s
  pub gettop-pop : (n : ℕ) (s : State) → n ≤ gettop s → gettop (pop n s) + n ≡ gettop s
  pub gone-createtable : (s : State) → gone s ≡ true → gone (createtable s) ≡ true
  pub gone-pushnil : (s : State) → gone s ≡ true → gone (pushnil s) ≡ true
  pub gone-pushboolean : (b : Bool) (s : State) → gone s ≡ true → gone (pushboolean b s) ≡ true
  pub gone-pushinteger :
      (b : Bool) (n : ℕ) (s : State) → gone s ≡ true → gone (pushinteger b n s) ≡ true
  pub gone-pushnumber : (x : Number) (s : State) → gone s ≡ true → gone (pushnumber x s) ≡ true
  pub gone-pushlstring : (t : List ℕ) (s : State) → gone s ≡ true → gone (pushlstring t s) ≡ true
  pub gone-rawseti : (n : ℕ) (s : State) → gone s ≡ true → gone (rawseti n s) ≡ true
  pub gone-settable : (s : State) → gone s ≡ true → gone (settable s) ≡ true
  pub gone-pop : (n : ℕ) (s : State) → gone s ≡ true → gone (pop n s) ≡ true
