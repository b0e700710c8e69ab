-- ===== src/Codec/Lua.antt =====
-- What the codec functions see of Lua: the arguments of a call, and what it returns.
use s.Common.{All, ℕ, ◌<◌, List, [], ◌∷◌}

-- An argument on the Lua stack, by the types that the codecs ask for.
pub data Arg : Type 0 where
  text : List ℕ → Arg
  table other : Arg

-- `luaL_error`, or one string pushed as the result.
pub data Reply : Type 0 where
  error : Reply
  pushed : List ℕ → Reply

-- `lua_gettop(L) != 1 || lua_type(L, 1) != LUA_TSTRING` guards every text codec.
unfoldable pub with_text : List Arg → (List ℕ → Reply) → Reply
with_text (text data' ∷ []) f = f data'
with_text _ f = error

-- The bytes of a Lua string.
abbrev pub AreBytes : List ℕ → Type 0
AreBytes = All (λ c. c < 256)
