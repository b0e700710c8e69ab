-- ===== src/Codec/Json/Tests.antt =====
-- src/80s/lua_codec.c: runs of `json_decode`, with a Lua stack of which only the height is kept.
use s.Common.{ℕ, ◌+◌, ◌-◌, ◌≡◌, refl, false, some, List, [], ◌∷◌, arith}
use s.Dynstr.{Allocator}
use s.Codec.Json.Api.{Lua}
use s.Codec.Json.Decode.{returned, outcome, json_decode}
use s.Codec.Json.Decode.Height.{json_decode-height}

abbrev pub heights : Lua
heights = record {
  State = ℕ;
  Number = ℕ;
  gettop = λ s. s;
  gone = λ s. false;
  createtable = λ s. s + 1;
  pushnil = λ s. s + 1;
  pushboolean = λ b s. s + 1;
  pushinteger = λ b n s. s + 1;
  pushnumber = λ x s. s + 1;
  pushlstring = λ t s. s + 1;
  rawseti = λ n s. s - 1;
  settable = λ s. s - 2;
  pop = λ n s. s - n;
  real_value = λ b n r f. n;
  gettop-createtable = λ s. refl;
  gettop-pushnil = λ s. refl;
  gettop-pushboolean = λ b s. refl;
  gettop-pushinteger = λ b n s. refl;
  gettop-pushnumber = λ x s. refl;
  gettop-pushlstring = λ t s. refl;
  gettop-rawseti = λ n s le. omega arith;
  gettop-settable = λ s le. omega arith;
  gettop-pop = λ n s le. omega arith;
  gone-createtable = λ s g. g;
  gone-pushnil = λ s g. g;
  gone-pushboolean = λ b s g. g;
  gone-pushinteger = λ b n s g. g;
  gone-pushnumber = λ x s g. g;
  gone-pushlstring = λ t s g. g;
  gone-rawseti = λ n s g. g;
  gone-settable = λ s g. g;
  gone-pop = λ n s g. g;
}

abbrev refusing : Allocator
refusing = record { calloc = λ _. false; realloc = λ _. false }

-- `[1,{"a":2.5}]`
abbrev nested : List ℕ
nested =
    b'[' ∷ b'1' ∷ b',' ∷ b'{' ∷ b'"' ∷ b'a' ∷ b'"' ∷ b':' ∷ b'2' ∷ b'.' ∷ b'5' ∷ b'}' ∷ b']' ∷ []

decodes : json_decode heights refusing nested 1 ≡ some (returned 2)
unfolding json_decode s.Codec.Json.Decode.loop s.Codec.Json.Decode.running s.Codec.Json.Decode.start
    s.Codec.Json.Decode.step s.Codec.Json.Decode.step_mode s.Codec.Json.Decode.step_none
    s.Codec.Json.Decode.step_in_array s.Codec.Json.Decode.step_read_value
    s.Codec.Json.Decode.step_read_num s.Codec.Json.Decode.step_in_object
    s.Codec.Json.Decode.step_read_key s.Codec.Json.Decode.step_read_text
    s.Codec.Json.Decode.step_read_real s.Codec.Json.Decode.finish
decodes = refl

json_decode-height_example :
    (r : ℕ) × (json_decode heights refusing nested 1 ≡ some (outcome heights r)) × (r ≡ 2)
json_decode-height_example = json_decode-height heights refusing nested 1 refl
