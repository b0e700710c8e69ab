-- ===== src/Codec/Encode/Tests.antt =====
-- src/80s/lua_codec.c: runs of `json_encode`, `lua_encode` and of a string read back.
use s.Common.{ℕ, ◌≡◌, refl, inl, true, false, none, some, List, [], ◌∷◌, arith}
use s.Dynstr.{Dynstr, Allocator, init}
use s.Dynstr.Growth.{Grants}
use s.Codec.Lua.{pushed}
use s.Codec.Json.Mode.{Mode, read_value}
use s.Codec.Json.Machine.{update}
use s.Codec.Json.Decode.{M}
use s.Codec.Json.Tests.{heights}
use s.Codec.Encode.{
  Key, number, name, Value, nil, other, boolean, digits, text, table, Entries, end, entry, Dialect,
  json, lua, encode_call, encode_string,
}
use s.Codec.Encode.Wrote.{IsGood}
use s.Codec.Encode.ReadBack.{ReadBack, string_round_trip}

abbrev granting : Allocator
granting = record { calloc = λ _. true; realloc = λ _. true }

granting-Grants : Grants granting
granting-Grants = record { calloc_grants = λ n. refl; realloc_grants = λ n. refl }

-- {a = {true, 7}, b = "x\n"}
abbrev sample : Entries
sample =
    entry (name (b'a' ∷ []))
      (table (
        entry (number (b'1' ∷ [])) (boolean true)
          (entry (number (b'2' ∷ [])) (digits (b'7' ∷ [])) end)))
      (entry (name (b'b' ∷ [])) (text (b'x' ∷ b'\n' ∷ [])) end)

abbrev fresh : Dynstr
fresh = record { ok = true; on_stack = true; size = 10000; length = 0; is_null = false; ptr = [] }

fresh-IsGood : IsGood fresh
fresh-IsGood = record {
  valid = record { written = omega arith; fits = omega arith };
  small = omega arith;
  fine = refl;
}

-- {"a":[true,7],"b":"x\n"}
json_run :
    encode_call granting json (some sample)
    ≡ some (
        pushed (
          b'{' ∷ b'"' ∷ b'a' ∷ b'"' ∷ b':' ∷ b'[' ∷ b't' ∷ b'r' ∷ b'u' ∷ b'e' ∷ b',' ∷ b'7' ∷ b']'
          ∷ b',' ∷ b'"' ∷ b'b' ∷ b'"' ∷ b':' ∷ b'"' ∷ b'x' ∷ b'\\' ∷ b'n' ∷ b'"' ∷ b'}' ∷ []))
unfolding encode_call s.Codec.Encode.can_walk s.Codec.Encode.encode_table s.Codec.Encode.encode_key
    s.Dynstr.puts encode_string s.Codec.Encode.string_calls
json_run = refl

-- {}
lua_of_empty : encode_call granting lua (some end) ≡ some (pushed (b'{' ∷ b'}' ∷ []))
unfolding encode_call s.Codec.Encode.can_walk s.Codec.Encode.encode_table s.Dynstr.puts
lua_of_empty = refl

-- A value of another type is left out, its comma stays: [,true]
json_of_other :
    encode_call granting json
      (some (entry (number (b'1' ∷ [])) other (entry (number (b'2' ∷ [])) (boolean true) end)))
    ≡ some (pushed (b'[' ∷ b',' ∷ b't' ∷ b'r' ∷ b'u' ∷ b'e' ∷ b']' ∷ []))
unfolding encode_call s.Codec.Encode.can_walk s.Codec.Encode.encode_table s.Dynstr.puts
json_of_other = refl

-- {a = nil, [1] = true}, where the 1 becomes text.
mixed_keys :
    (d : Dialect)
    → encode_call granting d
        (some (entry (name (b'a' ∷ [])) nil (entry (number (b'1' ∷ [])) (boolean true) end)))
      ≡ none
unfolding encode_call s.Codec.Encode.can_walk
mixed_keys d = refl

-- x"\n
abbrev odd_text : List ℕ
odd_text = b'x' ∷ b'"' ∷ b'\n' ∷ []

-- ["x\"\n"]
abbrev odd_json : List ℕ
odd_json = b'[' ∷ b'"' ∷ b'x' ∷ b'\\' ∷ b'"' ∷ b'\\' ∷ b'n' ∷ b'"' ∷ b']' ∷ []

-- Behind the bracket.
abbrev in_front : M heights
in_front = record {
  ok = true;
  i = 1;
  level = 2;
  states = update (λ _. Mode.in_array) 1 read_value;
  top = λ _. 2;
  pushes = λ _. 0;
  str = fresh;
  negative = false;
  num = 0;
  real = 0;
  fractions = 0;
  lua = 2;
}

string_round_trip_example :
    (r : M heights) × ReadBack heights granting odd_json odd_text (b']' ∷ []) in_front r
unfolding s.Codec.Encode.string_calls encode_string s.Dynstr.puts init
string_round_trip_example =
    string_round_trip heights granting odd_json odd_text (b']' ∷ []) in_front granting-Grants
      (record { fine = refl; mode = inl refl; above = omega arith; below = omega arith })
      fresh-IsGood (refl, (refl, (refl, tt))) (omega arith) refl
