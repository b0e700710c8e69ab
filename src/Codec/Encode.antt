-- ===== src/Codec/Encode.antt =====
-- src/80s/lua_codec.c: `json_encode`, `lua_encode` and `encode_string`.
mod Tests
pub mod Print
pub mod Wrote
pub mod Written
pub mod Strings
pub mod ReadBack
use s.Common.{
  ltb, ◌==◌, if◌then◌else◌, set, ◌>>=◌, ℕ, ◌+◌, ◌-◌, ◌/◌, ◌%◌, Bool, true, false, not, ◌&&◌, ◌||◌,
  Option, none, some, List, [], ◌∷◌, ◌++◌,
}
use s.Dynstr.{Dynstr, Allocator, init, puts, contents}
use s.Codec.Lua.{Reply, error, pushed}

-- The text of a key, by its type. Keys of other types are not in the model.
pub data Key : Type 0 where
  number name : List ℕ → Key

-- A Lua value as `lua_next` goes through it; a number is the text that `dynstr_putg` writes for it.
mutual
  pub data Value : Type 0 where
    nil other : Value
    boolean : Bool → Value
    digits text : List ℕ → Value
    table : Entries → Value

  pub data Entries : Type 0 where
    end : Entries
    entry : Key → Value → Entries → Entries

-- `json_encode`, or `lua_encode`.
pub data Dialect : Type 0 where
  json lua : Dialect

abbrev pub hex_digit : ℕ → ℕ
hex_digit n = if ltb n 10 then b'0' + n else b'A' + (n - 10)

-- The calls that `encode_string` makes for a character.
unfoldable pub string_calls : ℕ → List (List ℕ)
string_calls c =
    if c == b'\r'
    then (b'\\' ∷ b'r' ∷ []) ∷ []
    else if c == b'\n'
    then (b'\\' ∷ b'n' ∷ []) ∷ []
    else if c == b'\t'
    then (b'\\' ∷ b't' ∷ []) ∷ []
    else if c == b'"'
    then (b'\\' ∷ b'"' ∷ []) ∷ []
    else if c == b'\\'
    then (b'\\' ∷ b'\\' ∷ []) ∷ []
    else if c == 0
    then (b'\\' ∷ b'0' ∷ []) ∷ []
    else if ltb c 32
    then (b'\\' ∷ b'x' ∷ []) ∷ (hex_digit (c / 16) ∷ []) ∷ (hex_digit (c % 16) ∷ []) ∷ []
    else (c ∷ []) ∷ []

-- A call of `dynstr_puts` or `dynstr_putc` for each piece, whose results are not looked at.
unfoldable pub put_all : Allocator → Dynstr → List (List ℕ) → Dynstr
put_all a d [] = d
put_all a d (p ∷ ps) = put_all a (puts a d p).0 ps

abbrev pub all_calls : List ℕ → List (List ℕ)
all_calls [] = []
all_calls (c ∷ cs) = string_calls c ++ all_calls cs

abbrev pub quote : List ℕ
quote = b'"' ∷ []

unfoldable pub encode_string : Allocator → List ℕ → Dynstr → Dynstr
unfolding put_all
encode_string a value out = put_all a out (quote ∷ (all_calls value ++ quote ∷ []))

-- `out->ptr[out->length - 1] = c`
abbrev pub set_last : Dynstr → ℕ → Dynstr
set_last d c = record d { ptr = set d.ptr (d.length - 1) c }

abbrev pub is_number : Key → Bool
is_number (number t) = true
is_number (name t) = false

abbrev pub key_text : Key → List ℕ
key_text (number t) = t
key_text (name t) = t

-- `lua_tolstring` turns a number key into text in place, so that the next `lua_next` is called
-- with another key than it gave: see `can_walk`.
unfoldable pub encode_key : Allocator → Dialect → Key → Dynstr → Dynstr
encode_key a json k out = (puts a (encode_string a (key_text k) out) (b':' ∷ [])).0
encode_key a lua k out =
    (puts a (encode_string a (key_text k) (puts a out (b'[' ∷ [])).0) (b']' ∷ b'=' ∷ [])).0

abbrev pub true_text : List ℕ
true_text = b't' ∷ b'r' ∷ b'u' ∷ b'e' ∷ []

abbrev pub false_text : List ℕ
false_text = b'f' ∷ b'a' ∷ b'l' ∷ b's' ∷ b'e' ∷ []

-- `lua_encode` puts four bytes of "nil": the fourth is its NUL.
abbrev pub nil_text : Dialect → List ℕ
nil_text json = b'n' ∷ b'u' ∷ b'l' ∷ b'l' ∷ []
nil_text lua = b'n' ∷ b'i' ∷ b'l' ∷ 0 ∷ []

-- The first key tells an array. Only `json_encode` gives it other brackets.
abbrev pub open_array : Dialect → Bool → Dynstr → Dynstr
open_array json true out = set_last out b'['
open_array _ _ out = out

abbrev pub close_bracket : Dialect → Bool → ℕ
close_bracket json true = b']'
close_bracket _ _ = b'}'

-- A table that is not empty: the last comma becomes the bracket.
abbrev pub close_table : Allocator → Dialect → Bool → Dynstr → Dynstr
close_table a d is_array out =
    if ltb 0 out.length then set_last out (close_bracket d is_array) else (puts a out (b'}' ∷ [])).0

abbrev pub empty_open : Dialect → ℕ
empty_open json = b'['
empty_open lua = b'{'

abbrev pub empty_close : Dialect → ℕ
empty_close json = b']'
empty_close lua = b'}'

abbrev pub close_empty : Allocator → Dialect → Dynstr → Dynstr
close_empty a d out =
    if ltb 0 out.length
    then (puts a (set_last out (empty_open d)) (empty_close d ∷ [])).0
    else (puts a out (empty_open d ∷ empty_close d ∷ [])).0

-- The `switch` over the type of the value, for what is no table.
abbrev pub encode_plain : Allocator → Dialect → Value → Dynstr → Dynstr
encode_plain a d nil out = (puts a out (nil_text d)).0
encode_plain a d (boolean b) out = (puts a out (if b then true_text else false_text)).0
encode_plain a d (digits t) out = (puts a out t).0
encode_plain a d (text t) out = encode_string a t out
encode_plain a d _ out = out

abbrev pub comma : Allocator → Dynstr → Dynstr
comma a out = (puts a out (b',' ∷ [])).0

-- The key of an entry, which an array leaves out.
abbrev pub start_entry : Allocator → Dialect → Bool → Key → Dynstr → Dynstr
start_entry a d is_array k out = if is_array then out else encode_key a d k out

-- `if (!out->ok) { lua_pop(L, 1); continue; }`
abbrev pub unless_failed : Dynstr → Dynstr → Dynstr
unless_failed keyed valued = if keyed.ok then valued else keyed

-- `json_encode` and `lua_encode`, with their loop over the entries.
unfoldable mutual
  pub encode_value : Allocator → Dialect → Value → Dynstr → Dynstr
  encode_value a d (table es) out = encode_table a d es (puts a out (b'{' ∷ [])).0
  encode_value a d nil out = encode_plain a d nil out
  encode_value a d other out = encode_plain a d other out
  encode_value a d (boolean b) out = encode_plain a d (boolean b) out
  encode_value a d (digits t) out = encode_plain a d (digits t) out
  encode_value a d (text t) out = encode_plain a d (text t) out

  pub encode_table : Allocator → Dialect → Entries → Dynstr → Dynstr
  encode_table a d end out = close_empty a d out
  encode_table a d (entry k v es) out =
      let is_array = is_number k in
      let keyed = start_entry a d is_array k (open_array d is_array out) in
      close_table a d is_array
        (encode_entries a d is_array es (unless_failed keyed (comma a (encode_value a d v keyed))))

  pub encode_entries : Allocator → Dialect → Bool → Entries → Dynstr → Dynstr
  encode_entries a d is_array end out = out
  encode_entries a d is_array (entry k v es) out =
      let keyed = start_entry a d is_array k out in
      encode_entries a d is_array es (unless_failed keyed (comma a (encode_value a d v keyed)))

-- `lua_next` is called only with keys that it has given: none of them was turned into text, as
-- all number keys of a table are that does not begin with one.
unfoldable mutual
  pub can_walk_value : Value → Bool
  can_walk_value (table es) = can_walk es
  can_walk_value nil = true
  can_walk_value other = true
  can_walk_value (boolean b) = true
  can_walk_value (digits t) = true
  can_walk_value (text t) = true

  pub can_walk : Entries → Bool
  can_walk end = true
  can_walk (entry k v es) = can_walk_value v && can_walk_rest (is_number k) es

  pub can_walk_rest : Bool → Entries → Bool
  can_walk_rest is_array end = true
  can_walk_rest is_array (entry k v es) =
      (is_array || not (is_number k)) && can_walk_value v && can_walk_rest is_array es

-- A whole call: the opening brace, then the table's entries. none where `lua_next` may be called
-- with another key: it then raises an error, or goes on behind an entry of that key.
unfoldable pub encode : Allocator → Dialect → Entries → Dynstr → Option Dynstr
encode a d es out =
    if can_walk es then some (encode_table a d es (puts a out (b'{' ∷ [])).0) else none

-- `l_codec_json_encode` and `l_codec_lua_encode`, where the one argument is a table, none
-- otherwise; the reply is none where `encode` is.
unfoldable pub encode_call : Allocator → Dialect → Option Entries → Option Reply
unfolding encode init
encode_call a d none = some error
encode_call a d (some es) = encode a d es (init true 10000) >>= λ out. some (pushed (contents out))
