-- ===== src/Net/Headers.antt =====
-- src/80s/lua_net.c: `l_net_parse_http_headers`.
pub mod Scan
pub mod Fields
pub mod Stages
pub mod Line
pub mod Field
pub mod Request
mod Tests
use s.Common.{
  ltb, leb, ◌==◌, if◌then◌else◌, length, get_or, set, take, drop, ℕ, zero, suc, ◌+◌, ◌-◌, ◌&&◌,
  ◌||◌, List, [], ◌∷◌, ◌++◌,
}

-- `enum parse_state`
pub data ParseState : Type 0 where
  read_status_code read_status_code_spaces_after : ParseState
  read_status_message read_status_message_spaces_after : ParseState
  read_status_http_version read_header_end : ParseState
  read_header_key read_header_mid read_header_value : ParseState

-- A `_begin` and an `_end`, by their distance from `text`; `_end` is on the last character.
pub record Span : Type 0 where
  pub begin : ℕ
  pub last : ℕ

-- The local variables. `text` is written to; `table` is what has been set, in order.
pub record Reader : Type 0 where
  pub current_state : ParseState
  pub text : List ℕ
  pub code : Span
  pub message : Span
  pub http : Span
  pub key : Span
  pub value : Span
  pub table : List (List ℕ × List ℕ)

-- `lua_pushlstring(L, begin, end - begin + 1)`
abbrev pub pushed_text : List ℕ → Span → List ℕ
pushed_text text s = take (s.last - s.begin + 1) (drop s.begin text)

abbrev pub until : Span → ℕ → Span
until s now = record s { last = now }

abbrev pub at : ℕ → Span
at now = record { begin = now; last = now }

-- ":method"
abbrev pub method_key : List ℕ
method_key = b':' ∷ b'm' ∷ b'e' ∷ b't' ∷ b'h' ∷ b'o' ∷ b'd' ∷ []

-- ":script"
abbrev pub script_key : List ℕ
script_key = b':' ∷ b's' ∷ b'c' ∷ b'r' ∷ b'i' ∷ b'p' ∷ b't' ∷ []

-- ":http"
abbrev pub http_key : List ℕ
http_key = b':' ∷ b'h' ∷ b't' ∷ b't' ∷ b'p' ∷ []

-- `case '\r'` and `case '\n'`
unfoldable pub on_line_end : ParseState → Reader → Reader
on_line_end read_status_http_version r = record r {
  table =
      r.table
      ++ (method_key, pushed_text r.text r.code)
        ∷ (script_key, pushed_text r.text r.message)
        ∷ (http_key, pushed_text r.text r.http)
        ∷ [];
  current_state = read_header_end;
}
on_line_end _ r = r

-- `case ' '`
unfoldable pub on_space : ParseState → ℕ → Reader → Reader
on_space read_header_key now r = record r { key = until r.key now }
on_space read_header_value now r = record r { value = until r.value now }
on_space read_status_code now r = record r { current_state = read_status_code_spaces_after }
on_space read_status_message now r = record r { current_state = read_status_message_spaces_after }
on_space read_status_http_version now r = record r { http = until r.http now }
on_space _ now r = r

-- What `case ':'` and `default` do alike.
unfoldable pub on_character : ParseState → ℕ → Reader → Reader
on_character read_header_value now r = record r { value = until r.value now }
on_character read_status_code now r = record r { code = until r.code now }
on_character read_status_message now r = record r { message = until r.message now }
on_character read_status_http_version now r = record r { http = until r.http now }
on_character read_status_code_spaces_after now r = record r {
  message = at now;
  current_state = read_status_message;
}
on_character read_status_message_spaces_after now r = record r {
  http = at now;
  current_state = read_status_http_version;
}
on_character _ now r = r

-- `case ':'`
unfoldable pub on_colon : ParseState → ℕ → Reader → Reader
on_colon read_header_key now r = record r { current_state = read_header_mid }
on_colon state now r = on_character state now r

-- A header of which the key and the value have two characters or more.
unfoldable pub flush : Reader → Reader
flush r =
    if ltb 0 (r.key.last - r.key.begin) && ltb 0 (r.value.last - r.value.begin)
    then record r { table = r.table ++ (pushed_text r.text r.key, pushed_text r.text r.value) ∷ [] }
    else r

abbrev pub lower : ℕ → ℕ
lower c = if leb b'A' c && leb c b'Z' then c + 32 else c

-- `if(*now >= 'A' && *now <= 'Z') *(char*)now = *now + 32;`
abbrev pub lower_at : ℕ → ℕ → Reader → Reader
lower_at now c r = record r { text = set r.text now (lower c) }

-- `default`
unfoldable pub on_other : ParseState → ℕ → ℕ → Reader → Reader
on_other read_header_end now c r =
    let r' = lower_at now c (flush r) in
    record r' { key = at now; value = at now; current_state = read_header_key }
on_other read_header_mid now c r = record r { value = at now; current_state = read_header_value }
on_other read_header_key now c r = let r' = lower_at now c r in record r' { key = until r.key now }
on_other state now c r = on_character state now r

-- `switch(*now)`
unfoldable pub on_byte : ℕ → ℕ → Reader → Reader
on_byte now c r =
    let state = r.current_state in
    if c == b'\r' || c == b'\n'
    then on_line_end state r
    else if c == b' '
    then on_space state now r
    else if c == b':'
    then on_colon state now r
    else on_other state now c r

-- `for(i=0; i < len; i++)`, with the number of bytes that are left.
unfoldable pub read_bytes : ℕ → ℕ → Reader → Reader
read_bytes zero i r = r
read_bytes (suc left) i r = read_bytes left (i + 1) (on_byte i (get_or r.text i 0) r)

abbrev pub start_reader : List ℕ → Reader
start_reader text = record {
  current_state = read_status_code;
  text = text;
  code = at 0;
  message = at 0;
  http = at 0;
  key = at 0;
  value = at 0;
  table = [];
}

-- The table that is returned; what is set later under a key counts.
unfoldable pub parse_http_headers : List ℕ → List (List ℕ × List ℕ)
parse_http_headers text = (flush (read_bytes (length text) 0 (start_reader text))).table
