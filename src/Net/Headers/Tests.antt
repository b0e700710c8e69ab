-- ===== src/Net/Headers/Tests.antt =====
-- src/80s/lua_net.c: runs of the header parser.
use s.Common.{◌≡◌, refl, [], ◌∷◌, ◌++◌}
use s.Net.Headers.{method_key, script_key, http_key, parse_http_headers}
use s.Net.Headers.Line.{StatusLine, line_before, status_entries}
use s.Net.Headers.Field.{Header, header_text, header_entry}
use s.Net.Headers.Request.{request_parsed}

-- GET /a H/1
abbrev get_line : StatusLine
get_line = record {
  method_first = b'G';
  method_rest = b'E' ∷ b'T' ∷ [];
  script_first = b'/';
  script_rest = b'a' ∷ [];
  http_first = b'H';
  http_rest = b'/' ∷ b'1' ∷ [];
}

-- Ab: cd, and the end of the line
abbrev header : Header
header = record {
  key_first = b'A';
  key_rest = b'b' ∷ [];
  value_first = b'c';
  value_rest = b'd' ∷ b'\r' ∷ b'\n' ∷ [];
}

-- A length of one digit is lost.
abbrev short : Header
short = record {
  key_first = b'L';
  key_rest = b'e' ∷ [];
  value_first = b'5';
  value_rest = b'\r' ∷ b'\n' ∷ [];
}

header_kept :
    parse_http_headers (line_before get_line (header_text header))
    ≡ (method_key, b'G' ∷ b'E' ∷ b'T' ∷ [])
      ∷ (script_key, b'/' ∷ b'a' ∷ [])
      ∷ (http_key, b'H' ∷ b'/' ∷ b'1' ∷ [])
      ∷ (b'a' ∷ b'b' ∷ [], b'c' ∷ b'd' ∷ [])
      ∷ []
unfolding parse_http_headers s.Net.Headers.flush s.Net.Headers.read_bytes s.Net.Headers.on_byte
    s.Net.Headers.on_other s.Net.Headers.on_character s.Net.Headers.on_space
    s.Net.Headers.on_line_end s.Net.Headers.on_colon
header_kept = refl

header_lost :
    parse_http_headers (line_before get_line (header_text short))
    ≡ (method_key, b'G' ∷ b'E' ∷ b'T' ∷ [])
      ∷ (script_key, b'/' ∷ b'a' ∷ [])
      ∷ (http_key, b'H' ∷ b'/' ∷ b'1' ∷ [])
      ∷ []
unfolding parse_http_headers s.Net.Headers.flush s.Net.Headers.read_bytes s.Net.Headers.on_byte
    s.Net.Headers.on_other s.Net.Headers.on_character s.Net.Headers.on_space
    s.Net.Headers.on_line_end s.Net.Headers.on_colon
header_lost = refl

request_parsed_example :
    parse_http_headers (line_before get_line (header_text header))
    ≡ status_entries get_line ++ header_entry header
request_parsed_example =
    request_parsed get_line header
      (record {
        method_words = (refl, (refl, (refl, tt)));
        script_words = (refl, (refl, tt));
        http_text = (refl, (refl, (refl, tt)));
        http_begins = refl;
      })
      (record { key_bytes = (refl, (refl, tt)); value_begins = refl })
