-- ===== src/Codec/Tests.antt =====
-- src/80s/lua_codec.c: runs on small inputs.
use s.Common.{ℕ, ◌≡◌, refl, ◌↔◌, inr, true, false, none, some, List, [], ◌∷◌, ◌++◌, arith}
use s.Dynstr.{Allocator}
use s.Dynstr.Growth.{Grants}
use s.Codec.Lua.{text, table, pushed, error}
use s.Codec.Hex.{hex_encode}
use s.Codec.Url.{url_encode, url_decode, url_unfill}
use s.Codec.Url.RoundTrip.{url_round_trip}
use s.Codec.Url.Bounds.{has_high, url_encode_faults}
use s.Codec.Escape.{mysql_encode, html_encode}
use s.Codec.Escape.Mysql.{scan, map_bytes, reads_as, mysql_literal}
use s.Codec.Escape.Html.{read_text, html_text}

abbrev granting : Allocator
granting = record { calloc = λ _. true; realloc = λ _. true }

granting-Grants : Grants granting
granting-Grants = record { calloc_grants = λ n. refl; realloc_grants = λ n. refl }

-- "a b"
abbrev spaced : List ℕ
spaced = b'a' ∷ b' ' ∷ b'b' ∷ []

-- "a%20b"
abbrev spaced_url : List ℕ
spaced_url = b'a' ∷ b'%' ∷ b'2' ∷ b'0' ∷ b'b' ∷ []

-- "<'\x01"
abbrev hostile : List ℕ
hostile = b'<' ∷ b'\'' ∷ 1 ∷ []

hex_run :
    hex_encode granting (text (b'a' ∷ 255 ∷ []) ∷ []) ≡ pushed (b'6' ∷ b'1' ∷ b'f' ∷ b'f' ∷ [])
unfolding hex_encode
hex_run = refl

hex_of_table : hex_encode granting (table ∷ []) ≡ error
unfolding hex_encode
hex_of_table = refl

url_run : url_encode true granting (text spaced ∷ []) ≡ some (pushed spaced_url)
unfolding url_encode s.Dynstr.check s.Dynstr.init s.Codec.Url.url_fill s.Codec.Url.encode_byte
    s.Codec.Url.is_unreserved
url_run = refl

url_decode_plus :
    url_decode granting (text (b'+' ∷ b'%' ∷ []) ∷ []) ≡ some (pushed (b' ' ∷ b'%' ∷ []))
unfolding url_decode s.Dynstr.check s.Dynstr.init url_unfill s.Codec.Url.decode_from
    s.Codec.Url.decode_step s.Codec.Url.decode_percent
url_decode_plus = refl

url_round_trip_example : url_decode granting (text spaced_url ∷ []) ≡ some (pushed spaced)
unfolding url_encode s.Dynstr.check s.Dynstr.init s.Codec.Url.url_fill s.Codec.Url.encode_byte
    s.Codec.Url.is_unreserved
url_round_trip_example =
    url_round_trip true granting spaced spaced_url granting-Grants (omega arith) (omega arith) refl

url_encode_faults_example :
    (url_encode true granting (text (195 ∷ 169 ∷ []) ∷ []) ≡ none)
    ↔ (has_high (195 ∷ 169 ∷ []) ≡ true)
url_encode_faults_example = url_encode_faults granting (195 ∷ 169 ∷ []) granting-Grants

mysql_literal_example :
    (out : List ℕ) × (mysql_encode granting (text hostile ∷ []) ≡ pushed out)
    × (scan b'\'' false (out ++ b'\'' ∷ b';' ∷ []) ≡ some (map_bytes reads_as hostile, b';' ∷ []))
mysql_literal_example =
    mysql_literal granting b'\'' hostile (b';' ∷ []) granting-Grants (inr refl) (omega arith)

html_text_example :
    (out : List ℕ) × (html_encode granting (text hostile ∷ []) ≡ pushed out)
    × (read_text 3 out ≡ some hostile)
html_text_example = html_text granting hostile 3 granting-Grants (omega arith) (omega arith)
