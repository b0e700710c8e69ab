-- ===== src/Codec/Url.antt =====
-- src/80s/lua_codec.c: `l_codec_url_encode` and `l_codec_url_decode`.
pub mod RoundTrip
pub mod Bounds
use Prim.Native.Nat.{bit_or}
use s.Common.{
  leb, ◌==◌, if◌then◌else◌, length, get_elem?, take, drop, ◌>>=◌, size_mod, sub_size, ℕ, zero, suc,
  ◌-◌, ◌*◌, ◌%◌, Bool, true, ◌&&◌, ◌||◌, Option, none, some, List, [], ◌∷◌, ◌++◌,
}
use s.Dynstr.{Dynstr, Allocator, init, check, write_at}
use s.Codec.Lua.{Arg, text, Reply, pushed, error}
use s.Codec.Hex.{hex_pair}

-- "0123456789ABCDEF"
abbrev pub upper_digits : List ℕ
upper_digits =
    b'0' ∷ b'1' ∷ b'2' ∷ b'3' ∷ b'4' ∷ b'5' ∷ b'6' ∷ b'7' ∷ b'8' ∷ b'9' ∷ b'A' ∷ b'B' ∷ b'C' ∷ b'D'
    ∷ b'E' ∷ b'F' ∷ []

-- `isalnum(i) || i == '~' || i == '-' || i == '.' || i == '_'`, the entries of `url_encode_lut`
-- that are not 0 (`isalnum` as for ASCII, which is what UTF-8 locales answer on single bytes).
unfoldable pub is_unreserved : ℕ → Bool
is_unreserved c =
    leb b'0' c && leb c b'9'
    || leb b'A' c && leb c b'Z'
    || leb b'a' c && leb c b'z'
    || c == b'~'
    || c == b'-'
    || c == b'.'
    || c == b'_'

-- `url_encode_lut[c]` for the `char` c, given as its byte. Where `char` is signed, a byte from 128
-- on is a negative index, and the read is outside the table: `none`.
unfoldable pub lut_entry : Bool → ℕ → Option Bool
lut_entry signed c = if signed && leb 128 c then none else some (is_unreserved c)

unfoldable pub encode_byte : Bool → ℕ → Option (List ℕ)
unfolding lut_entry
encode_byte signed c = do
  keep ← lut_entry signed c
  some (if keep then c ∷ [] else b'%' ∷ hex_pair upper_digits c)

-- The bytes stored at `ptr[0]`, `ptr[1]`, and so on; `none` after a read outside the table.
unfoldable pub url_fill : Bool → List ℕ → Option (List ℕ)
url_fill signed [] = some []
url_fill signed (c ∷ cs) = do
  out ← encode_byte signed c
  rest ← url_fill signed cs
  some (out ++ rest)

-- What `lua_pushlstring(L, ptr, j)` passes on once `filled` is stored from `ptr[0]` on.
abbrev push_filled : Dynstr → List ℕ → Reply
push_filled str filled = pushed (take (length filled) (write_at str.ptr 0 filled))

-- `none` is undefined behaviour. Where memory is refused, `ptr` is null and `j` is 0.
unfoldable pub url_encode : Bool → Allocator → List Arg → Option Reply
url_encode signed a (text bytes ∷ []) =
    let (str, room) = check a (init true 2048) (length bytes * 3 % size_mod) in
    if room
    then (do filled ← url_fill signed bytes; some (push_filled str filled))
    else some (pushed [])
url_encode signed a _ = some error

-- The table `lut` of `l_codec_url_decode`, from '0' on.
abbrev pub lut : List ℕ
lut =
    0 ∷ 1 ∷ 2 ∷ 3 ∷ 4 ∷ 5 ∷ 6 ∷ 7 ∷ 8 ∷ 9 ∷ 0 ∷ 0 ∷ 0 ∷ 0 ∷ 0 ∷ 0 ∷ 0 ∷ 10 ∷ 11 ∷ 12 ∷ 13 ∷ 14 ∷ 15
    ∷ 0 ∷ 0 ∷ 0 ∷ 0 ∷ 0 ∷ 0 ∷ 0 ∷ 0 ∷ 0 ∷ 0 ∷ 0 ∷ 0 ∷ 0 ∷ 0 ∷ 0 ∷ 0 ∷ 0 ∷ 0 ∷ 0 ∷ 0 ∷ 0 ∷ 0 ∷ 0 ∷ 0
    ∷ 0 ∷ 0 ∷ 10 ∷ 11 ∷ 12 ∷ 13 ∷ 14 ∷ 15 ∷ []

abbrev pub is_hex : ℕ → Bool
is_hex c = leb b'0' c && leb c b'9' || leb b'A' c && leb c b'F' || leb b'a' c && leb c b'f'

-- `data[i + k]`, where `rest` is `data[i .. len)`. A Lua string has a NUL at `data[len]`; a read
-- past it is outside the string: `none`.
abbrev pub char_at : List ℕ → ℕ → Option ℕ
char_at rest k = get_elem? (rest ++ 0 ∷ []) k

-- `(lut[x - '0'] << 4) | lut[y - '0']`
unfoldable pub unhex_pair : ℕ → ℕ → Option ℕ
unhex_pair x y = do
  hi ← get_elem? lut (x - b'0')
  lo ← get_elem? lut (y - b'0')
  some (bit_or (hi * 16) lo)

second_digit : ℕ → List ℕ → Option (ℕ × ℕ)
unfolding unhex_pair
second_digit x rest = do
  y ← char_at rest 2
  if is_hex y then (do v ← unhex_pair x y; some (v, 2)) else some (b'%', 0)

-- The case '%': the byte stored, and by how much `i` moves beyond the loop's own `i++`. The second
-- digit is read only if the first one is a digit.
unfoldable pub decode_percent : List ℕ → Option (ℕ × ℕ)
unfolding second_digit
decode_percent rest = do
  x ← char_at rest 1
  if is_hex x then second_digit x rest else some (b'%', 0)

-- The body of the loop at `i = len - length rest`, with `c = data[i]`. `len - 3` wraps below 0.
unfoldable pub decode_step : ℕ → ℕ → List ℕ → Option (ℕ × ℕ)
decode_step len c rest =
    if leb (len - length rest) (sub_size len 3)
    then (if c == b'+'
        then some (b' ', 0)
        else if c == b'%'
        then decode_percent rest
        else some (c, 0))
    else some (if c == b'+' then b' ' else c, 0)

-- The loop from `rest = data[i .. len)` on, with fuel for its rounds: `none` is a read out of
-- bounds, or no fuel.
unfoldable pub decode_from : ℕ → ℕ → List ℕ → Option (List ℕ)
decode_from fuel len [] = some []
decode_from zero len (c ∷ cs) = none
decode_from (suc fuel) len (c ∷ cs) = decode_step len c (c ∷ cs) >>= λ r.
    let (v, skip) = r in decode_from fuel len (drop skip cs) >>= λ out. some (v ∷ out)

unfoldable pub url_unfill : List ℕ → Option (List ℕ)
url_unfill bytes = decode_from (length bytes) (length bytes) bytes

unfoldable pub url_decode : Allocator → List Arg → Option Reply
url_decode a (text bytes ∷ []) =
    let (str, room) = check a (init true 2048) (length bytes) in
    if room then (do filled ← url_unfill bytes; some (push_filled str filled)) else some (pushed [])
url_decode a _ = some error
