-- ===== src/Codec/Hex.antt =====
-- src/80s/lua_codec.c: `l_codec_hex_encode`.
use s.Common.{
  leb, ◌==◌, if◌then◌else◌, ==_iff, passes_below, passes_at, length, get_or, take, take-append,
  size_mod, ℕ, ◌+◌, ◌-◌, ◌*◌, ◌/◌, ◌%◌, ◌^◌, ◌≤◌, ◌<◌, ◌≡◌, refl, ap, ◌∙◌, true, List, [], ◌∷◌,
  ◌++◌, arith,
}
use s.Dynstr.{Dynstr, Allocator, init, check, write_at}
use s.Dynstr.Growth.{Grants, check-granted}
use s.Codec.Lua.{text, Arg, Reply, pushed, with_text, AreBytes}
use s.Codec.Emit.{expand}

-- "0123456789abcdef"
abbrev pub lower_digits : List ℕ
lower_digits =
    b'0' ∷ b'1' ∷ b'2' ∷ b'3' ∷ b'4' ∷ b'5' ∷ b'6' ∷ b'7' ∷ b'8' ∷ b'9' ∷ b'a' ∷ b'b' ∷ b'c' ∷ b'd'
    ∷ b'e' ∷ b'f' ∷ []

-- `chars[(c >> 4) & 15]`, then `chars[c & 15]`; both masks hide the sign of a `char`.
abbrev pub hex_pair : List ℕ → ℕ → List ℕ
hex_pair chars c = get_or chars (c / 16 % 16) 0 ∷ get_or chars (c % 16) 0 ∷ []

-- The bytes that the loop stores at `ptr[0]`, `ptr[1]`, and so on.
unfoldable pub hex_fill : List ℕ → List ℕ
hex_fill = expand (hex_pair lower_digits)

-- The buffer that `dynstr_check` provides, and what is stored there (nothing if it fails).
unfoldable pub hex_buffer : Allocator → List ℕ → Dynstr × List ℕ
unfolding check init hex_fill
hex_buffer a bytes =
    let (str, room) = check a (init true 2048) (length bytes * 2 % size_mod) in
    let filled = if room then hex_fill bytes else [] in
    (record str { ptr = write_at str.ptr 0 filled }, filled)

unfoldable pub hex_encode : Allocator → List Arg → Reply
unfolding hex_buffer with_text
hex_encode a args =
    with_text args
      λ bytes. let (str, filled) = hex_buffer a bytes in pushed (take (length filled) str.ptr)

-- The value of a hexadecimal digit, by the usual definition.
hex_value : ℕ → ℕ
hex_value c = if leb c b'9' then c - b'0' else c - b'a' + 10

-- The reader of hexadecimal text.
unfoldable pub unhex : List ℕ → List ℕ
unfolding hex_value
unhex (x ∷ y ∷ cs) = (hex_value x * 16 + hex_value y) ∷ unhex cs
unhex cs = []

unhex-pair_table :
    passes_below (λ c. get_or (unhex (hex_pair lower_digits c)) 0 256 == c) 256 ≡ true
unfolding passes_below unhex
unhex-pair_table = refl

unhex-pair : (c : ℕ) (cs : List ℕ) → c < 256 → unhex (hex_pair lower_digits c ++ cs) ≡ c ∷ unhex cs
unfolding unhex
unhex-pair c cs h = ap (λ t. t ∷ unhex cs) ((==_iff _ c).0 (passes_at _ 256 c unhex-pair_table h))

-- Hexadecimal text reads back as the bytes it was made of.
unhex-hex_fill : (bytes : List ℕ) → AreBytes bytes → unhex (hex_fill bytes) ≡ bytes
unfolding hex_fill
unhex-hex_fill [] h = unfold unhex in refl
unhex-hex_fill (c ∷ cs) h = unhex-pair c (hex_fill cs) h.0 ∙ ap (λ t. c ∷ t) (unhex-hex_fill cs h.1)

length-hex_fill : (bytes : List ℕ) → length (hex_fill bytes) ≡ length bytes * 2
unfolding hex_fill
length-hex_fill [] = omega arith
length-hex_fill (c ∷ cs) = omega (arith, length-hex_fill cs)

-- For any allocator, what the loop stores lies within the storage, as long as no size wraps.
pub hex_buffer-fits :
    (a : Allocator) (bytes : List ℕ)
    → length bytes ≤ 2 ^ 59
    → length (hex_buffer a bytes).1 ≤ (hex_buffer a bytes).0.size
unfolding hex_buffer
hex_buffer-fits a bytes h = ground (arith, length-hex_fill bytes)

hex_encode-granted :
    (a : Allocator) (bytes : List ℕ)
    → Grants a
    → hex_encode a (text bytes ∷ []) ≡ pushed (hex_fill bytes)
unfolding hex_encode
hex_encode-granted a bytes g =
    rw (check-granted a (init true 2048) (length bytes * 2 % size_mod) g)
      (ap pushed (take-append (length (hex_fill bytes)) (hex_fill bytes) _ refl))

-- With memory granted, the call returns two digits a byte, and they read back as the input.
pub hex_encode_round_trip :
    (a : Allocator) (bytes : List ℕ)
    → Grants a
    → AreBytes bytes
    → (out : List ℕ) × (hex_encode a (text bytes ∷ []) ≡ pushed out)
      × (unhex out ≡ bytes)
      × (length out ≡ length bytes * 2)
hex_encode_round_trip a bytes g b =
    (hex_fill bytes, hex_encode-granted a bytes g, unhex-hex_fill bytes b, length-hex_fill bytes)
