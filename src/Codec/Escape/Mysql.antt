-- ===== src/Codec/Escape/Mysql.antt =====
-- src/80s/lua_codec.c: what `mysql_encode` writes, as a server reads it inside a quoted literal.
use s.Common.{
  ◌==◌, if◌then◌else◌, length, length-append, ◌>>=◌, ℕ, ◌*◌, ◌^◌, ◌≤◌, ◌≡◌, refl, ap, ◌⊎◌, inl, inr,
  Bool, true, false, Option, none, some, List, [], ◌∷◌, ◌++◌, append_assoc, arith,
}
use s.Dynstr.{Allocator}
use s.Dynstr.Growth.{Grants}
use s.Codec.Lua.{text, pushed}
use s.Codec.Emit.{expand}
use s.Codec.Escape.{mysql_piece, mysql_encode, encode_with-granted}

-- The byte that MySQL reads for a backslash and `c`.
unescape : ℕ → ℕ
unescape c =
    if c == b'0'
    then 0
    else if c == b'b'
    then 8
    else if c == b'n'
    then b'\n'
    else if c == b'r'
    then b'\r'
    else if c == b't'
    then b'\t'
    else if c == b'Z'
    then 26
    else c

abbrev pub map_bytes : (ℕ → ℕ) → List ℕ → List ℕ
map_bytes f [] = []
map_bytes f (c ∷ cs) = f c ∷ map_bytes f cs

abbrev prepend : ℕ → Option (List ℕ × List ℕ) → Option (List ℕ × List ℕ)
prepend c r = r >>= λ t. some (c ∷ t.0, t.1)

-- MySQL's reading of a literal from behind its opening quote on: the value, and the text behind the
-- closing quote; the flag tells that a backslash stands in front. (A doubled quote, which also
-- stands for a quote, does not arise in front of `rest` unless `rest` begins with a quote.)
unfoldable pub scan : ℕ → Bool → List ℕ → Option (List ℕ × List ℕ)
unfolding unescape
scan q esc [] = none
scan q true (c ∷ cs) = prepend (unescape c) (scan q false cs)
scan q false (c ∷ cs) =
    let escape = scan q true cs in
    let plain = prepend c (scan q false cs) in
    if c == q then some ([], cs) else if c == b'\\' then escape else plain

-- The byte that comes back: 1 is written as `\1`, which MySQL reads as the digit.
unfoldable pub reads_as : ℕ → ℕ
reads_as c = if c == 1 then b'1' else c

scan-piece :
    (q c : ℕ) (cs : List ℕ)
    → (q ≡ b'"') ⊎ (q ≡ b'\'')
    → scan q false (mysql_piece c ++ cs) ≡ prepend (reads_as c) (scan q false cs)
unfolding scan mysql_piece reads_as
scan-piece q c cs (inl e) = rw e (ground arith)
scan-piece q c cs (inr e) = rw e (ground arith)

scan-expand :
    (q : ℕ) (bytes rest : List ℕ)
    → (q ≡ b'"') ⊎ (q ≡ b'\'')
    → scan q false (expand mysql_piece bytes ++ q ∷ rest) ≡ some (map_bytes reads_as bytes, rest)
scan-expand q [] rest h = unfold scan in ground arith
scan-expand q (c ∷ cs) rest h =
    rw (append_assoc, scan-piece q c (expand mysql_piece cs ++ q ∷ rest) h, scan-expand q cs rest h)
      refl

length-mysql_piece : (c : ℕ) → length (mysql_piece c) ≤ 2
unfolding mysql_piece
length-mysql_piece c = ground arith

length-mysql : (bytes : List ℕ) → length (expand mysql_piece bytes) ≤ 2 * length bytes
length-mysql [] = omega arith
length-mysql (c ∷ cs) = omega (
  arith,
  length-append (mysql_piece c) (expand mysql_piece cs),
  length-mysql_piece c,
  length-mysql cs,
)

-- Between quotes of either kind, the result of `mysql_encode` is read up to the quote that closes
-- it, whatever the input holds: no byte of it ends the literal. What is read is the input, with
-- each byte 1 turned into the digit '1'. (Memory granted, at most 2 ^ 58 bytes.)
pub mysql_literal :
    (a : Allocator) (q : ℕ) (bytes rest : List ℕ)
    → Grants a
    → (q ≡ b'"') ⊎ (q ≡ b'\'')
    → length bytes ≤ 2 ^ 58
    → (out : List ℕ) × (mysql_encode a (text bytes ∷ []) ≡ pushed out)
      × (scan q false (out ++ q ∷ rest) ≡ some (map_bytes reads_as bytes, rest))
unfolding mysql_encode
mysql_literal a q bytes rest g h small = (
  expand mysql_piece bytes,
  ap pushed (
      encode_with-granted mysql_piece 512 a bytes g (omega arith) (omega arith)
        (omega (arith, length-mysql bytes))),
  scan-expand q bytes rest h,
)
