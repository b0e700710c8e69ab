-- ===== src/Codec/Escape/Html.antt =====
-- src/80s/lua_codec.c: what `html_encode` writes, as a browser reads it.
use s.Common.{
  ◌==◌, if◌then◌else◌, length, length-append, ◌>>=◌, ℕ, zero, suc, ◌*◌, ◌^◌, ◌≤◌, ◌≡◌, refl, ap,
  ◌||◌, Option, none, some, List, [], ◌∷◌, ◌++◌, arith,
}
use s.Dynstr.{Allocator}
use s.Dynstr.Growth.{Grants}
use s.Codec.Lua.{text, pushed}
use s.Codec.Emit.{expand}
use s.Codec.Escape.{amp, quot, lt, gt, apostrophe, html_piece, html_encode, encode_with-granted}

-- What stands behind a prefix, if the text begins with it.
strip_prefix : List ℕ → List ℕ → Option (List ℕ)
strip_prefix [] cs = some cs
strip_prefix (p ∷ ps) [] = none
strip_prefix (p ∷ ps) (c ∷ cs) = if p == c then strip_prefix ps cs else none

-- The character reference behind an `&`, and the text behind its `;`.
first_some : Option (ℕ × List ℕ) → Option (ℕ × List ℕ) → Option (ℕ × List ℕ)
first_some none y = y
first_some (some r) y = some r

reference : ℕ → List ℕ → List ℕ → Option (ℕ × List ℕ)
unfolding strip_prefix
reference c name cs = strip_prefix (name ++ b';' ∷ []) cs >>= λ rest. some (c, rest)

references : List ℕ → Option (ℕ × List ℕ)
unfolding reference first_some
references cs = first_some (reference b'&' amp cs) (
    first_some (reference b'"' quot cs) (
      first_some (reference b'<' lt cs)
        (first_some (reference b'>' gt cs) (reference b'\'' apostrophe cs))))

-- The characters that a browser reads from a text (with fuel for its length): markup, a quote or an
-- unknown reference is no text, `none`.
unfoldable pub read_text : ℕ → List ℕ → Option (List ℕ)
unfolding references
read_text fuel [] = some []
read_text zero (c ∷ cs) = none
read_text (suc fuel) (c ∷ cs) =
    let refer = references cs >>= λ r. read_text fuel r.1 >>= λ out. some (r.0 ∷ out) in
    let plain = read_text fuel cs >>= λ out. some (c ∷ out) in
    if c == b'&'
    then refer
    else if c == b'<' || c == b'>' || c == b'"' || c == b'\''
    then none
    else plain

read_text-piece :
    (fuel c : ℕ) (cs : List ℕ)
    → read_text (suc fuel) (html_piece c ++ cs) ≡ (read_text fuel cs >>= λ out. some (c ∷ out))
unfolding read_text html_piece
read_text-piece fuel c cs = ground arith

read_text-expand :
    (bytes : List ℕ) (fuel : ℕ)
    → length bytes ≤ fuel
    → read_text fuel (expand html_piece bytes) ≡ some bytes
read_text-expand [] fuel h = unfold read_text in refl
read_text-expand (c ∷ cs) zero h = absurd (omega arith)
read_text-expand (c ∷ cs) (suc fuel) h =
    rw (read_text-piece fuel c (expand html_piece cs), read_text-expand cs fuel (omega arith)) refl

length-html_piece : (c : ℕ) → length (html_piece c) ≤ 6
unfolding html_piece
length-html_piece c = ground arith

length-html : (bytes : List ℕ) → length (expand html_piece bytes) ≤ 6 * length bytes
length-html [] = omega arith
length-html (c ∷ cs) = omega (
  arith,
  length-append (html_piece c) (expand html_piece cs),
  length-html_piece c,
  length-html cs,
)

-- The result of `html_encode` reads as plain text: it holds no `<`, no `>` and no quote, each `&`
-- in it begins a known reference, and the characters that it stands for are the input. (Memory
-- granted, at most 2 ^ 56 bytes.)
pub html_text :
    (a : Allocator) (bytes : List ℕ) (fuel : ℕ)
    → Grants a
    → length bytes ≤ 2 ^ 56
    → length bytes ≤ fuel
    → (out : List ℕ) × (html_encode a (text bytes ∷ []) ≡ pushed out)
      × (read_text fuel out ≡ some bytes)
unfolding html_encode
html_text a bytes fuel g small enough = (
  expand html_piece bytes,
  ap pushed (
      encode_with-granted html_piece 4096 a bytes g (omega arith) (omega arith)
        (omega (arith, length-html bytes))),
  read_text-expand bytes fuel enough,
)
