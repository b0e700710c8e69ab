-- ===== src/Codec/Escape.antt =====
-- src/80s/lua_codec.c: `l_codec_mysql_encode` and `l_codec_html_encode`.
pub mod Mysql
pub mod Html
use s.Common.{
  ◌==◌, if◌then◌else◌, length, ℕ, ◌^◌, ◌≤◌, ◌≡◌, ap, ◌∙◌, true, List, [], ◌∷◌, ◌++◌, arith,
}
use s.Dynstr.{Dynstr, Allocator, contents, init, check}
use s.Dynstr.Growth.{
  IsValid, Grants, max_size, max_length, HasRoom, check-IsValid, check-small, check-granted,
  contents-check, length-check,
}
use s.Codec.Lua.{Arg, Reply, pushed, with_text}
use s.Codec.Emit.{expand, put_each, Emitted, put_each-Emitted}

-- The two bytes of an escape sequence.
abbrev pub escaped : ℕ → List ℕ
escaped c = b'\\' ∷ c ∷ []

-- The `switch` of `l_codec_mysql_encode`.
unfoldable pub mysql_piece : ℕ → List ℕ
mysql_piece c =
    if c == b'\r'
    then escaped b'r'
    else if c == b'\n'
    then escaped b'n'
    else if c == b'"'
    then escaped b'"'
    else if c == b'\''
    then escaped b'\''
    else if c == 8
    then escaped b'b'
    else if c == b'\\'
    then escaped b'\\'
    else if c == 0
    then escaped b'0'
    else if c == 1
    then escaped b'1'
    else c ∷ []

-- `dynstr_check(&str, len)`, then the loop; if memory is refused, the text is empty.
unfoldable pub encode_with : (ℕ → List ℕ) → ℕ → Allocator → List ℕ → Dynstr
unfolding check init put_each
encode_with piece stack a bytes =
    let (str, room) = check a (init true stack) (length bytes) in
    if room then put_each a piece str bytes else str

unfoldable pub mysql_encode : Allocator → List Arg → Reply
unfolding encode_with with_text mysql_piece
mysql_encode a args =
    with_text args λ bytes. pushed (contents (encode_with mysql_piece 512 a bytes))

-- "&amp;", "&quot;", "&lt;", "&gt;" and "&#39;", each between its `&` and `;`.
abbrev pub amp : List ℕ
amp = b'a' ∷ b'm' ∷ b'p' ∷ []

abbrev pub quot : List ℕ
quot = b'q' ∷ b'u' ∷ b'o' ∷ b't' ∷ []

abbrev pub lt : List ℕ
lt = b'l' ∷ b't' ∷ []

abbrev pub gt : List ℕ
gt = b'g' ∷ b't' ∷ []

abbrev pub apostrophe : List ℕ
apostrophe = b'#' ∷ b'3' ∷ b'9' ∷ []

abbrev pub entity : List ℕ → List ℕ
entity name = b'&' ∷ (name ++ b';' ∷ [])

-- The `switch` of `l_codec_html_encode`.
unfoldable pub html_piece : ℕ → List ℕ
html_piece c =
    if c == b'&'
    then entity amp
    else if c == b'"'
    then entity quot
    else if c == b'<'
    then entity lt
    else if c == b'>'
    then entity gt
    else if c == b'\''
    then entity apostrophe
    else c ∷ []

unfoldable pub html_encode : Allocator → List Arg → Reply
unfolding encode_with with_text html_piece
html_encode a args = with_text args λ bytes. pushed (contents (encode_with html_piece 4096 a bytes))

-- Where memory is granted, the loop runs to its end and holds the whole text.
pub encode_with-granted :
    (piece : ℕ → List ℕ) (stack : ℕ) (a : Allocator) (bytes : List ℕ)
    → Grants a
    → stack ≤ 2 ^ 20
    → length bytes ≤ max_length
    → length (expand piece bytes) ≤ max_length
    → contents (encode_with piece stack a bytes) ≡ expand piece bytes
unfolding encode_with
encode_with-granted piece stack a bytes g s h k =
    let d = init true stack in
    let n = length bytes in
    let v : IsValid d = unfold init in omega arith in
    let small : d.size ≤ max_size = unfold init in omega arith in
    let room : HasRoom d n = unfold init in omega arith in
    let e = check a d n in
    let len : e.0.length ≡ 0 = length-check a d n v room in
    rw (check-granted a d n g) (
      (put_each-Emitted a piece e.0 bytes g (check-IsValid a d n v room)
        (check-small a d n small (unfold init in omega arith)) (omega (arith, len))).holds
      ∙ ap (λ t. t ++ expand piece bytes) (contents-check a d n v room))
