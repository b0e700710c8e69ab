-- ===== src/Net/Headers/Line.antt =====
-- src/80s/lua_net.c: how the header parser reads the first line of a request.
use s.Common.{
  length, All, ℕ, ◌+◌, ◌≡◌, refl, sym, ap, ap₂, ◌∙◌, true, List, [], ◌∷◌, ◌++◌, append_assoc, arith,
}
use s.Net.Headers.{
  read_status_code_spaces_after, read_status_message, read_status_message_spaces_after,
  read_status_http_version, read_header_end, Span, Reader, at, method_key, script_key, http_key,
  on_line_end, on_space, on_character, on_colon, on_other, on_byte, read_bytes, pushed_text,
  start_reader,
}
use s.Net.Headers.Scan.{
  is_text, is_word, scan_code, scan_message, scan_http, extend_code, extend_message, extend_http,
}
use s.Net.Headers.Stages.{run, byte, field, pushed_field}

pub shift :
    (text before x after : List ℕ) → text ≡ before ++ (x ++ after) → text ≡ (before ++ x) ++ after
shift text before x after e = e ∙ sym (append_assoc before x after)

-- A method, a script and a version, each with its first byte apart.
pub record StatusLine : Type 0 where
  pub method_first : ℕ
  pub method_rest : List ℕ
  pub script_first : ℕ
  pub script_rest : List ℕ
  pub http_first : ℕ
  pub http_rest : List ℕ

abbrev pub method_of : StatusLine → List ℕ
method_of l = l.method_first ∷ l.method_rest

abbrev pub script_of : StatusLine → List ℕ
script_of l = l.script_first ∷ l.script_rest

abbrev pub http_of : StatusLine → List ℕ
http_of l = l.http_first ∷ l.http_rest

-- No blanks but in the version, and no ends of lines. The script begins with no colon.
pub record IsPlain (l : StatusLine) : Type 0 where
  pub method_words : All (λ c. is_word c ≡ true) (method_of l)
  pub script_words : All (λ c. is_word c ≡ true) (script_of l)
  pub http_text : All (λ c. is_text c ≡ true) (http_of l)
  pub http_begins : is_word l.http_first ≡ true

-- The status line in front of the rest of a text.
abbrev pub line_before : StatusLine → List ℕ → List ℕ
line_before l rest =
    method_of l ++ (b' ' ∷ (script_of l ++ (b' ' ∷ (http_of l ++ (b'\r' ∷ b'\n' ∷ rest)))))

abbrev pub status_entries : StatusLine → List (List ℕ × List ℕ)
status_entries l =
    (method_key, method_of l) ∷ (script_key, script_of l) ∷ (http_key, http_of l) ∷ []

-- The status line has been read, and nothing else.
pub record StatusRead (l : StatusLine) (text : List ℕ) (r : Reader) : Type 0 where
  pub state : r.current_state ≡ read_header_end
  pub kept : r.text ≡ text
  pub entries : r.table ≡ status_entries l
  pub no_key : r.key ≡ at 0
  pub no_value : r.value ≡ at 0

line_entries :
    (l : StatusLine) (text : List ℕ) (code message http : Span)
    → pushed_text text code ≡ method_of l
    → pushed_text text message ≡ script_of l
    → pushed_text text http ≡ http_of l
    → (method_key, pushed_text text code)
        ∷ (script_key, pushed_text text message)
        ∷ (http_key, pushed_text text http)
        ∷ []
      ≡ status_entries l
line_entries l text code message http a b c =
    ap₂ (λ x y. (method_key, x) ∷ y) a (ap₂ (λ x y. (script_key, x) ∷ (http_key, y) ∷ []) b c)

pub status_line_read :
    (l : StatusLine) (rest text : List ℕ)
    → IsPlain l
    → text ≡ line_before l rest
    → (before : List ℕ) × (r : Reader) × StatusRead l text r
      × (text ≡ before ++ rest)
      × (read_bytes (length text) 0 (start_reader text) ≡ run before rest r)
unfolding on_byte on_space on_character on_line_end on_other on_colon
status_line_read l rest text p e =
    let a3 = b'\r' ∷ b'\n' ∷ rest in
    let a2 = b' ' ∷ (http_of l ++ a3) in
    let a1 = b' ' ∷ (script_of l ++ a2) in
    let b1 = method_of l in
    let b2 = b1 ++ b' ' ∷ [] in
    let b3 = b2 ++ script_of l in
    let b4 = b3 ++ b' ' ∷ [] in
    let b5 = b4 ++ http_of l in
    let t2 = shift text b1 (b' ' ∷ []) (script_of l ++ a2) e in
    let t3 = shift text b2 (script_of l) a2 t2 in
    let t4 = shift text b3 (b' ' ∷ []) (http_of l ++ a3) t3 in
    let t5 = shift text b4 (http_of l) a3 t4 in
    let r0 = start_reader text in
    let r1 : Reader = extend_code (0 + length l.method_rest) r0 in
    let e1 : run [] (method_of l ++ a1) r0 ≡ run b1 a1 r1 =
      field scan_code [] l.method_rest a1 l.method_first r0 (extend_code 0 r0)
        (scan_code.steps 0 l.method_first r0 refl p.method_words.0) refl refl refl p.method_words.1
        e in
    let r2 : Reader = record r1 { current_state = read_status_code_spaces_after } in
    let e2 : run b1 a1 r1 ≡ run b2 (script_of l ++ a2) r2 = byte b1 (script_of l ++ a2) b' ' r1 e in
    let f2 : Reader = record r2 { message = at (length b2); current_state = read_status_message } in
    let r3 : Reader = extend_message (length b2 + length l.script_rest) f2 in
    let e3 : run b2 (script_of l ++ a2) r2 ≡ run b3 a2 r3 =
      field scan_message b2 l.script_rest a2 l.script_first r2 f2 (ground (arith, p.script_words.0))
        refl refl refl p.script_words.1 t2 in
    let r4 : Reader = record r3 { current_state = read_status_message_spaces_after } in
    let e4 : run b3 a2 r3 ≡ run b4 (http_of l ++ a3) r4 = byte b3 (http_of l ++ a3) b' ' r3 t3 in
    let f4 : Reader = record r4 {
      http = at (length b4);
      current_state = read_status_http_version;
    } in
    let r5 : Reader = extend_http (length b4 + length l.http_rest) f4 in
    let e5 : run b4 (http_of l ++ a3) r4 ≡ run b5 a3 r5 =
      field scan_http b4 l.http_rest a3 l.http_first r4 f4 (ground (arith, p.http_begins)) refl refl
        refl p.http_text.1 t4 in
    let r6 : Reader = on_line_end read_status_http_version r5 in
    let e6 : run b5 a3 r5 ≡ run (b5 ++ b'\r' ∷ []) (b'\n' ∷ rest) r6 =
      byte b5 (b'\n' ∷ rest) b'\r' r5 t5 in
    let b6 = b5 ++ b'\r' ∷ [] in
    let t6 = shift text b5 (b'\r' ∷ []) (b'\n' ∷ rest) t5 in
    let e7 : run b6 (b'\n' ∷ rest) r6 ≡ run (b6 ++ b'\n' ∷ []) rest r6 = byte b6 rest b'\n' r6 t6 in
    (
      b6 ++ b'\n' ∷ [],
      r6,
      record {
        state = refl;
        kept = refl;
        entries =
            line_entries l text r5.code r5.message r5.http
              (pushed_field text [] l.method_rest a1 l.method_first e)
              (pushed_field text b2 l.script_rest a2 l.script_first t2)
              (pushed_field text b4 l.http_rest a3 l.http_first t4);
        no_key = refl;
        no_value = refl;
      },
      shift text b6 (b'\n' ∷ []) rest t6,
      ap (λ t. read_bytes (length t) 0 r0) e ∙ (e1 ∙ (e2 ∙ (e3 ∙ (e4 ∙ (e5 ∙ (e6 ∙ e7)))))),
    )
