-- ===== src/Net/Headers/Scan.antt =====
-- src/80s/lua_net.c: stretches of a text that the header parser reads in one state.
use s.Common.{
  ◌==◌, length, get_or, set, All, length-append, ℕ, suc, ◌+◌, ◌≡◌, refl, sym, ap, ap₂, ◌∙◌, Bool,
  true, not, ◌&&◌, ◌||◌, List, [], ◌∷◌, ◌++◌, append_assoc, arith,
}
use s.Net.Headers.{
  ParseState, read_status_code, read_status_message, read_status_http_version, Reader, until,
  on_space, on_colon, on_character, on_other, on_byte, read_bytes,
}

pub get_or-append : (xs ys : List ℕ) (c : ℕ) → get_or (xs ++ c ∷ ys) (length xs) 0 ≡ c
get_or-append [] ys c = refl
get_or-append (x ∷ xs) ys c = get_or-append xs ys c

pub set-append : (xs ys : List ℕ) (c d : ℕ) → set (xs ++ c ∷ ys) (length xs) d ≡ xs ++ d ∷ ys
set-append [] ys c d = refl
set-append (x ∷ xs) ys c d = ap (λ t. x ∷ t) (set-append xs ys c d)

-- The text at the place where the parser is.
pub record Standing (r : Reader) (before after : List ℕ) (i : ℕ) : Type 0 where
  pub text : r.text ≡ before ++ after
  pub place : i ≡ length before

-- One byte.
pub read_byte :
    {r : Reader} {before after : List ℕ} {i : ℕ} (c n : ℕ)
    → Standing r before (c ∷ after) i
    → read_bytes (suc n) i r ≡ read_bytes n (i + 1) (on_byte i c r)
unfolding read_bytes
read_byte {r} {before} {after} {i} c n s =
    let e : get_or r.text i 0 ≡ c = rw (s.text, s.place) (get_or-append before after c) in rw e refl

-- What the bytes of a class do in a state that they keep: each does `u` at its place, and the
-- last one counts.
pub record Scanner (state : ParseState) (P : ℕ → Bool) (u : ℕ → Reader → Reader) : Type 0 where
  pub steps : (i c : ℕ) (r : Reader) → r.current_state ≡ state → P c ≡ true → on_byte i c r ≡ u i r
  pub stays : (i : ℕ) (r : Reader) → (u i r).current_state ≡ r.current_state
  pub keeps : (i : ℕ) (r : Reader) → (u i r).text ≡ r.text
  pub last_counts : (i j : ℕ) (r : Reader) → u j (u i r) ≡ u j r

pub scan :
    {state : ParseState} {P : ℕ → Bool} {u : ℕ → Reader → Reader}
    → Scanner state P u
    → (c : ℕ) (w before after : List ℕ) (i n : ℕ) (r : Reader) → r.current_state ≡ state
    → All (λ x. P x ≡ true) (c ∷ w)
    → Standing r before (c ∷ (w ++ after)) i
    → read_bytes (length (c ∷ w) + n) i r ≡ read_bytes n (i + length (c ∷ w)) (u (i + length w) r)
scan {u} sc c [] before after i n r e all s =
    let k : suc 0 + n ≡ suc n = omega arith in
    let j : i + 0 ≡ i = omega arith in
    rw (k, j) (read_byte c n s ∙ ap (read_bytes n (i + 1)) (sc.steps i c r e all.0))
scan {u} sc c (d ∷ w) before after i n r e all s =
    let k : length (c ∷ d ∷ w) + n ≡ suc (length (d ∷ w) + n) = omega arith in
    let r' = u i r in
    let s' : Standing r' (before ++ c ∷ []) (d ∷ (w ++ after)) (i + 1) = record {
      text = sc.keeps i r ∙ (s.text ∙ sym (append_assoc before (c ∷ []) (d ∷ (w ++ after))));
      place = omega (arith, s.place, length-append before (c ∷ []));
    } in
    let later = scan sc d w (before ++ c ∷ []) after (i + 1) n r' (sc.stays i r ∙ e) all.1 s' in
    let m = length (d ∷ w) + n in
    ap (λ t. read_bytes t i r) k
    ∙ (read_byte c m s
        ∙ (ap (read_bytes m (i + 1)) (sc.steps i c r e all.0)
            ∙ (later
                ∙ ap₂ (read_bytes n) (omega arith)
                    (sc.last_counts i (i + 1 + length w) r ∙ ap (λ j. u j r) (omega arith)))))

-- Not the end of a line.
abbrev pub is_text : ℕ → Bool
is_text c = not (c == b'\r' || c == b'\n')

-- Not a blank either.
abbrev pub is_word : ℕ → Bool
is_word c = is_text c && not (c == b' ')

-- Nor a colon: what a key is made of.
abbrev pub is_key_byte : ℕ → Bool
is_key_byte c = is_word c && not (c == b':')

abbrev pub extend_code : ℕ → Reader → Reader
extend_code i r = record r { code = until r.code i }

abbrev pub extend_message : ℕ → Reader → Reader
extend_message i r = record r { message = until r.message i }

abbrev pub extend_http : ℕ → Reader → Reader
extend_http i r = record r { http = until r.http i }

abbrev pub extend_value : ℕ → Reader → Reader
extend_value i r = record r { value = until r.value i }

pub scan_code : Scanner read_status_code is_word extend_code
unfolding on_byte on_space on_colon on_character on_other
scan_code = record {
  steps = λ i c r e h. rw e (ground arith);
  stays = λ i r. refl;
  keeps = λ i r. refl;
  last_counts = λ i j r. refl;
}

pub scan_http : Scanner read_status_http_version is_text extend_http
unfolding on_byte on_space on_colon on_character on_other
scan_http = record {
  steps = λ i c r e h. ground (arith, e);
  stays = λ i r. refl;
  keeps = λ i r. refl;
  last_counts = λ i j r. refl;
}

pub scan_message : Scanner read_status_message is_word extend_message
unfolding on_byte on_space on_colon on_character on_other
scan_message = record {
  steps = λ i c r e h. rw e (ground arith);
  stays = λ i r. refl;
  keeps = λ i r. refl;
  last_counts = λ i j r. refl;
}
