-- ===== src/Net/Headers/Fields.antt =====
-- src/80s/lua_net.c: how the header parser reads a key and a value.
use s.Common.{
  ltb, if◌then◌else◌, Bool-cases, length, set, take, All, length-append, ℕ, suc, ◌+◌, ◌<◌, ◌≡◌,
  refl, sym, ap, ap₂, ◌∙◌, inl, inr, true, ◌||◌, List, [], ◌∷◌, ◌++◌, append_assoc, arith,
}
use s.Net.Headers.{
  read_header_key, read_header_value, Reader, until, on_line_end, on_space, on_colon, on_character,
  on_other, on_byte, read_bytes, lower,
}
use s.Net.Headers.Scan.{set-append, Standing, read_byte, is_text, is_key_byte, extend_value}

abbrev pub lowered : List ℕ → List ℕ
lowered [] = []
lowered (c ∷ cs) = lower c ∷ lowered cs

abbrev pub key_read : Reader → List ℕ → ℕ → Reader
key_read r text last = record r { text = text; key = until r.key last }

key_byte :
    (i c : ℕ) (before after : List ℕ) (r : Reader)
    → r.current_state ≡ read_header_key
    → is_key_byte c ≡ true
    → Standing r before (c ∷ after) i
    → on_byte i c r ≡ key_read r (before ++ lower c ∷ after) i
unfolding on_byte on_other
key_byte i c before after r e h s =
    let t : set r.text i (lower c) ≡ before ++ lower c ∷ after =
      rw (s.text, s.place) (set-append before after c (lower c)) in
    rw e (ground (arith, t))

-- The bytes of a key are written back in lower case.
pub scan_key :
    (c : ℕ) (w before after : List ℕ) (i n : ℕ) (r : Reader)
    → r.current_state ≡ read_header_key
    → All (λ x. is_key_byte x ≡ true) (c ∷ w)
    → Standing r before (c ∷ (w ++ after)) i
    → read_bytes (length (c ∷ w) + n) i r
      ≡ read_bytes n
          (i + length (c ∷ w))
          (key_read r (before ++ (lowered (c ∷ w) ++ after)) (i + length w))
scan_key c [] before after i n r e all s =
    let k : suc 0 + n ≡ suc n = omega arith in
    let j : i + 0 ≡ i = omega arith in
    rw (k, j) (read_byte c n s ∙ ap (read_bytes n (i + 1)) (key_byte i c before after r e all.0 s))
scan_key c (d ∷ w) before after i n r e all s =
    let k : length (c ∷ d ∷ w) + n ≡ suc (length (d ∷ w) + n) = omega arith in
    let m = length (d ∷ w) + n in
    let r' = key_read r (before ++ lower c ∷ (d ∷ (w ++ after))) i in
    let s' : Standing r' (before ++ lower c ∷ []) (d ∷ (w ++ after)) (i + 1) = record {
      text = sym (append_assoc before (lower c ∷ []) (d ∷ (w ++ after)));
      place = omega (arith, s.place, length-append before (lower c ∷ []));
    } in
    let later = scan_key d w (before ++ lower c ∷ []) after (i + 1) n r' e all.1 s' in
    ap (λ t. read_bytes t i r) k
    ∙ (read_byte c m s
        ∙ (ap (read_bytes m (i + 1)) (key_byte i c before (d ∷ (w ++ after)) r e all.0 s)
            ∙ (later
                ∙ ap₂ (read_bytes n) (omega arith) (
                    ap₂ (key_read r) (append_assoc before (lower c ∷ []) (lowered (d ∷ w) ++ after))
                      (omega arith)))))

-- The last place of a stretch that is not the end of a line, or `l`.
abbrev pub last_text : ℕ → List ℕ → ℕ → ℕ
last_text i [] l = l
last_text i (c ∷ cs) l = last_text (i + 1) cs (if is_text c then i else l)

value_byte :
    (i c : ℕ) (r : Reader)
    → r.current_state ≡ read_header_value
    → on_byte i c r ≡ extend_value (if is_text c then i else r.value.last) r
unfolding on_byte on_line_end on_space on_colon on_character on_other
value_byte i c r e = rw e (ground arith)

-- All the rest of the text is read as a value.
pub scan_value :
    (w before : List ℕ) (i : ℕ) (r : Reader)
    → r.current_state ≡ read_header_value
    → Standing r before w i
    → read_bytes (length w) i r ≡ extend_value (last_text i w r.value.last) r
unfolding read_bytes
scan_value [] before i r e s = refl
scan_value (c ∷ w) before i r e s =
    let r' = extend_value (if is_text c then i else r.value.last) r in
    let s' : Standing r' (before ++ c ∷ []) w (i + 1) = record {
      text = s.text ∙ sym (append_assoc before (c ∷ []) w);
      place = omega (arith, s.place, length-append before (c ∷ []));
    } in
    read_byte c (length w) s
    ∙ (ap (read_bytes (length w) (i + 1)) (value_byte i c r e)
        ∙ scan_value w (before ++ c ∷ []) (i + 1) r' e s')

-- A text without the ends of lines behind it.
abbrev pub trim : List ℕ → List ℕ
trim [] = []
trim (c ∷ cs) = let rest = trim cs in if is_text c || ltb 0 (length rest) then c ∷ rest else []

pub take-trim : (w : List ℕ) → take (length (trim w)) w ≡ trim w
take-trim [] = refl
take-trim (c ∷ cs) = elim (Bool-cases (is_text c || ltb 0 (length (trim cs)))) [
  | inl y ↦ rw y (ap (λ t. c ∷ t) (take-trim cs))
  | inr n ↦ rw n refl
]

pub last_text-trim :
    (i : ℕ) (w : List ℕ) (l : ℕ)
    → (length (trim w) ≡ 0 → last_text i w l ≡ l)
      × (0 < length (trim w) → last_text i w l + 1 ≡ i + length (trim w))
last_text-trim i [] l = (λ z. refl, λ p. absurd (omega arith))
last_text-trim i (c ∷ cs) l = elim (Bool-cases (is_text c)) [
  | inl y ↦
      let ih = last_text-trim (i + 1) cs i in
      rw y (λ z. absurd (omega arith), λ p. ground (arith, ih.0, ih.1))
  | inr n ↦
      let ih = last_text-trim (i + 1) cs l in
      rw n (λ z. ground (arith, ih.0, ih.1), λ p. ground (arith, ih.0, ih.1))
]
