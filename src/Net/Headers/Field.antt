-- ===== src/Net/Headers/Field.antt =====
-- src/80s/lua_net.c: how the header parser reads the header behind the first line.
use s.Common.{
  ltb, ◌==◌, if◌then◌else◌, length, set, take, drop, All, length-append, ℕ, suc, ◌+◌, ◌-◌, ◌≡◌,
  refl, sym, ap, ap₂, ◌∙◌, true, false, ◌&&◌, ◌||◌, List, [], ◌∷◌, ◌++◌, append_assoc, arith,
}
use s.Net.Headers.{
  read_header_end, read_header_key, read_header_mid, read_header_value, Span, Reader, at, on_space,
  on_colon, on_other, on_byte, read_bytes, flush, lower, pushed_text,
}
use s.Net.Headers.Scan.{is_text, is_key_byte, extend_value}
use s.Net.Headers.Fields.{lowered, key_read, last_text, trim, take-trim, last_text-trim}
use s.Net.Headers.Scan.{set-append}
use s.Net.Headers.Stages.{run, byte, take-drop_field, key_rest, value_rest}
use s.Net.Headers.Line.{shift}

-- A header: a key and what stands behind its colon and blank, each with its first byte apart.
pub record Header : Type 0 where
  pub key_first : ℕ
  pub key_rest : List ℕ
  pub value_first : ℕ
  pub value_rest : List ℕ

abbrev pub key_of : Header → List ℕ
key_of h = h.key_first ∷ h.key_rest

abbrev pub value_of : Header → List ℕ
value_of h = h.value_first ∷ h.value_rest

pub record IsHeader (h : Header) : Type 0 where
  pub key_bytes : All (λ c. is_key_byte c ≡ true) (key_of h)
  pub value_begins : is_key_byte h.value_first ≡ true

abbrev pub header_text : Header → List ℕ
header_text h = key_of h ++ (b':' ∷ b' ' ∷ value_of h)

-- The entry of a header, of which key and value have two bytes or more.
abbrev pub header_entry : Header → List (List ℕ × List ℕ)
header_entry h =
    if ltb 1 (length (key_of h)) && ltb 1 (length (trim (value_of h)))
    then (lowered (key_of h), trim (value_of h)) ∷ []
    else []

-- The header has been read: what the key and the value span.
pub record HeaderRead (h : Header) (table : List (List ℕ × List ℕ)) (r : Reader) : Type 0 where
  pub entries : r.table ≡ table
  pub key_long : r.key.last - r.key.begin ≡ length h.key_rest
  pub key_text : pushed_text r.text r.key ≡ lowered (key_of h)
  pub value_long : r.value.last - r.value.begin + 1 ≡ length (trim (value_of h))
  pub value_text : pushed_text r.text r.value ≡ trim (value_of h)

flush_none : (r : Reader) → r.key ≡ at 0 → flush r ≡ r
unfolding flush
flush_none r e = let z : ltb 0 (r.key.last - r.key.begin) ≡ false = rw e refl in rw z refl

-- The first byte of a key.
abbrev key_begun : List ℕ → List ℕ → ℕ → Reader → Reader
key_begun before after c r = record r {
  text = before ++ lower c ∷ after;
  key = at (length before);
  value = at (length before);
  current_state = read_header_key;
}

begin_key :
    (before after : List ℕ) (c : ℕ) (r : Reader)
    → is_key_byte c ≡ true
    → r.current_state ≡ read_header_end
    → r.key ≡ at 0
    → r.text ≡ before ++ c ∷ after
    → on_byte (length before) c r ≡ key_begun before after c r
unfolding on_byte on_other
begin_key before after c r h m nk e =
    let no_end : (c == b'\r' || c == b'\n') ≡ false = ground (arith, h) in
    let no_blank : (c == b' ') ≡ false = ground (arith, h) in
    let no_colon : (c == b':') ≡ false = ground (arith, h) in
    let begun = λ (t : List ℕ) (q : Reader). record q {
      text = t;
      key = at (length before);
      value = at (length before);
      current_state = read_header_key;
    } in
    let t : set r.text (length before) (lower c) ≡ before ++ lower c ∷ after =
      rw e (set-append before after c (lower c)) in
    rw (no_end, no_blank, no_colon)
      (ap (λ state. on_other state (length before) c r) m
        ∙ (ap (λ q. begun (set q.text (length before) (lower c)) q) (flush_none r nk)
            ∙ ap (λ x. begun x r) t))

-- The first byte of a value.
begin_value :
    (now c : ℕ) (r : Reader)
    → is_key_byte c ≡ true
    → r.current_state ≡ read_header_mid
    → on_byte now c r ≡ record r { value = at now; current_state = read_header_value }
unfolding on_byte on_other
begin_value now c r h m =
    let no_end : (c == b'\r' || c == b'\n') ≡ false = ground (arith, h) in
    let no_blank : (c == b' ') ≡ false = ground (arith, h) in
    let no_colon : (c == b':') ≡ false = ground (arith, h) in
    rw (no_end, no_blank, no_colon, m) refl

abbrev lowered_text : List ℕ → Header → List ℕ
lowered_text before h = before ++ (lowered (key_of h) ++ (b':' ∷ b' ' ∷ value_of h))

-- The reader behind the key and its colon.
key_is_read :
    (h : Header) (before : List ℕ) (r : Reader)
    → IsHeader h
    → r.current_state ≡ read_header_end
    → r.key ≡ at 0
    → r.text ≡ before ++ header_text h
    → run before (header_text h) r
      ≡ run (before ++ key_of h) (b':' ∷ b' ' ∷ value_of h) (
          key_read
            (key_begun before (h.key_rest ++ (b':' ∷ b' ' ∷ value_of h)) h.key_first r)
            (lowered_text before h)
            (length before + length h.key_rest))
key_is_read h before r p m nk e =
    let after = b':' ∷ b' ' ∷ value_of h in
    let begun = key_begun before (h.key_rest ++ after) h.key_first r in
    byte before (h.key_rest ++ after) h.key_first r e
    ∙ (ap (run (before ++ h.key_first ∷ []) (h.key_rest ++ after))
          (begin_key before (h.key_rest ++ after) h.key_first r p.key_bytes.0 m nk e)
        ∙ key_rest before h.key_rest after h.key_first begun refl p.key_bytes.1 refl refl)

length-lowered : (w : List ℕ) → length (lowered w) ≡ length w
length-lowered [] = refl
length-lowered (c ∷ w) = ap suc (length-lowered w)

drop-append : (before w : List ℕ) → drop (length before) (before ++ w) ≡ w
drop-append [] w = refl
drop-append (x ∷ before) w = drop-append before w

-- A value, as its span and as its text.
record Valued (text before : List ℕ) (h : Header) (s : Span) : Type 0 where
  long : s.last - s.begin + 1 ≡ length (trim (value_of h))
  text_is : pushed_text text s ≡ trim (value_of h)

value_span : List ℕ → Header → Span
value_span before h = record {
  begin = length before;
  last = last_text (length before + 1) h.value_rest (length before);
}

value_Valued :
    (text before : List ℕ) (h : Header)
    → IsHeader h
    → text ≡ before ++ value_of h
    → Valued text before h (value_span before h)
unfolding value_span
value_Valued text before h p e =
    let is_first : is_text h.value_first ≡ true = ground (arith, p.value_begins) in
    let (none_left, some_left) = last_text-trim (length before + 1) h.value_rest (length before) in
    let long : last_text (length before + 1) h.value_rest (length before) - length before + 1
        ≡ length (trim (value_of h)) =
      ground (arith, is_first, none_left, some_left) in
    record {
      long = long;
      text_is =
          ap₂ take long (ap (drop (length before)) e ∙ drop-append before (value_of h))
          ∙ take-trim (value_of h);
    }

-- The header to the end of the text.
pub header_read :
    (h : Header) (before : List ℕ) (r : Reader)
    → IsHeader h
    → r.current_state ≡ read_header_end
    → r.key ≡ at 0
    → r.text ≡ before ++ header_text h
    → (r' : Reader) × HeaderRead h r.table r' × (run before (header_text h) r ≡ r')
unfolding on_byte on_space on_colon value_span
header_read h before r p m nk e =
    let after = b':' ∷ b' ' ∷ value_of h in
    let text = lowered_text before h in
    let r1 : Reader =
      key_read (key_begun before (h.key_rest ++ after) h.key_first r) text
        (length before + length h.key_rest) in
    let l1 = before ++ lowered (key_of h) in
    let l2 = l1 ++ b':' ∷ [] in
    let l3 = l2 ++ b' ' ∷ [] in
    let t1 : text ≡ l1 ++ after = sym (append_assoc before (lowered (key_of h)) after) in
    let t2 = shift text l1 (b':' ∷ []) (b' ' ∷ value_of h) t1 in
    let t3 = shift text l2 (b' ' ∷ []) (value_of h) t2 in
    let r2 : Reader = record r1 { current_state = read_header_mid } in
    let r3 : Reader = record r2 { value = at (length l3); current_state = read_header_value } in
    let r4 : Reader = extend_value (last_text (length l3 + 1) h.value_rest (length l3)) r3 in
    let e1 : run (before ++ key_of h) after r1 ≡ run l1 after r1 =
      ap (λ k. read_bytes (length after) k r1)
        (omega (
          arith,
          length-append before (key_of h),
          length-append before (lowered (key_of h)),
          length-lowered (key_of h),
        )) in
    let e2 : run l1 after r1 ≡ run l2 (b' ' ∷ value_of h) r2 =
      byte l1 (b' ' ∷ value_of h) b':' r1 t1 in
    let e3 : run l2 (b' ' ∷ value_of h) r2 ≡ run l3 (value_of h) r2 =
      byte l2 (value_of h) b' ' r2 t2 in
    let e4 : run l3 (value_of h) r2 ≡ run (l3 ++ h.value_first ∷ []) h.value_rest r3 =
      byte l3 h.value_rest h.value_first r2 t3
      ∙ ap (run (l3 ++ h.value_first ∷ []) h.value_rest)
          (begin_value (length l3) h.value_first r2 p.value_begins refl) in
    let e5 : run (l3 ++ h.value_first ∷ []) h.value_rest r3 ≡ r4 =
      value_rest l3 h.value_rest h.value_first r3 refl t3 in
    let v : Valued text l3 h r4.value = value_Valued text l3 h p t3 in
    (
      r4,
      record {
        entries = refl;
        key_long = omega arith;
        key_text =
            take-drop_field before (lowered (key_of h)) after _
              (omega (arith, length-lowered (key_of h)));
        value_long = v.long;
        value_text = v.text_is;
      },
      key_is_read h before r p m nk e ∙ (e1 ∙ (e2 ∙ (e3 ∙ (e4 ∙ e5)))),
    )
