-- ===== src/Net/Headers/Stages.antt =====
-- src/80s/lua_net.c: the header parser, stage by stage, from any place of a text.
use s.Common.{
  length, take, drop, All, length-append, take-append, ℕ, ◌+◌, ◌≡◌, refl, sym, ap, ap₂, ◌∙◌, Bool,
  true, List, [], ◌∷◌, ◌++◌, append_assoc, arith,
}
use s.Net.Headers.{
  ParseState, read_header_key, read_header_value, Span, Reader, at, on_byte, read_bytes, lower,
  pushed_text,
}
use s.Net.Headers.Scan.{Standing, read_byte, Scanner, scan, is_key_byte, extend_value}
use s.Net.Headers.Fields.{lowered, key_read, scan_key, last_text, scan_value}

-- The parser at the end of `before`, with `after` to read.
abbrev pub run : List ℕ → List ℕ → Reader → Reader
run before after r = read_bytes (length after) (length before) r

pub byte :
    (before after : List ℕ) (c : ℕ) (r : Reader)
    → r.text ≡ before ++ c ∷ after
    → run before (c ∷ after) r ≡ run (before ++ c ∷ []) after (on_byte (length before) c r)
byte before after c r e =
    let s : Standing r before (c ∷ after) (length before) = record { text = e; place = refl } in
    read_byte c (length after) s
    ∙ ap (λ k. read_bytes (length after) k (on_byte (length before) c r))
        (omega (arith, length-append before (c ∷ [])))

-- The rest of a field, whose first byte is read.
word :
    {state : ParseState} {P : ℕ → Bool} {u : ℕ → Reader → Reader} (sc : Scanner state P u)
    (before w after : List ℕ) (c : ℕ) (r : Reader)
    → r.current_state ≡ state
    → All (λ x. P x ≡ true) w
    → u (length before) r ≡ r
    → r.text ≡ before ++ ((c ∷ w) ++ after)
    → run (before ++ c ∷ []) (w ++ after) r
      ≡ run (before ++ c ∷ w) after (u (length before + length w) r)
word {u} sc before [] after c r m all q e =
    ap (run (before ++ c ∷ []) after) (sym q ∙ ap (λ k. u k r) (omega arith))
word {u} sc before (d ∷ w) after c r m all q e =
    let s : Standing r (before ++ c ∷ []) (d ∷ (w ++ after)) (length (before ++ c ∷ [])) = record {
      text = e ∙ sym (append_assoc before (c ∷ []) (d ∷ (w ++ after)));
      place = refl;
    } in
    let one = length-append before (c ∷ []) in
    let all' = length-append before (c ∷ d ∷ w) in
    ap (λ k. read_bytes k (length (before ++ c ∷ [])) r) (omega (arith, length-append w after))
    ∙ (scan sc d w (before ++ c ∷ []) after (length (before ++ c ∷ [])) (length after) r m all s
        ∙ ap₂ (λ k l. read_bytes (length after) k (u l r)) (omega (arith, one, all'))
            (omega (arith, one)))

-- A whole field.
pub field :
    {state : ParseState} {P : ℕ → Bool} {u : ℕ → Reader → Reader} (sc : Scanner state P u)
    (before w after : List ℕ) (c : ℕ) (r first : Reader)
    → on_byte (length before) c r ≡ first
    → first.current_state ≡ state
    → first.text ≡ r.text
    → u (length before) first ≡ first
    → All (λ x. P x ≡ true) w
    → r.text ≡ before ++ ((c ∷ w) ++ after)
    → run before ((c ∷ w) ++ after) r
      ≡ run (before ++ c ∷ w) after (u (length before + length w) first)
field sc before w after c r first b m t q all e =
    byte before (w ++ after) c r e
    ∙ (ap (run (before ++ c ∷ []) (w ++ after)) b ∙ word sc before w after c first m all q (t ∙ e))

pub take-drop_field :
    (before w after : List ℕ) (n : ℕ)
    → n ≡ length w
    → take n (drop (length before) (before ++ (w ++ after))) ≡ w
take-drop_field [] w after n e = rw e (take-append (length w) w after refl)
take-drop_field (x ∷ before) w after n e = take-drop_field before w after n e

-- What is pushed for a field.
pub pushed_field :
    (text before w after : List ℕ) (c : ℕ)
    → text ≡ before ++ ((c ∷ w) ++ after)
    → pushed_text text (record { begin = length before; last = length before + length w }) ≡ c ∷ w
pushed_field text before w after c e = rw e (take-drop_field before (c ∷ w) after _ (omega arith))

-- The rest of a key, whose first byte is read.
pub key_rest :
    (before w after : List ℕ) (c : ℕ) (r : Reader)
    → r.current_state ≡ read_header_key
    → All (λ x. is_key_byte x ≡ true) w
    → r.key ≡ at (length before)
    → r.text ≡ before ++ (lower c ∷ (w ++ after))
    → run (before ++ c ∷ []) (w ++ after) r
      ≡ run
          (before ++ c ∷ w)
          after
          (key_read r (before ++ (lowered (c ∷ w) ++ after)) (length before + length w))
key_rest before [] after c r m all q e =
    let rebuilt = λ (t : List ℕ) (l : ℕ). record r {
      text = t;
      key = record { begin = r.key.begin; last = l };
    } in
    ap (run (before ++ c ∷ []) after) (ap₂ rebuilt e (ap (λ (k : Span). k.last) q ∙ omega arith))
key_rest before (d ∷ w) after c r m all q e =
    let b = before ++ c ∷ [] in
    let s : Standing r (before ++ lower c ∷ []) (d ∷ (w ++ after)) (length b) = record {
      text = e ∙ sym (append_assoc before (lower c ∷ []) (d ∷ (w ++ after)));
      place = omega (arith, length-append before (c ∷ []), length-append before (lower c ∷ []));
    } in
    let one = length-append before (c ∷ []) in
    let all' = length-append before (c ∷ d ∷ w) in
    ap (λ k. read_bytes k (length b) r) (omega (arith, length-append w after))
    ∙ (scan_key d w (before ++ lower c ∷ []) after (length b) (length after) r m all s
        ∙ (ap₂
              (λ k l.
                read_bytes (length after) k
                  (key_read r ((before ++ lower c ∷ []) ++ (lowered (d ∷ w) ++ after)) l))
              (omega (arith, one, all')) (omega (arith, one))
            ∙ ap
                (λ t.
                  read_bytes (length after) (length (before ++ c ∷ d ∷ w))
                    (key_read r t (length before + length (d ∷ w))))
                (append_assoc before (lower c ∷ []) (lowered (d ∷ w) ++ after))))

-- All the rest, as a value whose first byte is read.
pub value_rest :
    (before w : List ℕ) (c : ℕ) (r : Reader)
    → r.current_state ≡ read_header_value
    → r.text ≡ before ++ c ∷ w
    → run (before ++ c ∷ []) w r ≡ extend_value (last_text (length before + 1) w r.value.last) r
value_rest before w c r m e =
    let s : Standing r (before ++ c ∷ []) w (length (before ++ c ∷ [])) = record {
      text = e ∙ sym (append_assoc before (c ∷ []) w);
      place = refl;
    } in
    scan_value w (before ++ c ∷ []) (length (before ++ c ∷ [])) r m s
    ∙ ap (λ k. extend_value (last_text k w r.value.last) r)
        (omega (arith, length-append before (c ∷ [])))
