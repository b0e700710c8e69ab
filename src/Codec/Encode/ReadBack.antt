-- ===== src/Codec/Encode/ReadBack.antt =====
-- src/80s/lua_codec.c: a string that `encode_string` wrote, read by `json_decode` as a value or a
-- key.
use s.Common.{
  length, get_or, drop, All, length-append, ℕ, suc, ◌-◌, ◌≤◌, ◌<◌, ◌≡◌, refl, sym, ap, subst, ◌∙◌,
  ◌⊎◌, inl, inr, true, List, [], ◌∷◌, ◌++◌, append_assoc, arith,
}
use s.Dynstr.{Dynstr, Allocator, contents, init}
use s.Dynstr.Growth.{Grants, max_length}
use s.Codec.Json.Mode.{read_key, read_value}
use s.Codec.Json.Api.{Lua}
use s.Codec.Json.Machine.{advance, leave, count}
use s.Codec.Json.Decode.{
  M, step, step_mode, step_read_text, running, step_read_value, step_read_key, open_text,
}
use s.Codec.Encode.{string_calls, all_calls, encode_string}
use s.Codec.Encode.Print.{flatten, print_string}
use s.Codec.Encode.Written.{flatten-append, encode_string-Wrote}
use s.Codec.Encode.Wrote.{IsGood}
use s.Codec.Encode.Strings.{
  survives, at_lem, drop-append, Rounds, here, round, Rounds-trans, moved, Reading, running_lem,
  string-Rounds,
}

module _ (L : Lua) (a : Allocator) (text : List ℕ) where
  open L use {State, pushlstring}

  -- Where a value or a key may begin.
  pub record Expecting (m : M L) : Type 0 where
    pub fine : m.ok ≡ true
    pub mode : (m.states (m.level - 1) ≡ read_value) ⊎ (m.states (m.level - 1) ≡ read_key)
    pub above : 0 < m.level
    pub below : m.level < 30

  -- `value` has been read and pushed, and the loop is in the state it was in.
  pub record ReadBack (value after : List ℕ) (m r : M L) : Type 0 where
    pub rounds : Rounds L a text m r
    pub lua : r.lua ≡ pushlstring value m.lua
    pub behind : drop r.i text ≡ after
    pub level : r.level ≡ m.level
    pub mode : r.states (m.level - 1) ≡ m.states (m.level - 1)
    pub fine : r.ok ≡ true

  abbrev emptied : Dynstr → Dynstr
  emptied d = record d { length = 0 }

  emptied-IsGood : (d : Dynstr) → IsGood d → IsGood (emptied d)
  emptied-IsGood d good = record {
    valid = record { written = omega arith; fits = omega arith };
    small = good.small;
    fine = good.fine;
  }

  one : (m k : M L) → running L text m ≡ true → step L a text m ≡ k → Rounds L a text m k
  one m k t e = round t (subst (λ n. Rounds L a text n k) (sym e) here)

  opening : (m : M L) → Expecting m → get_or text m.i 0 ≡ b'"' → step L a text m ≡ open_text L m
  unfolding step step_mode step_read_value step_read_key
  opening m x e = elim x.mode [ inl v ↦ rw (v, e) refl | inr k ↦ rw (k, e) refl ]

  -- `case '"'` of `read_text`
  abbrev closed : M L → M L
  closed m = advance (count (leave (record m { lua = pushlstring (contents m.str) m.lua })))

  closing : (m : M L) → Reading L a text m → get_or text m.i 0 ≡ b'"' → step L a text m ≡ closed m
  unfolding step step_mode step_read_text
  closing m r e = rw (r.mode, e) refl

  open_text-Reading : (m : M L) → Expecting m → Reading L a text (open_text L m)
  open_text-Reading m x = record {
    fine = x.fine;
    mode = ground arith;
    above = omega arith;
    below = omega (arith, x.below);
  }

  read_back :
      (g : Grants a) (value after : List ℕ) (m : M L)
      → Expecting m
      → IsGood m.str
      → All (λ c. survives c ≡ true) value
      → length value ≤ max_length
      → drop m.i text ≡ print_string value ++ after
      → (r : M L) × ReadBack value after m r
  read_back g value after m x good all h e =
      let code = flatten (all_calls value) in
      let tail = b'"' ∷ after in
      let first =
        at_lem text (code ++ tail) m.i b'"'
          (e ∙ ap (λ t. b'"' ∷ t) (append_assoc code (b'"' ∷ []) after)) in
      let opened : M L = open_text L m in
      let behind : drop opened.i text ≡ code ++ tail =
        subst (λ k. drop k text ≡ code ++ tail) {x = suc m.i} (omega arith) first.2 in
      let reading = open_text-Reading m x in
      let (str, wrote, rounds) =
        string-Rounds L a text g value tail opened all reading (emptied-IsGood m.str good)
          (omega (arith, h)) behind in
      let last : M L = moved L a text opened (length code) str in
      let q = at_lem text after last.i b'"' (drop-append text code tail opened.i behind) in
      let reading' : Reading L a text last = record {
        fine = reading.fine;
        mode = reading.mode;
        above = reading.above;
        below = reading.below;
      } in
      (
        closed last,
        record {
          rounds =
              Rounds-trans L a text
                (one m opened
                  (running_lem L a text m x.fine x.above (omega (arith, x.below)) first.1)
                  (opening m x first.0))
                (Rounds-trans L a text rounds (
                  one last (closed last)
                    (running_lem L a text last reading.fine reading.above reading.below q.1)
                    (closing last reading' q.0)));
          lua = ap (λ t. pushlstring t m.lua) wrote.emitted.holds;
          behind = subst (λ k. drop k text ≡ after) {x = suc last.i} (omega arith) q.2;
          level = omega arith;
          mode = ground (arith, x.above);
          fine = x.fine;
        },
      )

covers : (c : ℕ) → 1 ≤ length (flatten (string_calls c))
unfolding string_calls
covers c = ground arith

flatten-covers : (value : List ℕ) → length value ≤ length (print_string value)
flatten-covers [] = omega arith
flatten-covers (c ∷ cs) = omega (
  arith,
  covers c,
  flatten-covers cs,
  ap length (flatten-append (string_calls c) (all_calls cs)),
  length-append (flatten (string_calls c)) (flatten (all_calls cs)),
  length-append (flatten (all_calls cs)) (b'"' ∷ []),
  length-append (flatten (all_calls (c ∷ cs))) (b'"' ∷ []),
)

init-IsGood : IsGood (init true 10000)
unfolding init
init-IsGood = record {
  valid = record { written = omega arith; fits = omega arith };
  small = omega arith;
  fine = refl;
}

-- What `encode_string` writes for a string, `json_decode` reads back as that string: with memory
-- granted and at most 2 ^ 60 bytes of text, where the loop expects a value or a key, with less
-- than 30 levels open, and what is written for the string stands next in the text, its rounds
-- push the string and go on behind it, in the state they were in. The string may hold no control
-- characters but `\r`, `\n`, `\t` and NUL.
pub string_round_trip :
    (L : Lua) (a : Allocator) (text value after : List ℕ) (m : M L)
    → Grants a
    → Expecting L a text m
    → IsGood m.str
    → All (λ c. survives c ≡ true) value
    → length (print_string value) ≤ max_length
    → drop m.i text ≡ contents (encode_string a value (init true 10000)) ++ after
    → (r : M L) × ReadBack L a text value after m r
unfolding init
string_round_trip L a text value after m g x good all h e =
    let fresh = init true 10000 in
    let written =
      (encode_string-Wrote a g value fresh init-IsGood (omega (arith, h))).emitted.holds in
    read_back L a text g value after m x good all (omega (arith, h, flatten-covers value))
      (e ∙ ap (λ t. t ++ after) written)
