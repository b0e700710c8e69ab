-- ===== src/Codec/Encode/Strings.antt =====
-- src/80s/lua_codec.c: what `encode_string` writes, `json_decode` reads back.
use s.Common.{
  ltb, leb, ◌==◌, lt→ltb, Bool-cases, length, get_or, drop, All, length-append, ℕ, zero, suc, ◌+◌,
  ◌-◌, ◌≤◌, ◌<◌, ◌≡◌, refl, sym, ap, subst, ◌∙◌, inl, inr, Bool, true, false, ◌||◌, List, [], ◌∷◌,
  ◌++◌, append_assoc, arith,
}
use s.Dynstr.{Dynstr, Allocator, puts}
use s.Dynstr.Growth.{Grants, max_length, putc-puts}
use s.Codec.Json.Mode.{read_text}
use s.Codec.Json.Api.{Lua}
use s.Codec.Json.Machine.{unescaped}
use s.Codec.Json.Decode.{M, step, step_mode, step_read_text, running}
use s.Codec.Encode.{string_calls, all_calls}
use s.Codec.Encode.Print.{flatten}
use s.Codec.Encode.Written.{flatten-append}
use s.Codec.Encode.Wrote.{IsGood, Wrote, Wrote-IsGood, Wrote-trans, Wrote-nil, puts-Wrote}

-- The characters that are written as they are or with an escape that is read: all but the other
-- control characters.
abbrev pub survives : ℕ → Bool
survives c = leb 32 c || c == b'\r' || c == b'\n' || c == b'\t' || c == 0

-- How a character that survives stands in the text.
data Piece : ℕ → List (List ℕ) → Type 0 where
  plain : {c : ℕ} → (c == b'"') ≡ false → (c == b'\\') ≡ false → Piece c ((c ∷ []) ∷ [])
  escaped : {c : ℕ} → (e : ℕ) → unescaped e ≡ c → Piece c ((b'\\' ∷ e ∷ []) ∷ [])

at_character :
    {c : ℕ} (k : ℕ) → (c == k) ≡ true → Piece k (string_calls k) → Piece c (string_calls c)
at_character {c} k t p = let e : k ≡ c = ground arith in subst (λ x. Piece x (string_calls x)) e p

string_calls-Piece : (c : ℕ) → survives c ≡ true → Piece c (string_calls c)
unfolding string_calls
string_calls-Piece c h = elim (Bool-cases (c == b'\r')) [
  | inl t ↦ at_character b'\r' t (escaped b'r' refl)
  | inr no_r ↦ elim (Bool-cases (c == b'\n')) [
    | inl t ↦ at_character b'\n' t (escaped b'n' refl)
    | inr no_n ↦ elim (Bool-cases (c == b'\t')) [
      | inl t ↦ at_character b'\t' t (escaped b't' refl)
      | inr no_t ↦ elim (Bool-cases (c == b'"')) [
        | inl t ↦ at_character b'"' t (escaped b'"' refl)
        | inr no_quote ↦ elim (Bool-cases (c == b'\\')) [
          | inl t ↦ at_character b'\\' t (escaped b'\\' refl)
          | inr no_slash ↦ elim (Bool-cases (c == 0)) [
            | inl t ↦ at_character 0 t (escaped b'0' refl)
            | inr no_nul ↦
                let big : ltb c 32 ≡ false = ground arith in
                rw (no_r, no_n, no_t, no_quote, no_slash, no_nul, big) (plain no_quote no_slash)
          ]
        ]
      ]
    ]
  ]
]

-- A character of the text, and the text behind it.
pub at_lem :
    (text rest : List ℕ) (i c : ℕ)
    → drop i text ≡ c ∷ rest
    → (get_or text i 0 ≡ c) × (i < length text) × (drop (suc i) text ≡ rest)
at_lem [] rest zero c e = absurd (omega (arith, ap length e))
at_lem [] rest (suc i) c e = absurd (omega (arith, ap length e))
at_lem (x ∷ text) rest zero c e = (cc, omega arith, cc)
at_lem (x ∷ text) rest (suc i) c e =
    let ih = at_lem text rest i c e in (ih.0, omega (arith, ih.1), ih.2)

pub drop-append :
    (text xs rest : List ℕ) (i : ℕ) → drop i text ≡ xs ++ rest → drop (i + length xs) text ≡ rest
drop-append text [] rest i e = subst (λ k. drop k text ≡ rest) (omega arith) e
drop-append text (x ∷ xs) rest i e =
    subst (λ k. drop k text ≡ rest) (omega arith)
      (drop-append text xs rest (suc i) (at_lem text (xs ++ rest) i x e).2)

module _ (L : Lua) (a : Allocator) (text : List ℕ) where
  open L use {State, pushlstring}

  -- Rounds of the loop.
  pub data Rounds : M L → M L → Type 0 where
    here : {m : M L} → Rounds m m
    round : {m r : M L} → running L text m ≡ true → Rounds (step L a text m) r → Rounds m r

  pub Rounds-trans : {m k r : M L} → Rounds m k → Rounds k r → Rounds m r
  Rounds-trans here q = q
  Rounds-trans (round t p) q = round t (Rounds-trans p q)

  -- Within a text.
  pub record Reading (m : M L) : Type 0 where
    pub fine : m.ok ≡ true
    pub mode : m.states (m.level - 1) ≡ read_text
    pub above : 0 < m.level
    pub below : m.level < 31

  abbrev pub moved : M L → ℕ → Dynstr → M L
  moved m n str = record m { i = m.i + n; str = str }

  pub running_lem :
      (m : M L)
      → m.ok ≡ true
      → 0 < m.level
      → m.level < 31
      → m.i < length text
      → running L text m ≡ true
  unfolding running
  running_lem m fine above below h =
      rw (fine, lt→ltb _ _ h, lt→ltb _ _ above, lt→ltb _ _ below) refl

  step-plain :
      (m : M L) (c : ℕ)
      → Reading m
      → get_or text m.i 0 ≡ c
      → (c == b'"') ≡ false
      → (c == b'\\') ≡ false
      → step L a text m ≡ moved m 1 (puts a m.str (c ∷ [])).0
  unfolding step step_mode step_read_text
  step-plain m c r e q s = rw (r.mode, e, q, s) (ap (λ p. moved m 1 p.0) (putc-puts a m.str c))

  step-escaped :
      (m : M L) (c e : ℕ)
      → Reading m
      → get_or text m.i 0 ≡ b'\\'
      → m.i + 1 < length text
      → get_or text (m.i + 1) 0 ≡ e
      → unescaped e ≡ c
      → step L a text m ≡ moved m 2 (puts a m.str (c ∷ [])).0
  unfolding step step_mode step_read_text
  step-escaped m c e r at h next u =
      rw (r.mode, at, lt→ltb _ _ h, next, u) (ap (λ p. moved m 2 p.0) (putc-puts a m.str c))

  piece-Rounds :
      {ps : List (List ℕ)} (m : M L) (c : ℕ) (rest : List ℕ)
      → Piece c ps
      → Reading m
      → drop m.i text ≡ flatten ps ++ rest
      → Rounds m (moved m (length (flatten ps)) (puts a m.str (c ∷ [])).0)
  piece-Rounds m c rest (plain q s) r e =
      let here' = at_lem text rest m.i c e in
      round (running_lem m r.fine r.above r.below here'.1) (
        subst (λ k. Rounds k (moved m 1 (puts a m.str (c ∷ [])).0))
          (sym (step-plain m c r here'.0 q s)) here)
  piece-Rounds m c rest (escaped x u) r e =
      let slash = at_lem text (x ∷ rest) m.i b'\\' e in
      let letter = at_lem text rest (suc m.i) x slash.2 in
      let same : m.i + 1 ≡ suc m.i = omega arith in
      round (running_lem m r.fine r.above r.below slash.1) (
        subst (λ k. Rounds k (moved m 2 (puts a m.str (c ∷ [])).0))
          (sym (step-escaped m c x r slash.0 (omega (arith, letter.1)) (rw same letter.0) u)) here)

  pub string-Rounds :
      (g : Grants a) (value rest : List ℕ) (m : M L)
      → All (λ c. survives c ≡ true) value
      → Reading m
      → IsGood m.str
      → m.str.length + length value ≤ max_length
      → drop m.i text ≡ flatten (all_calls value) ++ rest
      → (str : Dynstr) × Wrote m.str value str
        × Rounds m (moved m (length (flatten (all_calls value))) str)
  string-Rounds g [] rest m all r good h e =
      (m.str, Wrote-nil m.str good, subst (λ k. Rounds m (record m { i = k })) (omega arith) here)
  string-Rounds g (c ∷ cs) rest m all r good h e =
      let code = flatten (string_calls c) in
      let first = puts-Wrote a g m.str (c ∷ []) good (omega arith) in
      let next : M L = moved m (length code) (puts a m.str (c ∷ [])).0 in
      let split = flatten-append (string_calls c) (all_calls cs) in
      let e' : drop m.i text ≡ code ++ (flatten (all_calls cs) ++ rest) =
        e ∙ rw (split, append_assoc) refl in
      let r' : Reading next = record {
        fine = r.fine;
        mode = r.mode;
        above = r.above;
        below = r.below;
      } in
      let (str, wrote, rounds) =
        string-Rounds g cs rest next all.1 r' (Wrote-IsGood first)
          (omega (arith, first.emitted.counts))
          (drop-append text code (flatten (all_calls cs) ++ rest) m.i e') in
      (
        str,
        Wrote-trans (c ∷ []) cs first wrote,
        Rounds-trans
            (piece-Rounds m c (flatten (all_calls cs) ++ rest) (string_calls-Piece c all.0) r e')
            (subst (λ k. Rounds next (record m { i = k; str = str }))
              (omega (arith, ap length split, length-append code (flatten (all_calls cs)))) rounds),
      )
