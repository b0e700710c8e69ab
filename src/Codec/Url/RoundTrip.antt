-- ===== src/Codec/Url/RoundTrip.antt =====
-- src/80s/lua_codec.c: what `url_encode` writes, `url_decode` reads back.
use s.Common.{
  ◌==◌, if◌then◌else◌, Option-cases, passes_below, passes_at, length, take, drop, length-append,
  take-append, ◌>>=◌, size_mod, ℕ, zero, suc, ◌+◌, ◌*◌, ◌%◌, ◌^◌, ◌≤◌, ◌<◌, ◌≡◌, refl, ap, ◌∙◌, inl,
  inr, Bool, true, false, ◌&&◌, Option, none, some, List, [], ◌∷◌, ◌++◌, arith,
}
use s.Dynstr.{Allocator, check, init}
use s.Dynstr.Growth.{Grants, check-granted}
use s.Codec.Lua.{text, pushed, AreBytes}
use s.Codec.Hex.{hex_pair}
use s.Codec.Url.{
  upper_digits, is_unreserved, lut_entry, encode_byte, url_fill, url_encode, decode_percent,
  decode_step, decode_from, url_unfill, url_decode,
}

-- The reader takes the bytes for `c`, and skips two more.
reads : Option (ℕ × ℕ) → ℕ → Bool
reads none c = false
reads (some (v, skip)) c = v == c && skip == 2

reads-eq : (o : Option (ℕ × ℕ)) (c : ℕ) → reads o c ≡ true → o ≡ some (c, 2)
unfolding reads
reads-eq none c h = cc
reads-eq (some (v, skip)) c h = ground arith

escape_table :
    passes_below (λ c. reads (decode_percent (b'%' ∷ hex_pair upper_digits c)) c) 256 ≡ true
unfolding passes_below decode_percent reads
escape_table = refl

percent-reads :
    (c : ℕ) (cs : List ℕ)
    → c < 256
    → decode_percent (b'%' ∷ (hex_pair upper_digits c ++ cs)) ≡ some (c, 2)
unfolding decode_percent
percent-reads c cs h = reads-eq _ c (passes_at _ 256 c escape_table h)

step-escape :
    (len c : ℕ) (cs : List ℕ)
    → c < 256
    → 3 + length cs ≤ len
    → len < size_mod
    → decode_step len b'%' (b'%' ∷ (hex_pair upper_digits c ++ cs)) ≡ some (c, 2)
unfolding decode_step
step-escape len c cs h k w = ground (arith, percent-reads c cs h)

step-keep :
    (len c : ℕ) (cs : List ℕ) → is_unreserved c ≡ true → decode_step len c (c ∷ cs) ≡ some (c, 0)
unfolding decode_step is_unreserved
step-keep len c cs h = ground arith

decode_from-step :
    (fuel len c v skip : ℕ) (cs out : List ℕ)
    → decode_step len c (c ∷ cs) ≡ some (v, skip)
    → decode_from fuel len (drop skip cs) ≡ some out
    → decode_from (suc fuel) len (c ∷ cs) ≡ some (v ∷ out)
unfolding decode_from
decode_from-step fuel len c v skip cs out e h = rw (e, ◌>>=◌) (rw h)

encode_byte-inv :
    (signed : Bool) (c : ℕ) (p : List ℕ)
    → encode_byte signed c ≡ some p
    → p ≡ (if is_unreserved c then c ∷ [] else b'%' ∷ hex_pair upper_digits c)
unfolding encode_byte lut_entry
encode_byte-inv signed c p e = ground arith

url_fill-cons :
    (signed : Bool) (c : ℕ) (cs out : List ℕ)
    → url_fill signed (c ∷ cs) ≡ some out
    → (p : List ℕ) × (rest : List ℕ) × (encode_byte signed c ≡ some p)
      × (url_fill signed cs ≡ some rest)
      × (out ≡ p ++ rest)
unfolding url_fill
url_fill-cons signed c cs out h = ground arith

-- One written piece, in front of a text that is read whatever the fuel.
decode_piece :
    (keep : Bool) (fuel len c : ℕ) (rest cs : List ℕ)
    → is_unreserved c ≡ keep
    → c < 256
    → length ((if keep then c ∷ [] else b'%' ∷ hex_pair upper_digits c) ++ rest) ≤ fuel
    → length ((if keep then c ∷ [] else b'%' ∷ hex_pair upper_digits c) ++ rest) ≤ len
    → len < size_mod
    → ((k : ℕ) → length rest ≤ k → decode_from k len rest ≡ some cs)
    → decode_from fuel len ((if keep then c ∷ [] else b'%' ∷ hex_pair upper_digits c) ++ rest)
      ≡ some (c ∷ cs)
decode_piece true zero len c rest cs e h f l w ih = absurd (omega arith)
decode_piece false zero len c rest cs e h f l w ih = absurd (omega arith)
decode_piece true (suc fuel) len c rest cs e h f l w ih =
    decode_from-step fuel len c c 0 rest cs (step-keep len c rest e) (ih fuel (omega arith))
decode_piece false (suc fuel) len c rest cs e h f l w ih =
    decode_from-step fuel len b'%' c 2 (hex_pair upper_digits c ++ rest) cs
      (step-escape len c rest h (omega arith) w) (ih fuel (omega arith))

url_fill-nil : (signed : Bool) (out : List ℕ) → url_fill signed [] ≡ some out → out ≡ []
unfolding url_fill
url_fill-nil signed out e = cc

-- What the reader makes of a written text, from any position.
decode-fill :
    (signed : Bool) (bytes out : List ℕ) (len : ℕ)
    → AreBytes bytes
    → url_fill signed bytes ≡ some out
    → length out ≤ len
    → len < size_mod
    → (fuel : ℕ) → length out ≤ fuel
    → decode_from fuel len out ≡ some bytes
decode-fill signed [] out len b e l w fuel f =
    rw (url_fill-nil signed out e) (unfold decode_from in refl)
decode-fill signed (c ∷ cs) out len b e l w fuel f =
    let (p, rest, ep, er, eo) = url_fill-cons signed c cs out e in
    let shape = eo ∙ ap (λ t. t ++ rest) (encode_byte-inv signed c p ep) in
    let f' = rw shape at f in
    let l' = rw shape at l in
    rw shape (
      decode_piece (is_unreserved c) fuel len c rest cs refl b.0 f' l' w (
        decode-fill signed cs rest len b.1 er (omega (arith, ap length eo, length-append p rest))
          w))

length-encode_byte :
    (signed : Bool) (c : ℕ) (p : List ℕ) → encode_byte signed c ≡ some p → length p ≤ 3
length-encode_byte signed c p e = ground (arith, encode_byte-inv signed c p e)

-- The written text takes at most three bytes for one.
pub length-url_fill :
    (signed : Bool) (bytes out : List ℕ)
    → url_fill signed bytes ≡ some out
    → length out ≤ 3 * length bytes
length-url_fill signed [] out e = omega (arith, ap length (url_fill-nil signed out e))
length-url_fill signed (c ∷ cs) out e =
    let (p, rest, ep, er, eo) = url_fill-cons signed c cs out e in
    omega (
      arith,
      ap length eo,
      length-append p rest,
      length-encode_byte signed c p ep,
      length-url_fill signed cs rest er,
    )

push_filled : (xs : List ℕ) → take (length xs) (xs ++ drop (0 + length xs) []) ≡ xs
push_filled xs = take-append (length xs) xs (drop (0 + length xs) []) refl

ptr-check : (a : Allocator) (n : ℕ) → (check a (init true 2048) n).0.ptr ≡ []
unfolding check init
ptr-check a n = ground arith

pub url_encode-granted :
    (signed : Bool) (a : Allocator) (bytes : List ℕ)
    → Grants a
    → url_encode signed a (text bytes ∷ [])
      ≡ (url_fill signed bytes >>= λ filled. some (pushed filled))
unfolding url_encode
url_encode-granted signed a bytes g = elim (Option-cases (url_fill signed bytes)) [
  | inl e ↦ rw (check-granted a (init true 2048) (length bytes * 3 % size_mod) g, e) refl
  | inr (filled, e) ↦
      rw
        (
          check-granted a (init true 2048) (length bytes * 3 % size_mod) g,
          e,
          ptr-check a (length bytes * 3 % size_mod),
        )
        (ap (λ t. some (pushed t)) (push_filled filled))
]

pub url_decode-granted :
    (a : Allocator) (bytes out : List ℕ)
    → Grants a
    → url_unfill bytes ≡ some out
    → url_decode a (text bytes ∷ []) ≡ some (pushed out)
unfolding url_decode
url_decode-granted a bytes out g e =
    rw (check-granted a (init true 2048) (length bytes) g, e, ptr-check a (length bytes))
      (ap (λ t. some (pushed t)) (push_filled out))

-- Where memory is granted: what `url_encode` returns, `url_decode` turns back into the input,
-- byte for byte, for inputs of up to 2 ^ 62 bytes.
pub url_round_trip :
    (signed : Bool) (a : Allocator) (bytes out : List ℕ)
    → Grants a
    → AreBytes bytes
    → length bytes ≤ 2 ^ 62
    → url_encode signed a (text bytes ∷ []) ≡ some (pushed out)
    → url_decode a (text out ∷ []) ≡ some (pushed bytes)
url_round_trip signed a bytes out g b small e = url_decode-granted a out bytes g (
    unfold url_unfill in
    decode-fill signed bytes out (length out) b filled (omega arith)
      (omega (arith, length-url_fill signed bytes out filled)) (length out) (omega arith))
  where
    filled : url_fill signed bytes ≡ some out
    filled = ground (arith, url_encode-granted signed a bytes g)
