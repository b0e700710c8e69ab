-- ===== src/Codec/Url/Bounds.antt =====
-- src/80s/lua_codec.c: which memory the URL codecs read and write.
use Prim.Native.Nat.{bit_or}
use s.Common.{
  leb, ◌==◌, if◌then◌else◌, Bool-cases, length, get_elem?, drop, ◌>>=◌, sub_size, ℕ, zero, suc, ◌-◌,
  ◌*◌, ◌≤◌, ◌<◌, ◌≡◌, refl, ◌↔◌, inl, inr, Bool, true, false, ◌||◌, Option, none, some, List, [],
  ◌∷◌, arith,
}
use s.Dynstr.{Allocator}
use s.Dynstr.Growth.{Grants}
use s.Codec.Lua.{text}
use s.Codec.Url.{
  lut_entry, encode_byte, url_fill, url_encode, lut, is_hex, unhex_pair, second_digit,
  decode_percent, decode_step, decode_from, url_unfill,
}
use s.Codec.Url.RoundTrip.{url_encode-granted}

-- Some byte is 128 or more.
abbrev pub has_high : List ℕ → Bool
has_high [] = false
has_high (c ∷ cs) = leb 128 c || has_high cs

url_fill-none : (bytes : List ℕ) → (url_fill true bytes ≡ none) ↔ (has_high bytes ≡ true)
unfolding url_fill encode_byte lut_entry
url_fill-none [] = (λ h. cc, λ h. cc)
url_fill-none (c ∷ cs) = ground (arith, url_fill-none cs)

-- Where `char` is signed and memory is granted, `url_encode` reads outside `url_encode_lut` exactly
-- when the input has a byte from 128 on.
pub url_encode_faults :
    (a : Allocator) (bytes : List ℕ)
    → Grants a
    → (url_encode true a (text bytes ∷ []) ≡ none) ↔ (has_high bytes ≡ true)
url_encode_faults a bytes g = ground (arith, url_encode-granted true a bytes g, url_fill-none bytes)

get_elem?-some {ℓ} :
    {A : Type ℓ} (xs : List A) (i : ℕ) → i < length xs → (x : A) × (get_elem? xs i ≡ some x)
get_elem?-some [] i h = absurd (omega arith)
get_elem?-some (x ∷ xs) zero h = (x, refl)
get_elem?-some (x ∷ xs) (suc i) h = get_elem?-some xs i (omega arith)

-- `lut` covers the hexadecimal digits.
digit-in_lut : (c : ℕ) → is_hex c ≡ true → c - b'0' < length lut
digit-in_lut c h = ground arith

unhex_pair-some :
    (x y : ℕ) → is_hex x ≡ true → is_hex y ≡ true → (v : ℕ) × (unhex_pair x y ≡ some v)
unfolding unhex_pair
unhex_pair-some x y hx hy =
    let (hi, ex) = get_elem?-some lut (x - b'0') (digit-in_lut x hx) in
    let (lo, ey) = get_elem?-some lut (y - b'0') (digit-in_lut y hy) in
    (bit_or (hi * 16) lo, rw (ex, ◌>>=◌) (rw ey))

-- A step that stays inside the string.
abbrev Reads : Option (ℕ × ℕ) → Type 0
Reads o = (r : ℕ × ℕ) × (o ≡ some r)

second_digit-some : (x c : ℕ) (cs : List ℕ) → is_hex x ≡ true → Reads (second_digit x (c ∷ x ∷ cs))
unfolding second_digit
second_digit-some x c [] h = ((b'%', 0), refl)
second_digit-some x c (y ∷ cs) h = elim (Bool-cases (is_hex y)) [
  | inl hy ↦ let (v, e) = unhex_pair-some x y h hy in ((v, 2), rw hy (rw e))
  | inr hy ↦ ((b'%', 0), rw hy)
]

decode_percent-some : (c : ℕ) (cs : List ℕ) → Reads (decode_percent (c ∷ cs))
unfolding decode_percent
decode_percent-some c [] = ((b'%', 0), refl)
decode_percent-some c (x ∷ cs) = elim (Bool-cases (is_hex x)) [
  | inl hx ↦ let (r, e) = second_digit-some x c cs hx in (r, rw hx e)
  | inr hx ↦ ((b'%', 0), rw hx)
]

Reads-if : (b : Bool) (x y : Option (ℕ × ℕ)) → Reads x → Reads y → Reads (if b then x else y)
Reads-if true x y p q = p
Reads-if false x y p q = q

decode_step-some : (len c : ℕ) (cs : List ℕ) → Reads (decode_step len c (c ∷ cs))
unfolding decode_step
decode_step-some len c cs =
    Reads-if (leb (len - length (c ∷ cs)) (sub_size len 3)) _ _
      (Reads-if (c == b'+') _ _ ((b' ', 0), refl)
        (Reads-if (c == b'%') _ _ (decode_percent-some c cs) ((c, 0), refl)))
      ((if c == b'+' then b' ' else c, 0), refl)

length-drop : (n : ℕ) (xs : List ℕ) → length (drop n xs) ≤ length xs
length-drop zero xs = omega arith
length-drop (suc n) [] = omega arith
length-drop (suc n) (x ∷ xs) = omega (arith, length-drop n xs)

decode_from-some :
    (fuel len : ℕ) (cs : List ℕ)
    → length cs ≤ fuel
    → (out : List ℕ) × (decode_from fuel len cs ≡ some out) × (length out ≤ length cs)
unfolding decode_from
decode_from-some fuel len [] h = ([], refl, omega arith)
decode_from-some zero len (c ∷ cs) h = absurd (omega arith)
decode_from-some (suc fuel) len (c ∷ cs) h =
    let (r, e) = decode_step-some len c cs in
    let (out, e', l) =
      decode_from-some fuel len (drop r.1 cs) (omega (arith, length-drop r.1 cs)) in
    (r.0 ∷ out, rw (e, ◌>>=◌) (rw e'), omega (arith, length-drop r.1 cs))

-- On every input `url_decode`'s loop ends, reads no byte past the NUL behind the string and no
-- entry outside `lut`, and stores no more bytes than the input has.
pub url_unfill-total :
    (bytes : List ℕ) → (out : List ℕ) × (url_unfill bytes ≡ some out) × (length out ≤ length bytes)
unfolding url_unfill
url_unfill-total bytes = decode_from-some (length bytes) (length bytes) bytes (omega arith)
