-- ===== src/Crypto/Cipher/Forgery.antt =====
-- src/80s/crypto.c: `crypto_cipher` refuses a message that does not carry its own signature.
use s.Common.{
  ltb, Bool-cases, length, take, drop, ℕ, ◌+◌, ◌^◌, ◌≤◌, ◌<◌, ◌≡◌, refl, ◌≢◌, inl, inr, Bool, true,
  some, List, [], ◌∷◌, arith,
}
use s.Dynstr.{Dynstr, Allocator, contents, check}
use s.Dynstr.Growth.{IsValid, HasRoom, max_size, contents-check}
use s.Crypto.Engine.{Engine}
use s.Crypto.Cipher.{
  Outcome, Failure, failed, short_key, short_payload, no_context, no_memory, no_init, no_cipher,
  fold_key, needed_size, iv_len, detect_iv, prepare, or_else, bytes_eq, unseal, decrypt,
}

bytes_eq_sound : (xs ys : List ℕ) → bytes_eq xs ys ≡ true → xs ≡ ys
bytes_eq_sound [] [] h = refl
bytes_eq_sound [] (y ∷ ys) h = cc
bytes_eq_sound (x ∷ xs) [] h = cc
bytes_eq_sound (x ∷ xs) (y ∷ ys) h = ground (arith, bytes_eq_sound xs ys)

-- -1 is returned, and the text of the output is as before.
abbrev pub Refused : Dynstr → Dynstr × Outcome → Type 0
Refused out r = (x : Failure) × (r.1 ≡ failed x) × (contents r.0 ≡ contents out)

unseal-Refused :
    (e : Engine) (key payload : List ℕ) (use_iv : Bool) (out : Dynstr)
    → take 32 payload ≢ or_else e.unset_signature (e.hmac key (drop 32 payload))
    → unseal e key use_iv payload out ≡ (out, failed no_cipher)
unfolding unseal
unseal-Refused e key payload use_iv out forged =
    elim (Bool-cases
      (bytes_eq (take 32 payload) (or_else e.unset_signature (e.hmac key (drop 32 payload))))) [
        | inl same ↦ absurd (forged (bytes_eq_sound _ _ same))
        | inr differs ↦ rw differs refl
      ]

prepare-Refused :
    (e : Engine) (a : Allocator) (len : ℕ) (out : Dynstr) (body : Dynstr → Dynstr × Outcome)
    → IsValid out
    → HasRoom out (needed_size len)
    → body (check a out (needed_size len)).0 ≡ ((check a out (needed_size len)).0, failed no_cipher)
    → Refused out (prepare e a len out body)
unfolding prepare
prepare-Refused e a len out body v room refuses =
    let same = contents-check a out (needed_size len) v room in
    elim (Bool-cases e.ctx_new) [
      | inr f ↦ rw f (no_context, refl, refl)
      | inl t ↦ elim (Bool-cases (check a out (needed_size len)).1) [
        | inr f ↦ rw (t, f) (no_memory, refl, same)
        | inl u ↦ elim (Bool-cases e.cipher_init) [
          | inr f ↦ rw (t, u, f) (no_init, refl, same)
          | inl w ↦ rw (t, u, w, refuses) (no_cipher, refl, same)
        ]
      ]
    ]

-- Whatever OpenSSL and the allocator answer, but that `HMAC` works: a payload of less than 2 ^
-- 31 bytes whose first 32 bytes are not the HMAC of the rest under the key is refused, and the
-- output, valid and of at most 2 ^ 62 bytes, keeps its text.
pub decrypt_refuses :
    (e : Engine) (a : Allocator) (payload key mac : List ℕ) (out : Dynstr)
    → IsValid out
    → out.size ≤ max_size
    → length payload < 2 ^ 31
    → e.hmac (fold_key key) (drop 32 payload) ≡ some mac
    → take 32 payload ≢ mac
    → Refused out (decrypt e a payload key out)
unfolding decrypt
decrypt_refuses e a payload key mac out v size small answers forged =
    elim (Bool-cases (ltb (length key) 16)) [
      | inl short ↦ rw short (short_key, refl, refl)
      | inr long ↦ elim (Bool-cases (ltb (length payload) (36 + iv_len (detect_iv payload)))) [
        | inl short ↦ rw (long, short) (short_payload, refl, refl)
        | inr enough ↦
            rw (long, enough)
              (prepare-Refused e a (length payload) out
                (unseal e (fold_key key) (detect_iv payload) payload) v (ground arith)
                (unseal-Refused e (fold_key key) payload (detect_iv payload)
                  (check a out (needed_size (length payload))).0 (rw answers forged)))
      ]
    ]
