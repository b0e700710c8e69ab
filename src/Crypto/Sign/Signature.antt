-- ===== src/Crypto/Sign/Signature.antt =====
-- src/80s/crypto.c: a signature that is made lies in the output's storage.
use s.Common.{
  Bool-cases, Option-cases, length, drop, length-append, ℕ, ◌+◌, ◌≤◌, ◌<◌, ◌≡◌, inl, inr, Bool,
  false, some, List, arith,
}
use s.Dynstr.{Dynstr, Allocator, check}
use s.Dynstr.Growth.{IsValid, HasRoom, check-room}
use s.Crypto.Library.{Library, Digest, sha256, md_ctx_new, sign_init, sign_update}
use s.Crypto.Sign.{ok, put_signature, sign_steps, sign_with, sign_given, rsa_sha256_with_key}

module _ (L : Library) where
  open L use {State, make, call, sign_final, key_size}

  -- The output holds a signature of at most so many bytes, within its storage.
  pub record Holds (limit : ℕ) (out : Dynstr) : Type 0 where
    pub valid : IsValid out
    pub short : out.length ≤ limit

  put_signature-Holds :
      (limit : ℕ) (out : Dynstr) (sig : List ℕ)
      → length sig ≤ limit
      → limit < out.size
      → Holds limit (put_signature L out sig)
  put_signature-Holds limit out sig le lt = record {
    valid = record {
      written = omega (arith, length-append sig (drop (0 + length sig) out.ptr));
      fits = omega arith;
    };
    short = le;
  }

  sign_steps-Holds :
      (own : Bool) (digest : Digest) (key ctx : ℕ) (text : List ℕ) (out : Dynstr) (s : State)
      → key_size key < out.size
      → (sign_steps L own digest key ctx text out s).0.0 ≡ ok
      → Holds (key_size key) (sign_steps L own digest key ctx text out s).0.1
  unfolding sign_steps
  sign_steps-Holds own digest key ctx text out s lt =
      let begun = call (sign_init digest key) ctx s in
      let fed = call (sign_update text) ctx begun.1 in
      let ended = sign_final ctx (key_size key) fed.1 in
      elim (Bool-cases begun.0) [
        | inr p ↦ rw p (λ e. cc)
        | inl p ↦ elim (Bool-cases fed.0) [
          | inr q ↦ rw (p, q) (λ e. cc)
          | inl q ↦ elim (Option-cases ended.0) [
            | inl r ↦ rw (p, q, r) (λ e. cc)
            | inr (sig, r) ↦
                rw (p, q, r)
                  (λ e.
                    put_signature-Holds (key_size key) out sig
                      (L.length-sign_final ctx (key_size key) fed.1 sig r) lt)
          ]
        ]
      ]

  sign_with-Holds :
      (own : Bool) (digest : Digest) (key : ℕ) (text : List ℕ) (a : Allocator) (out : Dynstr)
      (s : State)
      → IsValid out
      → HasRoom out (key_size key)
      → (sign_with L own digest key text a out s).0.0 ≡ ok
      → Holds (key_size key) (sign_with L own digest key text a out s).0.1
  unfolding sign_with
  sign_with-Holds own digest key text a out s v room =
      elim (Bool-cases (check a out (key_size key)).1) [
        | inr p ↦ rw p (λ e. cc)
        | inl p ↦ elim (Option-cases (make md_ctx_new s).0) [
          | inl q ↦ rw (p, q) (λ e. cc)
          | inr (ctx, q) ↦
              rw (p, q)
                (sign_steps-Holds own digest key ctx text (check a out (key_size key)).0
                  (make md_ctx_new s).1 (omega (arith, check-room a out (key_size key) v room p)))
        ]
      ]

  -- Where signing with a given key returns 0, the output holds a signature of at most the key's
  -- size, and it lies within the output's storage; for an output that is valid and a size that
  -- does not wrap.
  pub signature_fits :
      (key : ℕ) (text : List ℕ) (a : Allocator) (out : Dynstr) (s : State)
      → IsValid out
      → HasRoom out (key_size key)
      → (rsa_sha256_with_key L (some key) text a out s).0.0 ≡ ok
      → Holds (key_size key) (rsa_sha256_with_key L (some key) text a out s).0.1
  unfolding rsa_sha256_with_key sign_given
  signature_fits key text a out s = sign_with-Holds false sha256 key text a out s
