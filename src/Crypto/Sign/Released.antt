-- ===== src/Crypto/Sign/Released.antt =====
-- src/80s/crypto.c: signing and verifying free every object that they make.
use s.Common.{
  if◌then◌else◌, Bool-cases, Option-cases, ℕ, ◌+◌, ◌≡◌, refl, inl, inr, Bool, true, false, Option,
  none, some, List, arith,
}
use s.Dynstr.{Dynstr, Allocator, check}
use s.Crypto.Library.{
  Library, Kind, pkey, md_ctx, Digest, sha1, sha256, md_ctx_new, sign_init, sign_update,
  verify_init, verify_update, verify_final, same,
}
use s.Crypto.Balance.{
  Extra, Extra-none, make_none-Extra, make_some-Extra, free-Extra, call-Extra, sign_final-Extra,
}
use s.Crypto.Keys.{Loaded, Reason, loaded, private_key_new}
use s.Crypto.Keys.Balanced.{Balance, keys-Balance}
use s.Crypto.Sign.{
  drop_key, clean_up, sign_steps, sign_with, sign_loaded, sign_file, sign_given, rsa_sha1,
  rsa_sha256, rsa_sha1_with_key, rsa_sha256_with_key, verify_steps, verify_given,
  rsa_sha1_verify_with_key, rsa_sha256_verify_with_key,
}

module _ (L : Library) where
  open L use {State, live, make, free, call, sign_final, key_size}

  -- The key that the function owns.
  abbrev owned : Bool → Kind → ℕ
  owned own k = if own then same k pkey else 0

  drop_key-Extra :
      {s0 s : State} (f g : Kind → ℕ) (own : Bool) (key : ℕ)
      → Extra L s0 f s
      → ((k : Kind) → f k ≡ g k + owned own k)
      → Extra L s0 g (drop_key L own key s)
  drop_key-Extra f g true key h e = free-Extra L f h g pkey key e
  drop_key-Extra {s0} {s} f g false key h e = record {
    counts = λ k. omega (arith, h.counts k, e k);
  }

  clean_up-Extra :
      {s0 s : State} (f : Kind → ℕ) (own : Bool) (key ctx : ℕ)
      → Extra L s0 f s
      → ((k : Kind) → f k ≡ owned own k + same k md_ctx)
      → Extra L s0 (λ k. 0) (clean_up L own key ctx s)
  clean_up-Extra f own key ctx h e =
      free-Extra L (λ k. same k md_ctx)
        (drop_key-Extra f (λ k. same k md_ctx) own key h (λ k. omega (arith, e k))) (λ k. 0) md_ctx
        ctx (λ k. omega arith)

  sign_steps-Extra :
      {s0 s : State} (f : Kind → ℕ) (own : Bool) (digest : Digest) (key ctx : ℕ) (text : List ℕ)
      (out : Dynstr)
      → Extra L s0 f s
      → ((k : Kind) → f k ≡ owned own k + same k md_ctx)
      → Extra L s0 (λ k. 0) (sign_steps L own digest key ctx text out s).1
  unfolding sign_steps
  sign_steps-Extra {s0} {s} f own digest key ctx text out h e =
      let begun = call (sign_init digest key) ctx s in
      let b = call-Extra L f h (sign_init digest key) ctx in
      let fed = call (sign_update text) ctx begun.1 in
      let u = call-Extra L f b (sign_update text) ctx in
      let ended = sign_final ctx (key_size key) fed.1 in
      let w = sign_final-Extra L f u ctx (key_size key) in
      elim (Bool-cases begun.0) [
        | inr p ↦ rw p (clean_up-Extra f own key ctx b e)
        | inl p ↦ elim (Bool-cases fed.0) [
          | inr q ↦ rw (p, q) (clean_up-Extra f own key ctx u e)
          | inl q ↦ elim (Option-cases ended.0) [
            | inl r ↦ rw (p, q, r) (clean_up-Extra f own key ctx w e)
            | inr (sig, r) ↦ rw (p, q, r) (clean_up-Extra f own key ctx w e)
          ]
        ]
      ]

  sign_with-Extra :
      {s0 s : State} (own : Bool) (digest : Digest) (key : ℕ) (text : List ℕ) (a : Allocator)
      (out : Dynstr)
      → Extra L s0 (owned own) s
      → Extra L s0 (λ k. 0) (sign_with L own digest key text a out s).1
  unfolding sign_with
  sign_with-Extra {s0} {s} own digest key text a out h =
      elim (Bool-cases (check a out (key_size key)).1) [
        | inr p ↦ rw p (drop_key-Extra (owned own) (λ k. 0) own key h (λ k. omega arith))
        | inl p ↦ elim (Option-cases (make md_ctx_new s).0) [
          | inl q ↦
              rw (p, q)
                (drop_key-Extra (owned own) (λ k. 0) own key
                  (make_none-Extra L (owned own) h md_ctx_new q) (λ k. omega arith))
          | inr (ctx, q) ↦
              rw (p, q)
                (sign_steps-Extra _ own digest key ctx text (check a out (key_size key)).0
                  (make_some-Extra L (owned own) h md_ctx_new ctx q) (λ k. refl))
        ]
      ]

  sign_loaded-Extra :
      {s0 : State} (digest : Digest) (r : Loaded × State) (text : List ℕ) (a : Allocator)
      (out : Dynstr)
      → Balance L s0 r
      → Extra L s0 (λ k. 0) (sign_loaded L digest r text a out).1
  unfolding sign_loaded
  sign_loaded-Extra digest (loaded key, s) text a out h =
      sign_with-Extra true digest key text a out h
  sign_loaded-Extra digest (Loaded.failed Reason.no_key, s) text a out h = h
  sign_loaded-Extra digest (Loaded.failed Reason.no_file, s) text a out h = h
  sign_loaded-Extra digest (Loaded.failed Reason.no_bio, s) text a out h = h

  sign_file-Extra :
      (digest : Digest) (path text : List ℕ) (a : Allocator) (out : Dynstr) (s : State)
      → Extra L s (λ k. 0) (sign_file L digest path text a out s).1
  unfolding sign_file
  sign_file-Extra digest path text a out s =
      sign_loaded-Extra digest (private_key_new L path s) text a out (keys-Balance L path s).0

  sign_given-Extra :
      (digest : Digest) (key : Option ℕ) (text : List ℕ) (a : Allocator) (out : Dynstr) (s : State)
      → Extra L s (λ k. 0) (sign_given L digest key text a out s).1
  unfolding sign_given
  sign_given-Extra digest none text a out s = Extra-none L s
  sign_given-Extra digest (some key) text a out s =
      sign_with-Extra false digest key text a out (Extra-none L s)

  verify_steps-Extra :
      {s0 s : State} (f : Kind → ℕ) (digest : Digest) (key ctx : ℕ) (text sig : List ℕ)
      → Extra L s0 f s
      → ((k : Kind) → f k ≡ 0 + same k md_ctx)
      → Extra L s0 (λ k. 0) (verify_steps L digest key ctx text sig s).1
  unfolding verify_steps
  verify_steps-Extra {s0} {s} f digest key ctx text sig h e =
      let begun = call (verify_init digest key) ctx s in
      let b = call-Extra L f h (verify_init digest key) ctx in
      let fed = call (verify_update text) ctx begun.1 in
      let u = call-Extra L f b (verify_update text) ctx in
      let ended = call (verify_final sig) ctx fed.1 in
      let w = call-Extra L f u (verify_final sig) ctx in
      elim (Bool-cases begun.0) [
        | inr p ↦ rw p (free-Extra L f b (λ k. 0) md_ctx ctx e)
        | inl p ↦ elim (Bool-cases fed.0) [
          | inr q ↦ rw (p, q) (free-Extra L f u (λ k. 0) md_ctx ctx e)
          | inl q ↦ elim (Bool-cases ended.0) [
            | inr r ↦ rw (p, q, r) (free-Extra L f w (λ k. 0) md_ctx ctx e)
            | inl r ↦ rw (p, q, r) (free-Extra L f w (λ k. 0) md_ctx ctx e)
          ]
        ]
      ]

  verify_given-Extra :
      (digest : Digest) (key : Option ℕ) (text sig : List ℕ) (s : State)
      → Extra L s (λ k. 0) (verify_given L digest key text sig s).1
  unfolding verify_given
  verify_given-Extra digest none text sig s = Extra-none L s
  verify_given-Extra digest (some key) text sig s = elim (Option-cases (make md_ctx_new s).0) [
    | inl q ↦ rw (q, verify_given) (make_none-Extra L (λ k. 0) (Extra-none L s) md_ctx_new q)
    | inr (ctx, q) ↦
        rw (q, verify_given)
          (verify_steps-Extra _ digest key ctx text sig
            (make_some-Extra L (λ k. 0) (Extra-none L s) md_ctx_new ctx q) (λ k. refl))
  ]

  -- Whatever OpenSSL and the allocator answer at each step, signing with a key file, signing with
  -- a key of the caller's and verifying leave as many live objects of each kind as there were.
  pub signing_releases :
      (path text sig : List ℕ) (key : Option ℕ) (a : Allocator) (out : Dynstr) (s : State)
      → Extra L s (λ k. 0) (rsa_sha1 L path text a out s).1
        × Extra L s (λ k. 0) (rsa_sha256 L path text a out s).1
        × Extra L s (λ k. 0) (rsa_sha1_with_key L key text a out s).1
        × Extra L s (λ k. 0) (rsa_sha256_with_key L key text a out s).1
        × Extra L s (λ k. 0) (rsa_sha1_verify_with_key L key text sig s).1
        × Extra L s (λ k. 0) (rsa_sha256_verify_with_key L key text sig s).1
  unfolding rsa_sha1 rsa_sha256 rsa_sha1_with_key rsa_sha256_with_key rsa_sha1_verify_with_key
      rsa_sha256_verify_with_key
  signing_releases path text sig key a out s = (
    sign_file-Extra sha1 path text a out s,
    sign_file-Extra sha256 path text a out s,
    sign_given-Extra sha1 key text a out s,
    sign_given-Extra sha256 key text a out s,
    verify_given-Extra sha1 key text sig s,
    verify_given-Extra sha256 key text sig s,
  )
