-- ===== src/Crypto/Sign.antt =====
-- src/80s/crypto.c: RSA signatures, made and verified.
pub mod Released
pub mod Signature
use s.Common.{if◌then◌else◌, length, ℕ, Bool, true, false, not, Option, none, some, List}
use s.Dynstr.{Dynstr, Allocator, write_at, check}
use s.Crypto.Cipher.{garbled}
use s.Crypto.Library.{
  Library, pkey, md_ctx, Digest, sha1, sha256, md_ctx_new, sign_init, sign_update, verify_init,
  verify_update, verify_final,
}
use s.Crypto.Keys.{Loaded, Reason, loaded, private_key_new}
use s.Crypto.Keys

-- 0, or -1 with the message of a step.
pub data Status : Type 0 where
  ok no_file no_key no_memory no_context bad_init bad_update bad_final : Status

module _ (L : Library) where
  open L use {State, make, free, call, sign_final, key_size}

  -- A key that the function has read itself is freed, the caller's is not.
  abbrev pub drop_key : Bool → ℕ → State → State
  drop_key own key s = if own then free pkey key s else s

  abbrev pub clean_up : Bool → ℕ → ℕ → State → State
  clean_up own key ctx s = free md_ctx ctx (drop_key own key s)

  -- The signature stands at the front of the storage, and is the output's text.
  abbrev pub put_signature : Dynstr → List ℕ → Dynstr
  put_signature out sig = record out { ptr = write_at out.ptr 0 sig; length = length sig }

  -- Initialisation, update and finalisation. A failed finalisation may have written to the storage.
  unfoldable pub sign_steps :
      Bool → Digest → ℕ → ℕ → List ℕ → Dynstr → State → (Status × Dynstr) × State
  sign_steps own digest key ctx text out s =
      let begun = call (sign_init digest key) ctx s in
      let fed = call (sign_update text) ctx begun.1 in
      let ended = sign_final ctx (key_size key) fed.1 in
      if not begun.0
      then ((bad_init, out), clean_up own key ctx begun.1)
      else if not fed.0
      then ((bad_update, out), clean_up own key ctx fed.1)
      else elim (ended.0) [
        | none ↦ ((bad_final, garbled out), clean_up own key ctx ended.1)
        | some sig ↦ ((ok, put_signature out sig), clean_up own key ctx ended.1)
      ]

  -- From the key on: the storage, the context, the steps.
  unfoldable pub sign_with :
      Bool → Digest → ℕ → List ℕ → Allocator → Dynstr → State → (Status × Dynstr) × State
  unfolding sign_steps
  sign_with own digest key text a out s =
      let (out', room) = check a out (key_size key) in
      let made = make md_ctx_new s in
      if not room then ((no_memory, out'), drop_key own key s) else elim (made.0) [
        | none ↦ ((no_context, out'), drop_key own key made.1)
        | some ctx ↦ sign_steps own digest key ctx text out' made.1
      ]

  unfoldable pub sign_loaded :
      Digest → Loaded × State → List ℕ → Allocator → Dynstr → (Status × Dynstr) × State
  sign_loaded digest (loaded key, s) text a out = sign_with true digest key text a out s
  sign_loaded digest (Loaded.failed Reason.no_key, s) text a out = ((no_key, out), s)
  sign_loaded digest (Loaded.failed _, s) text a out = ((no_file, out), s)

  -- The key is read as by `crypto_private_key_new`.
  unfoldable pub sign_file :
      Digest → List ℕ → List ℕ → Allocator → Dynstr → State → (Status × Dynstr) × State
  unfolding sign_loaded
  sign_file digest path text a out s = sign_loaded digest (private_key_new L path s) text a out

  unfoldable pub rsa_sha1 : List ℕ → List ℕ → Allocator → Dynstr → State → (Status × Dynstr) × State
  rsa_sha1 = sign_file sha1

  unfoldable pub rsa_sha256 :
      List ℕ → List ℕ → Allocator → Dynstr → State → (Status × Dynstr) × State
  rsa_sha256 = sign_file sha256

  -- With a key of the caller's, none for null.
  unfoldable pub sign_given :
      Digest → Option ℕ → List ℕ → Allocator → Dynstr → State → (Status × Dynstr) × State
  sign_given digest none text a out s = ((no_key, out), s)
  sign_given digest (some key) text a out s = sign_with false digest key text a out s

  unfoldable pub rsa_sha1_with_key :
      Option ℕ → List ℕ → Allocator → Dynstr → State → (Status × Dynstr) × State
  rsa_sha1_with_key = sign_given sha1

  unfoldable pub rsa_sha256_with_key :
      Option ℕ → List ℕ → Allocator → Dynstr → State → (Status × Dynstr) × State
  rsa_sha256_with_key = sign_given sha256

  unfoldable pub verify_steps : Digest → ℕ → ℕ → List ℕ → List ℕ → State → Status × State
  verify_steps digest key ctx text sig s =
      let begun = call (verify_init digest key) ctx s in
      let fed = call (verify_update text) ctx begun.1 in
      let ended = call (verify_final sig) ctx fed.1 in
      if not begun.0
      then (bad_init, free md_ctx ctx begun.1)
      else if not fed.0
      then (bad_update, free md_ctx ctx fed.1)
      else if not ended.0
      then (bad_final, free md_ctx ctx ended.1)
      else (ok, free md_ctx ctx ended.1)

  unfoldable pub verify_given : Digest → Option ℕ → List ℕ → List ℕ → State → Status × State
  unfolding verify_steps
  verify_given digest none text sig s = (no_key, s)
  verify_given digest (some key) text sig s =
      let made = make md_ctx_new s in
      elim (made.0) [
        | none ↦ (no_context, made.1)
        | some ctx ↦ verify_steps digest key ctx text sig made.1
      ]

  unfoldable pub rsa_sha1_verify_with_key : Option ℕ → List ℕ → List ℕ → State → Status × State
  rsa_sha1_verify_with_key = verify_given sha1

  unfoldable pub rsa_sha256_verify_with_key : Option ℕ → List ℕ → List ℕ → State → Status × State
  rsa_sha256_verify_with_key = verify_given sha256
