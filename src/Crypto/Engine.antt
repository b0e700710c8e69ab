-- ===== src/Crypto/Engine.antt =====
-- OpenSSL as src/80s/crypto.c uses it to encrypt and to sign a message: code that is not under
-- src/.
use s.Common.{length, ℕ, ◌+◌, ◌*◌, ◌/◌, ◌≡◌, Bool, Option, some, List}

-- AES-128 in CBC mode with padding, HMAC with SHA-256. A call may fail; where it does not, what it
-- returns is a function of its arguments.
pub record Engine : Type 0 where
  -- `EVP_CIPHER_CTX_new` and `EVP_CipherInit`
  pub ctx_new : Bool
  pub cipher_init : Bool
  -- `EVP_CipherUpdate` and `EVP_CipherFinal_ex` for a key, an IV and a text
  pub run_encrypt : List ℕ → List ℕ → List ℕ → Option (List ℕ)
  pub run_decrypt : List ℕ → List ℕ → List ℕ → Option (List ℕ)
  -- `HMAC`, none where it answers null and writes nothing
  pub hmac : List ℕ → List ℕ → Option (List ℕ)
  -- What stands where a failed `HMAC` was to write: in the array `signature`, and in the output.
  pub unset_signature : List ℕ
  pub unset_output : List ℕ

-- What OpenSSL documents: a padded text is a whole number of blocks, at least one byte longer than
-- the text, and is read back with the same key and IV; the code has 32 bytes.
pub record IsFaithful (e : Engine) : Type 0 where
  pub length-run_encrypt :
      (k iv x c : List ℕ) → e.run_encrypt k iv x ≡ some c → length c ≡ (length x / 16 + 1) * 16
  pub run_decrypt-run_encrypt :
      (k iv x c : List ℕ) → e.run_encrypt k iv x ≡ some c → e.run_decrypt k iv c ≡ some x
  pub length-hmac : (k x m : List ℕ) → e.hmac k x ≡ some m → length m ≡ 32
