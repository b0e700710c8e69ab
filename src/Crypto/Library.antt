-- ===== src/Crypto/Library.antt =====
-- The calls of OpenSSL and stdio that src/80s/crypto.c makes for keys, signatures and TLS
-- contexts, as an interface: code that is not under src/.
use s.Common.{length, ℕ, ◌+◌, ◌≤◌, ◌<◌, ◌≡◌, Bool, Option, none, some, List}

pub data Kind : Type 0 where
  file bio pkey md_ctx ssl_ctx : Kind

-- 1 where the two are the same.
abbrev pub same : Kind → Kind → ℕ
same file file = 1
same bio bio = 1
same pkey pkey = 1
same md_ctx md_ctx = 1
same ssl_ctx ssl_ctx = 1
same _ _ = 0

pub data Digest : Type 0 where
  sha1 sha256 : Digest

-- The calls that make an object, or return null.
pub data Maker : Type 0 where
  fopen bio_new_mem_buf : List ℕ → Maker
  pem_read_private_key pem_read_pubkey pem_read_bio_private_key pem_read_bio_pubkey : ℕ → Maker
  md_ctx_new ssl_ctx_new_server ssl_ctx_new_client : Maker

abbrev pub kind : Maker → Kind
kind (fopen path) = file
kind (bio_new_mem_buf text) = bio
kind (pem_read_private_key f) = pkey
kind (pem_read_pubkey f) = pkey
kind (pem_read_bio_private_key b) = pkey
kind (pem_read_bio_pubkey b) = pkey
kind md_ctx_new = md_ctx
kind ssl_ctx_new_server = ssl_ctx
kind ssl_ctx_new_client = ssl_ctx

-- The calls on an object that succeed or fail, and make nothing.
pub data Call : Type 0 where
  sign_init verify_init : Digest → ℕ → Call
  sign_update verify_update verify_final : List ℕ → Call
  use_certificate_file use_private_key_file : List ℕ → Call
  check_private_key set_cipher_list set_ciphersuites : Call
  load_verify_locations : Option (List ℕ) → Option (List ℕ) → Call

-- An object is known by a number; `live` counts those that have been made and not freed.
pub record Library : Type 1 where
  pub State : Type 0
  pub live : Kind → State → ℕ
  pub make : Maker → State → Option ℕ × State
  pub free : Kind → ℕ → State → State
  pub call : Call → ℕ → State → Bool × State
  -- `EVP_DigestSignFinal` with room for so many bytes
  pub sign_final : ℕ → ℕ → State → Option (List ℕ) × State
  -- `EVP_PKEY_size`
  pub key_size : ℕ → ℕ
  pub live-make_none :
      (m : Maker) (s : State) (k : Kind) → (make m s).0 ≡ none → live k (make m s).1 ≡ live k s
  pub live-make_some :
      (m : Maker) (s : State) (k : Kind) (h : ℕ)
      → (make m s).0 ≡ some h
      → live k (make m s).1 ≡ live k s + same k (kind m)
  pub live-free :
      (j k : Kind) (h : ℕ) (s : State) → 0 < live j s → live k (free j h s) + same k j ≡ live k s
  pub live-call : (c : Call) (h : ℕ) (s : State) (k : Kind) → live k (call c h s).1 ≡ live k s
  pub live-sign_final :
      (h room : ℕ) (s : State) (k : Kind) → live k (sign_final h room s).1 ≡ live k s
  pub length-sign_final :
      (h room : ℕ) (s : State) (t : List ℕ) → (sign_final h room s).0 ≡ some t → length t ≤ room
