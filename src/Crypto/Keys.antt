-- ===== src/Crypto/Keys.antt =====
-- src/80s/crypto.c: keys read from a file or from memory, and their release.
pub mod Balanced
use s.Common.{ℕ, Option, none, some, List}
use s.Crypto.Library.{
  Library, Kind, file, bio, pkey, Maker, fopen, bio_new_mem_buf, pem_read_private_key,
  pem_read_pubkey, pem_read_bio_private_key, pem_read_bio_pubkey,
}

-- Why -1 is returned.
pub data Reason : Type 0 where
  no_file no_bio no_key : Reason

-- 0 with a key in `out_key`, or -1.
pub data Loaded : Type 0 where
  loaded : ℕ → Loaded
  failed : Reason → Loaded

module _ (L : Library) where
  open L use {State, live, make, free}

  -- The key is read and its source closed, in this order, whether or not there is a key.
  unfoldable pub read_from : Kind → ℕ → Maker → State → Loaded × State
  read_from source h reader s =
      let key = make reader s in
      let closed = free source h key.1 in
      elim (key.0) [ none ↦ (failed no_key, closed) | some k ↦ (loaded k, closed) ]

  unfoldable pub key_from : Maker → Kind → Reason → (ℕ → Maker) → State → Loaded × State
  unfolding read_from
  key_from source k reason reader s =
      let opened = make source s in
      elim (opened.0) [
        | none ↦ (failed reason, opened.1)
        | some h ↦ read_from k h (reader h) opened.1
      ]

  unfoldable pub private_key_new : List ℕ → State → Loaded × State
  private_key_new path = key_from (fopen path) file no_file pem_read_private_key

  unfoldable pub private_key_from_buffer_new : List ℕ → State → Loaded × State
  private_key_from_buffer_new text =
      key_from (bio_new_mem_buf text) bio no_bio pem_read_bio_private_key

  unfoldable pub public_key_new : List ℕ → State → Loaded × State
  public_key_new path = key_from (fopen path) file no_file pem_read_pubkey

  unfoldable pub public_key_from_buffer_new : List ℕ → State → Loaded × State
  public_key_from_buffer_new text = key_from (bio_new_mem_buf text) bio no_bio pem_read_bio_pubkey

  -- `crypto_private_key_release` and `crypto_public_key_release`
  unfoldable pub key_release : Option ℕ → State → State
  key_release none s = s
  key_release (some k) s = free pkey k s
