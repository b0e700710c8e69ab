-- ===== src/Crypto/Keys/Balanced.antt =====
-- src/80s/crypto.c: what loading a key leaves behind.
use s.Common.{Option-cases, ℕ, ◌≡◌, refl, inl, inr, some, List, arith}
use s.Crypto.Library.{
  Library, Kind, pkey, Maker, fopen, bio_new_mem_buf, pem_read_private_key, pem_read_pubkey,
  pem_read_bio_private_key, pem_read_bio_pubkey, same, kind,
}
use s.Crypto.Balance.{Extra, Extra-none, make_none-Extra, make_some-Extra, free-Extra}
use s.Crypto.Keys.{
  Loaded, loaded, failed, Reason, no_file, no_bio, read_from, key_from, private_key_new,
  private_key_from_buffer_new, public_key_new, public_key_from_buffer_new, key_release,
}

module _ (L : Library) where
  open L use {State, live, make, free}

  -- One key more, or nothing.
  abbrev pub Balance : State → Loaded × State → Type 0
  Balance s0 (loaded h, s) = Extra L s0 (λ k. same k pkey) s
  Balance s0 (failed r, s) = Extra L s0 (λ k. 0) s

  read_from-Balance :
      (source : Kind) (h : ℕ) (reader : Maker) (s0 s : State) (f : Kind → ℕ)
      → Extra L s0 f s
      → ((k : Kind) → f k ≡ same k source)
      → kind reader ≡ pkey
      → Balance s0 (read_from L source h reader s)
  unfolding read_from
  read_from-Balance source h reader s0 s f grown one is_key =
      elim (Option-cases (make reader s).0) [
        | inl e ↦
            rw (e, read_from)
              (free-Extra L _ (make_none-Extra L _ grown reader e) (λ k. 0) source h
                (λ k. omega (arith, one k)))
        | inr (v, e) ↦
            rw (e, read_from)
              (free-Extra L _ (make_some-Extra L _ grown reader v e) (λ k. same k pkey) source h
                (λ k. rw is_key (omega (arith, one k))))
      ]

  key_from-Balance :
      (source : Maker) (r : Reason) (reader : ℕ → Maker) (s : State)
      → ((h : ℕ) → kind (reader h) ≡ pkey)
      → Balance s (key_from L source (kind source) r reader s)
  unfolding key_from
  key_from-Balance source r reader s is_key = elim (Option-cases (make source s).0) [
    | inl q ↦ rw (q, key_from) (make_none-Extra L _ (Extra-none L s) source q)
    | inr (v, q) ↦
        rw (q, key_from)
          (read_from-Balance (kind source) v (reader v) s (make source s).1 _
            (make_some-Extra L _ (Extra-none L s) source v q) (λ k. omega arith) (is_key v))
  ]

  -- Each of the four ways to load a key closes what it has opened; it leaves one key more where it
  -- returns 0, and as many objects as there were where it returns -1.
  pub keys-Balance :
      (text : List ℕ) (s : State)
      → Balance s (private_key_new L text s)
        × Balance s (private_key_from_buffer_new L text s)
        × Balance s (public_key_new L text s)
        × Balance s (public_key_from_buffer_new L text s)
  unfolding private_key_new private_key_from_buffer_new public_key_new public_key_from_buffer_new
  keys-Balance text s = (
    key_from-Balance (fopen text) no_file pem_read_private_key s (λ h. refl),
    key_from-Balance (bio_new_mem_buf text) no_bio pem_read_bio_private_key s (λ h. refl),
    key_from-Balance (fopen text) no_file pem_read_pubkey s (λ h. refl),
    key_from-Balance (bio_new_mem_buf text) no_bio pem_read_bio_pubkey s (λ h. refl),
  )

  -- A loaded key that is released leaves as many objects as there were before it was loaded.
  pub release-Balance :
      (s s' : State) (h : ℕ)
      → Balance s (loaded h, s')
      → Extra L s (λ k. 0) (key_release L (some h) s')
  unfolding key_release
  release-Balance s s' h b = free-Extra L _ b (λ k. 0) pkey h (λ k. omega arith)
