-- ===== src/Crypto/Cipher/Setup.antt =====
-- src/80s/crypto.c: `crypto_cipher` once its key, its storage and its context are there.
use s.Common.{
  ltb, leb, length, length-append, ℕ, ◌+◌, ◌-◌, ◌*◌, ◌/◌, ◌≤◌, ◌<◌, ◌≡◌, refl, Bool, true, false,
  some, List, ◌++◌, arith,
}
use s.Dynstr.{Dynstr, Allocator, check}
use s.Mailbox.{int_limit}
use s.Crypto.Engine.{Engine}
use s.Crypto.Cipher.{
  overrun, done, fold_key, needed_size, iv_len, detect_iv, used_iv, stored_iv, message_body, seal,
  unseal, encrypt, decrypt,
}

-- The bytes of an encrypted message.
abbrev pub message_size : Bool → ℕ → ℕ
message_size use_iv len = 36 + iv_len use_iv + (len / 16 + 1) * 16

module _ (e : Engine) (a : Allocator) (key : List ℕ) (out : Dynstr) (ctx : e.ctx_new ≡ true)
    (ready : e.cipher_init ≡ true) (long : 16 ≤ length key) where
  pub encrypt_seals :
      (random text : List ℕ) (use_iv : Bool)
      → (check a out (needed_size (length text))).1 ≡ true
      → encrypt e a random text key use_iv out
        ≡ seal e (fold_key key) use_iv random text (check a out (needed_size (length text))).0
  unfolding encrypt
  encrypt_seals random text use_iv room =
      let l : ltb (length key) 16 ≡ false = ground arith in rw (l, ctx, ready, room) refl

  pub decrypt_unseals :
      (payload : List ℕ)
      → (check a out (needed_size (length payload))).1 ≡ true
      → 36 + iv_len (detect_iv payload) ≤ length payload
      → decrypt e a payload key out
        ≡ unseal e
            (fold_key key)
            (detect_iv payload)
            payload
            (check a out (needed_size (length payload))).0
  unfolding decrypt
  decrypt_unseals payload room enough =
      let l : ltb (length key) 16 ≡ false = ground arith in
      let m : ltb (length payload) (36 + iv_len (detect_iv payload)) ≡ false = ground arith in
      rw (l, m, ctx, ready, room) refl

pub length-stored_iv :
    (use_iv : Bool) (random : List ℕ)
    → length random ≡ 16
    → length (stored_iv use_iv random) ≡ iv_len use_iv
length-stored_iv true random h = h
length-stored_iv false random h = refl

pub length-message_body :
    (n : ℕ) (iv c : List ℕ) → length (message_body n iv c) ≡ 4 + length iv + length c
length-message_body n iv c = omega (arith, length-append iv c)

module _ (e : Engine) (key : List ℕ) (use_iv : Bool) (random text c : List ℕ) (out : Dynstr)
    (small : length text < int_limit)
    (enc : e.run_encrypt key (used_iv use_iv random) text ≡ some c) where
  abbrev pub body : List ℕ
  body = message_body (length text) (stored_iv use_iv random) c

  pub seal_overruns :
      out.size < 32 + length body
      → (seal e key use_iv random text out).1 ≡ overrun (32 + length body - out.size)
  unfolding seal
  seal_overruns h =
      let q : ltb out.size (32 + length body) ≡ true = ground arith in
      let l : leb int_limit (length text) ≡ false = ground arith in rw (l, enc, seal) (rw q refl)

  pub seal_done :
      (mac : List ℕ)
      → e.hmac key body ≡ some mac
      → length c < int_limit
      → 32 + length body ≤ out.size
      → seal e key use_iv random text out
        ≡ (record out { ptr = mac ++ body; length = 32 + length body }, done)
  unfolding seal
  seal_done mac signs fits h =
      let q : ltb out.size (32 + length body) ≡ false = ground arith in
      let l : leb int_limit (length text) ≡ false = ground arith in
      let b : leb int_limit (length c) ≡ false = ground arith in
      rw (l, enc, seal) (rw (q, b, signs) refl)
