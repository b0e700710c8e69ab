-- ===== src/Crypto/Cipher/RoundTrip.antt =====
-- src/80s/crypto.c: what `crypto_cipher` encrypts, it decrypts, whether with an IV or without.
use s.Common.{
  leb, length, take, drop, length-append, take_all, take-append, ℕ, zero, suc, ◌+◌, ◌*◌, ◌/◌, ◌^◌,
  ◌≤◌, ◌<◌, ◌≡◌, refl, sym, ap, subst, ◌∙◌, Bool, true, false, some, List, [], ◌∷◌, ◌++◌,
  append_assoc, arith,
}
use s.Dynstr.{Dynstr, Allocator, contents, check}
use s.Dynstr.Growth.{Grants, max_size, check-granted}
use s.Mailbox.{int_limit}
use s.Crypto.Engine.{Engine, IsFaithful}
use s.Crypto.Cipher.{
  done, int_bytes, read_int, fold_key, needed_size, iv_len, detect_iv, bytes_eq, keep_text, used_iv,
  stored_iv, message_body, unseal, encrypt, decrypt,
}
use s.Crypto.Cipher.Setup.{length-stored_iv, encrypt_seals, decrypt_unseals, seal_done}
use s.Crypto.Cipher.Storage.{HasPlace, HasPlace-fits}

read_int-int_bytes : (n : ℕ) (rest : List ℕ) → n < 2 ^ 32 → read_int (int_bytes n ++ rest) ≡ n
read_int-int_bytes n rest h = omega arith

drop-append : (xs ys : List ℕ) → drop (length xs) (xs ++ ys) ≡ ys
drop-append [] ys = refl
drop-append (x ∷ xs) ys = drop-append xs ys

bytes_eq_refl : (xs : List ℕ) → bytes_eq xs xs ≡ true
bytes_eq_refl [] = refl
bytes_eq_refl (x ∷ xs) = ground (arith, bytes_eq_refl xs)

drop-nil : (n : ℕ) → drop {A = ℕ} n [] ≡ []
drop-nil zero = refl
drop-nil (suc n) = refl

drop-drop : (m n : ℕ) (xs : List ℕ) → drop (m + n) xs ≡ drop n (drop m xs)
drop-drop zero n xs = ap (λ k. drop k xs) (omega arith)
drop-drop (suc m) n [] = let e : suc m + n ≡ suc (m + n) = omega arith in rw e (sym (drop-nil n))
drop-drop (suc m) n (x ∷ xs) =
    let e : suc m + n ≡ suc (m + n) = omega arith in rw e (drop-drop m n xs)

keep_text_all :
    (text : List ℕ) (out : Dynstr)
    → keep_text (length text) text out ≡ (record out { ptr = text; length = length text }, done)
unfolding keep_text
keep_text_all text out =
    let q : leb (length text) (length text) ≡ true = ground arith in
    rw q (rw (take_all (length text) text (omega arith)) refl)

-- A message as `crypto_cipher` lays it out.
module _ (mac iv c : List ℕ) (use_iv : Bool) (n : ℕ) (mac_size : length mac ≡ 32)
    (iv_size : length iv ≡ iv_len use_iv) (c_size : length c ≡ (n / 16 + 1) * 16)
    (small : n < 2 ^ 31) where
  abbrev pub message : List ℕ
  message = mac ++ (int_bytes n ++ (iv ++ c))

  length-message : length message ≡ 36 + iv_len use_iv + (n / 16 + 1) * 16
  length-message = omega (arith, length-append mac (int_bytes n ++ (iv ++ c)), length-append iv c)

  take-mac : take 32 message ≡ mac
  take-mac = take-append 32 mac (int_bytes n ++ (iv ++ c)) mac_size

  drop-mac : drop 32 message ≡ int_bytes n ++ (iv ++ c)
  drop-mac =
      subst (λ k. drop k message ≡ int_bytes n ++ (iv ++ c)) mac_size
        (drop-append mac (int_bytes n ++ (iv ++ c)))

  -- The padding makes the IV show.
  detect_iv-message : detect_iv message ≡ use_iv
  unfolding detect_iv
  detect_iv-message = rw (drop-mac) (ground (arith, length-message, read_int-int_bytes n (iv ++ c)))

  drop-header : drop 36 message ≡ iv ++ c
  drop-header =
      let size : length (mac ++ int_bytes n) ≡ 36 =
        omega (arith, length-append mac (int_bytes n)) in
      rw (← append_assoc mac (int_bytes n) (iv ++ c)) (
        subst (λ k. drop k ((mac ++ int_bytes n) ++ (iv ++ c)) ≡ iv ++ c) size
          (drop-append (mac ++ int_bytes n) (iv ++ c)))

  drop-message : drop (36 + iv_len use_iv) message ≡ c
  drop-message =
      rw (drop-drop 36 (iv_len use_iv) message, drop-header)
        (subst (λ k. drop k (iv ++ c) ≡ c) iv_size (drop-append iv c))

used_iv-stored_iv :
    (use_iv : Bool) (random c : List ℕ)
    → length random ≡ 16
    → used_iv use_iv (take 16 (stored_iv use_iv random ++ c)) ≡ used_iv use_iv random
used_iv-stored_iv true random c h = take-append 16 random c h
used_iv-stored_iv false random c h = refl

module _ (e : Engine) (f : IsFaithful e) (key : List ℕ) (use_iv : Bool) (random text c : List ℕ)
    (mac : List ℕ) (iv_size : length random ≡ 16) (small : length text < 2 ^ 31)
    (enc : e.run_encrypt key (used_iv use_iv random) text ≡ some c)
    (signs : e.hmac key (message_body (length text) (stored_iv use_iv random) c) ≡ some mac) where
  abbrev sealed : List ℕ
  sealed = mac ++ message_body (length text) (stored_iv use_iv random) c

  detect_iv-sealed : detect_iv sealed ≡ use_iv
  detect_iv-sealed =
      detect_iv-message mac (stored_iv use_iv random) c use_iv (length text)
        (f.length-hmac key _ mac signs) (length-stored_iv use_iv random iv_size)
        (f.length-run_encrypt key _ text c enc) small

  length-sealed : length sealed ≡ 36 + iv_len use_iv + (length text / 16 + 1) * 16
  length-sealed =
      length-message mac (stored_iv use_iv random) c use_iv (length text)
        (f.length-hmac key _ mac signs) (length-stored_iv use_iv random iv_size)
        (f.length-run_encrypt key _ text c enc) small

  unseal-sealed :
      (out : Dynstr)
      → length sealed < int_limit
      → unseal e key use_iv sealed out ≡ (record out { ptr = text; length = length text }, done)
  unfolding unseal
  unseal-sealed out fits =
      let iv = stored_iv use_iv random in
      let n = length text in
      let size = f.length-hmac key (message_body n iv c) mac signs in
      let pad = f.length-run_encrypt key (used_iv use_iv random) text c enc in
      let ivs = length-stored_iv use_iv random iv_size in
      let l : leb int_limit (length sealed) ≡ false = ground arith in
      let header = drop-mac mac iv c use_iv n size ivs pad small in
      let r : read_int (drop 32 sealed) ≡ n =
        rw header (read_int-int_bytes n (iv ++ c) (omega arith)) in
      rw
        (
          take-mac mac iv c use_iv n size ivs pad small,
          header,
          signs,
          l,
          bytes_eq_refl mac,
          drop-header mac iv c use_iv n size ivs pad small,
          drop-message mac iv c use_iv n size ivs pad small,
          used_iv-stored_iv use_iv random c iv_size,
        )
        (rw (f.run_decrypt-run_encrypt key (used_iv use_iv random) text c enc)
          (rw r (keep_text_all text out)))

iv_len-le : (use_iv : Bool) → iv_len use_iv ≤ 16
iv_len-le true = omega arith
iv_len-le false = omega arith

-- What `crypto_cipher` encrypts, it decrypts: where OpenSSL works and memory is granted, for
-- keys of 16 bytes or more, texts that are more than 68 bytes shorter than 2 ^ 31, an empty
-- output of at most 2 ^ 62 bytes with place for the message, and with an IV or without one, the
-- message is made, and decrypting it with the same key gives the text.
pub cipher_round_trip :
    (e : Engine) (a : Allocator) (random text key c mac : List ℕ) (use_iv : Bool)
    (out out2 : Dynstr)
    → IsFaithful e
    → e.ctx_new ≡ true
    → e.cipher_init ≡ true
    → Grants a
    → length random ≡ 16
    → 16 ≤ length key
    → length text + 68 < 2 ^ 31
    → e.run_encrypt (fold_key key) (used_iv use_iv random) text ≡ some c
    → e.hmac (fold_key key) (message_body (length text) (stored_iv use_iv random) c) ≡ some mac
    → out.length ≡ 0
    → out.size ≤ max_size
    → HasPlace use_iv (length text) out.size
    → ((encrypt e a random text key use_iv out).1 ≡ done)
      × ((decrypt e a (contents (encrypt e a random text key use_iv out).0) key out2).1 ≡ done)
      × (contents (decrypt e a (contents (encrypt e a random text key use_iv out).0) key out2).0
          ≡ text)
cipher_round_trip e a random text key c mac use_iv out out2 f ctx ready g iv_size long less enc
      signs empty size place =
    let k = fold_key key in
    let small : length text < 2 ^ 31 = omega arith in
    let msg = sealed e f k use_iv random text c mac iv_size small enc signs in
    let len = length-sealed e f k use_iv random text c mac iv_size small enc signs in
    let det = detect_iv-sealed e f k use_iv random text c mac iv_size small enc signs in
    let room1 = check-granted a out (needed_size (length text)) g in
    let room2 = check-granted a out2 (needed_size (length msg)) g in
    let fits = HasPlace-fits a out use_iv (length text) g empty size small place in
    let body = message_body (length text) (stored_iv use_iv random) c in
    let all : 32 + length body ≡ length msg =
      omega (arith, f.length-hmac k body mac signs, length-append mac body) in
    let pad = f.length-run_encrypt k (used_iv use_iv random) text c enc in
    let made =
      encrypt_seals e a key out ctx ready long random text use_iv room1
      ∙ seal_done e k use_iv random text c (check a out (needed_size (length text))).0 small enc mac
          signs (omega (arith, pad)) (omega arith) in
    let holds : contents (encrypt e a random text key use_iv out).0 ≡ msg =
      rw made (take_all (32 + length body) msg (omega arith)) in
    let out3 = (check a out2 (needed_size (length msg))).0 in
    let read : decrypt e a msg key out2 ≡ (record out3 { ptr = text; length = length text }, done) =
      decrypt_unseals e a key out2 ctx ready long msg room2 (rw det (omega arith))
      ∙ rw det (
          unseal-sealed e f k use_iv random text c mac iv_size small enc signs out3
            (omega (arith, len, iv_len-le use_iv))) in
    (
      ap (λ r. r.1) made,
      rw holds (ap (λ r. r.1) read),
      rw (holds, read) (take_all (length text) text (omega arith)),
    )
