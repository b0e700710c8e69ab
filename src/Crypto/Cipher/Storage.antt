-- ===== src/Crypto/Cipher/Storage.antt =====
-- src/80s/crypto.c: whether what `crypto_cipher` writes lies within the storage it has asked for.
use s.Common.{
  length, ℕ, ◌+◌, ◌-◌, ◌/◌, ◌%◌, ◌^◌, ◌≤◌, ◌<◌, ◌≡◌, ap, ◌∙◌, ◌≢◌, ◌⊎◌, Bool, true, false, some,
  List, arith,
}
use s.Dynstr.{Dynstr, Allocator, check}
use s.Dynstr.Growth.{Grants, max_size}
use s.Crypto.Engine.{Engine, IsFaithful}
use s.Crypto.Cipher.{overrun, fold_key, needed_size, stored_iv, message_body, encrypt}
use s.Crypto.Cipher.Setup.{message_size, length-message_body, encrypt_seals, seal_overruns}

-- Where the storage holds the message: without an IV; for a text that is not a whole number of
-- blocks; where the storage grows; and where it is large enough anyway.
abbrev pub HasPlace : Bool → ℕ → ℕ → Type 0
HasPlace use_iv len size =
    (use_iv ≡ false) ⊎ (len % 16 ≢ 0) ⊎ (size ≤ needed_size len) ⊎ (len + 68 ≤ size)

pub HasPlace-fits :
    (a : Allocator) (out : Dynstr) (use_iv : Bool) (len : ℕ)
    → Grants a
    → out.length ≡ 0
    → out.size ≤ max_size
    → len < 2 ^ 31
    → HasPlace use_iv len out.size
    → message_size use_iv len ≤ (check a out (needed_size len)).0.size
unfolding check
HasPlace-fits a out use_iv len g empty h small place = ground (
  arith,
  g.calloc_grants (out.size + needed_size len + out.size / 2 + 65536),
  g.realloc_grants (out.size + needed_size len + out.size / 2 + 65536),
)

-- Where OpenSSL works, with an IV, for a key of 16 bytes or more, a text of whole blocks and
-- less than 2 ^ 31 bytes, and an empty output that is 53 to 67 bytes longer than the text:
-- `crypto_cipher` writes behind the storage, by the 1 to 15 bytes that the output is shorter
-- than the text and 68.
pub encrypt_overruns :
    (e : Engine) (a : Allocator) (random text key c : List ℕ) (out : Dynstr)
    → IsFaithful e
    → e.ctx_new ≡ true
    → e.cipher_init ≡ true
    → length random ≡ 16
    → 16 ≤ length key
    → length text % 16 ≡ 0
    → length text < 2 ^ 31
    → e.run_encrypt (fold_key key) random text ≡ some c
    → out.length ≡ 0
    → length text + 52 < out.size
    → out.size < length text + 68
    → (encrypt e a random text key true out).1 ≡ overrun (length text + 68 - out.size)
encrypt_overruns e a random text key c out f ctx init iv long blocks small enc empty low high =
    let n = length text in
    let room : (check a out (needed_size n)).1 ≡ true = unfold check in ground arith in
    let same : (check a out (needed_size n)).0 ≡ out = unfold check in ground arith in
    let size : length (message_body n (stored_iv true random) c) ≡ 4 + length random + length c =
      length-message_body n random c in
    let whole : 32 + length (message_body n (stored_iv true random) c) ≡ n + 68 =
      omega (arith, f.length-run_encrypt (fold_key key) random text c enc) in
    let past : 32 + length (message_body n (stored_iv true random) c) - out.size
        ≡ n + 68 - out.size =
      ap (λ t. t - out.size) whole in
    rw (encrypt_seals e a key out ctx init long random text true room, same)
      (seal_overruns e (fold_key key) true random text c out small enc (omega (arith, whole))
        ∙ ap overrun past)
