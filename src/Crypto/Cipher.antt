-- ===== src/Crypto/Cipher.antt =====
-- src/80s/crypto.c: `crypto_cipher`, which encrypts and signs a message, or checks and decrypts
-- one.
pub mod Setup
pub mod RoundTrip
pub mod Storage
pub mod Forgery
use Prim.Native.Nat.{bit_xor}
use s.Common.{
  ltb, leb, ◌==◌, if◌then◌else◌, length, get_or, set, take, drop, replicate, ℕ, ◌+◌, ◌-◌, ◌*◌, ◌/◌,
  ◌%◌, ◌^◌, Bool, true, false, not, ◌&&◌, Option, none, some, List, [], ◌∷◌, ◌++◌,
}
use s.Dynstr.{Dynstr, Allocator, check}
use s.Mailbox.{int_limit}
use s.Crypto.Engine.{Engine}

-- The messages that `crypto_cipher` gives, two of them for one reason: no cipher.
pub data Failure : Type 0 where
  short_key short_payload no_context no_memory no_init no_cipher : Failure

-- 0, or -1 with a message; or a write of so many bytes behind the storage, a read of bytes that
-- were not decrypted, or a length that an `int` does not hold, of which the model says no more.
pub data Outcome : Type 0 where
  done overread too_long : Outcome
  overrun : ℕ → Outcome
  failed : Failure → Outcome

-- `*(int *)p = n` and `*(int *)p`, little endian, as 32-bit patterns.
abbrev pub int_bytes : ℕ → List ℕ
int_bytes n = n % 256 ∷ n / 256 % 256 ∷ n / 65536 % 256 ∷ n / 16777216 % 256 ∷ []

abbrev pub read_int : List ℕ → ℕ
read_int p = get_or p 0 0 + 256 * get_or p 1 0 + 65536 * get_or p 2 0 + 16777216 * get_or p 3 0

-- `for (i = 16; i < key_len; i++) key_buf[i & 15] ^= key[i];`
unfoldable pub fold_from : ℕ → List ℕ → List ℕ → List ℕ
fold_from i [] key_buf = key_buf
fold_from i (k ∷ ks) key_buf =
    fold_from (i + 1) ks (set key_buf (i % 16) (bit_xor (get_or key_buf (i % 16) 0) k))

-- The key of 128 bits, from one that is at least as long.
unfoldable pub fold_key : List ℕ → List ℕ
unfolding fold_from
fold_key key = if ltb 16 (length key) then fold_from 16 (drop 16 key) (take 16 key) else key

-- The bytes asked of the output: the length rounded up to blocks, then HMAC, IV and length.
abbrev pub needed_size : ℕ → ℕ
needed_size len = (if len % 16 == 0 then len else len + (16 - len % 16)) + 52

abbrev pub iv_len : Bool → ℕ
iv_len use_iv = if use_iv then 16 else 0

-- Whether a payload is taken to have an IV: more than 16 bytes stand behind its header that its
-- length does not account for. The sum is one of `unsigned int`.
unfoldable pub detect_iv : List ℕ → Bool
detect_iv payload =
    if ltb (length payload) 36
    then false
    else not (leb (length payload) ((read_int (drop 32 payload) + 36) % 2 ^ 32 + 16))

-- The storage is asked for, and the cipher set up.
unfoldable pub prepare :
    Engine → Allocator → ℕ → Dynstr → (Dynstr → Dynstr × Outcome) → Dynstr × Outcome
prepare e a len out body =
    let (out', room) = check a out (needed_size len) in
    if not e.ctx_new
    then (out, failed no_context)
    else if not room
    then (out', failed no_memory)
    else if not e.cipher_init
    then (out', failed no_init)
    else body out'

-- `memcmp(data, signature, hmac_len)` finds no difference.
abbrev pub bytes_eq : List ℕ → List ℕ → Bool
bytes_eq [] [] = true
bytes_eq [] (y ∷ ys) = false
bytes_eq (x ∷ xs) [] = false
bytes_eq (x ∷ xs) (y ∷ ys) = x == y && bytes_eq xs ys

abbrev pub zeros : List ℕ
zeros = replicate 16 0

-- After a failed cipher call what the storage holds is unspecified.
abbrev pub garbled : Dynstr → Dynstr
garbled out = record out { ptr = [] }

-- The IV that is used, and the one that is stored.
abbrev pub used_iv : Bool → List ℕ → List ℕ
used_iv use_iv random = if use_iv then random else zeros

abbrev pub stored_iv : Bool → List ℕ → List ℕ
stored_iv use_iv random = if use_iv then random else []

-- Length, IV and contents, which the HMAC signs.
abbrev pub message_body : ℕ → List ℕ → List ℕ → List ℕ
message_body len iv c = int_bytes len ++ (iv ++ c)

abbrev pub or_else : List ℕ → Option (List ℕ) → List ℕ
or_else unset none = unset
or_else unset (some mac) = mac

-- HMAC, length, IV and contents, into the storage. Whether `HMAC` fails is not looked at. The
-- size of the contents is `out_len + final_len`, a sum of `int`.
unfoldable pub store_message : Engine → List ℕ → ℕ → List ℕ → Dynstr → Dynstr × Outcome
store_message e key contents_size body out =
    if ltb out.size (32 + length body)
    then (garbled out, overrun (32 + length body - out.size))
    else if leb int_limit contents_size
    then (garbled out, too_long)
    else (
      record out {
        ptr = or_else e.unset_output (e.hmac key body) ++ body;
        length = 32 + length body;
      },
      done,
    )

-- `(int)len - offset` is what `EVP_CipherUpdate` is given.
unfoldable pub seal : Engine → List ℕ → Bool → List ℕ → List ℕ → Dynstr → Dynstr × Outcome
unfolding store_message
seal e key use_iv random text out =
    if leb int_limit (length text)
    then (garbled out, too_long)
    else elim (e.run_encrypt key (used_iv use_iv random) text) [
      | none ↦ (garbled out, failed no_cipher)
      | some c ↦
          store_message e key (length c) (message_body (length text) (stored_iv use_iv random) c)
            out
    ]

-- Of the decrypted text as much is kept as the length in the message says.
unfoldable pub keep_text : ℕ → List ℕ → Dynstr → Dynstr × Outcome
keep_text len text out =
    if leb len (length text)
    then (record out { ptr = take len text; length = len }, done)
    else (garbled out, overread)

-- The signature is compared, then the contents decrypted. `(int)len - offset` is what
-- `EVP_CipherUpdate` is given.
unfoldable pub unseal : Engine → List ℕ → Bool → List ℕ → Dynstr → Dynstr × Outcome
unfolding keep_text
unseal e key use_iv payload out =
    let iv = used_iv use_iv (take 16 (drop 36 payload)) in
    if not (bytes_eq (take 32 payload) (or_else e.unset_signature (e.hmac key (drop 32 payload))))
    then (out, failed no_cipher)
    else if leb int_limit (length payload)
    then (garbled out, too_long)
    else elim (e.run_decrypt key iv (drop (36 + iv_len use_iv) payload)) [
      | none ↦ (garbled out, failed no_cipher)
      | some text ↦ keep_text (read_int (drop 32 payload)) text out
    ]

-- `crypto_cipher` with `encrypt` set; `random` is what `RAND_bytes` gives.
unfoldable pub encrypt :
    Engine → Allocator → List ℕ → List ℕ → List ℕ → Bool → Dynstr → Dynstr × Outcome
unfolding prepare
encrypt e a random text key use_iv out =
    if ltb (length key) 16
    then (out, failed short_key)
    else prepare e a (length text) out (seal e (fold_key key) use_iv random text)

-- `crypto_cipher` without: whether there is an IV is found out.
unfoldable pub decrypt : Engine → Allocator → List ℕ → List ℕ → Dynstr → Dynstr × Outcome
unfolding prepare
decrypt e a payload key out =
    let use_iv = detect_iv payload in
    if ltb (length key) 16
    then (out, failed short_key)
    else if ltb (length payload) (36 + iv_len use_iv)
    then (out, failed short_payload)
    else prepare e a (length payload) out (unseal e (fold_key key) use_iv payload)
