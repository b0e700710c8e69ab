-- ===== src/Crypto/Tests.antt =====
-- src/80s/crypto.c: runs over a cipher and a library of their own, and the theorems on small
-- inputs.
use s.Common.{
  length, get_or, take, replicate, length-append, take-append, length-replicate, ℕ, ◌+◌, ◌-◌, ◌*◌,
  ◌/◌, ◌≡◌, refl, ap, ◌≢◌, inl, inr, true, false, Option, none, some, List, [], ◌∷◌, ◌++◌, arith,
}
use s.Dynstr.{Dynstr, Allocator, contents, init}
use s.Dynstr.Growth.{Grants}
use s.Crypto.Engine.{Engine, IsFaithful}
use s.Crypto.Cipher.{done, overrun, fold_key, used_iv, zeros, encrypt, decrypt}
use s.Crypto.Cipher.RoundTrip.{cipher_round_trip}
use s.Crypto.Cipher.Storage.{encrypt_overruns}
use s.Crypto.Cipher.Forgery.{Refused, decrypt_refuses}

-- A cipher that hides nothing: the length, the text, and zeros up to whole blocks.
abbrev pad : ℕ → ℕ
pad n = (n / 16 + 1) * 16 - (n + 1)

abbrev plain_encrypt : List ℕ → List ℕ
plain_encrypt x = length x ∷ (x ++ replicate (pad (length x)) 0)

abbrev plain_decrypt : List ℕ → Option (List ℕ)
plain_decrypt [] = none
plain_decrypt (n ∷ c) = some (take n c)

abbrev plain : Engine
plain = record {
  ctx_new = true;
  cipher_init = true;
  run_encrypt = λ k iv x. some (plain_encrypt x);
  run_decrypt = λ k iv c. plain_decrypt c;
  hmac = λ k x. some (replicate 32 (length x));
  unset_signature = [];
  unset_output = [];
}

some_plain : (x c : List ℕ) → some (plain_encrypt x) ≡ some c → plain_encrypt x ≡ c
some_plain x c e = cc

some_mac : (x m : List ℕ) → some (replicate 32 (length x)) ≡ some m → replicate 32 (length x) ≡ m
some_mac x m e = cc

plain-IsFaithful : IsFaithful plain
plain-IsFaithful = record {
  length-run_encrypt = λ k iv x c e. omega (
    arith,
    ap length (some_plain x c e),
    length-append x (replicate (pad (length x)) 0),
    length-replicate {A = ℕ} (pad (length x)) 0,
  );
  run_decrypt-run_encrypt = λ k iv x c e.
      rw (← some_plain x c e)
        (ap some (take-append (length x) x (replicate (pad (length x)) 0) refl));
  length-hmac = λ k x m e. rw (← some_mac x m e) (length-replicate 32 (length x));
}

abbrev granting : Allocator
granting = record { calloc = λ _. true; realloc = λ _. true }

granting_lem : Grants granting
granting_lem = record { calloc_grants = λ n. refl; realloc_grants = λ n. refl }

-- An output of so many bytes of the caller's.
abbrev output : ℕ → Dynstr
output size = record {
  ok = true;
  on_stack = true;
  size = size;
  length = 0;
  is_null = false;
  ptr = [];
}

abbrev key : List ℕ
key = replicate 20 7

abbrev random : List ℕ
random = replicate 16 3

abbrev hello : List ℕ
hello = b'h' ∷ b'i' ∷ []

abbrev message : List ℕ
message = contents (encrypt plain granting random hello key true (output 1000)).0

decrypts : contents (decrypt plain granting message key (output 1000)).0 ≡ hello
unfolding decrypt encrypt s.Dynstr.check s.Crypto.Cipher.seal s.Crypto.Cipher.detect_iv
    s.Crypto.Cipher.unseal
decrypts = refl

cipher_round_trip_example :
    ((encrypt plain granting random hello key true (output 1000)).1 ≡ done)
    × ((decrypt plain granting message key (output 10)).1 ≡ done)
    × (contents (decrypt plain granting message key (output 10)).0 ≡ hello)
cipher_round_trip_example =
    cipher_round_trip plain granting random hello key (plain_encrypt hello) (replicate 32 36) true
      (output 1000) (output 10) plain-IsFaithful refl refl granting_lem refl (omega arith)
      (omega arith) refl refl refl (omega arith) (inr (inl (omega arith)))

abbrev block : List ℕ
block = replicate 16 1

encrypt_overruns_example : (encrypt plain granting random block key true (output 70)).1 ≡ overrun 14
encrypt_overruns_example =
    encrypt_overruns plain granting random block key (plain_encrypt block) (output 70)
      plain-IsFaithful refl refl refl (omega arith) refl (omega arith) refl refl (omega arith)
      (omega arith)

abbrev forgery : List ℕ
forgery = replicate 60 9

forged : take 32 forgery ≢ replicate 32 28
forged e =
    let q : get_or (take 32 forgery) 0 0 ≡ get_or {A = ℕ} (replicate 32 28) 0 0 =
      ap (λ l. get_or l 0 0) e in
    omega arith

decrypt_refuses_example : Refused (output 1000) (decrypt plain granting forgery key (output 1000))
decrypt_refuses_example =
    decrypt_refuses plain granting forgery key (replicate 32 28) (output 1000) (omega arith)
      (omega arith) (omega arith) refl forged
