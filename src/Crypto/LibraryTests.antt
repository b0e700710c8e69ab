-- ===== src/Crypto/LibraryTests.antt =====
-- src/80s/crypto.c: keys, signatures and TLS contexts over a library that counts its objects.
use s.Common.{
  length, take, length-take, ℕ, ◌+◌, ◌-◌, ◌≤◌, ◌<◌, ◌≡◌, refl, subst, true, false, Option, none,
  some, List, [], ◌∷◌, arith,
}
use s.Dynstr.{Dynstr, Allocator}
use s.Crypto.Library.{Library, Kind, file, bio, pkey, md_ctx, ssl_ctx, same, kind}
use s.Crypto.Balance.{Extra}
use s.Crypto.Keys.{
  loaded, private_key_new, private_key_from_buffer_new, public_key_new, public_key_from_buffer_new,
}
use s.Crypto.Keys.Balanced.{keys-Balance}
use s.Crypto.Keys.Balanced
use s.Crypto.Sign.{
  ok, rsa_sha1, rsa_sha256, rsa_sha1_with_key, rsa_sha256_with_key, rsa_sha1_verify_with_key,
  rsa_sha256_verify_with_key,
}
use s.Crypto.Sign.Released.{signing_releases}
use s.Crypto.Sign.Signature.{Holds, signature_fits}
use s.Crypto.Tls.{ssl_new_server, ssl_new_client}
use s.Crypto.Tls.Contexts.{contexts-Balance}
use s.Crypto.Tls.Contexts

-- A library that counts, grants every object, and signs with three bytes.
same_le : (j k : Kind) (s : Kind → ℕ) → 0 < s j → same k j ≤ s k
same_le file file s h = omega arith
same_le bio bio s h = omega arith
same_le pkey pkey s h = omega arith
same_le md_ctx md_ctx s h = omega arith
same_le ssl_ctx ssl_ctx s h = omega arith
same_le _ _ s h = omega arith

some_part :
    (room : ℕ) (t : List ℕ)
    → ◌≡◌ {A = Option (List ℕ)} (some (take room (1 ∷ 2 ∷ 3 ∷ []))) (some t)
    → take room (1 ∷ 2 ∷ 3 ∷ []) ≡ t
some_part room t e = cc

none_ne : {k : Kind} {n : ℕ} (s : Kind → ℕ) → ◌≡◌ {A = Option ℕ} (some 0) none → n ≡ s k
none_ne s e = cc

abbrev counting : Library
counting = record {
  State = Kind → ℕ;
  live = λ k s. s k;
  make = λ m s. (some 0, λ k. s k + same k (kind m));
  free = λ j h s k. s k - same k j;
  call = λ c h s. (true, s);
  sign_final = λ h room s. (some (take room (1 ∷ 2 ∷ 3 ∷ [])), s);
  key_size = λ h. 3;
  live-make_none = λ m s k e. none_ne s e;
  live-make_some = λ m s k h e. refl;
  live-free = λ j k h s pos. omega (arith, same_le j k s pos);
  live-call = λ c h s k. refl;
  live-sign_final = λ h room s k. refl;
  length-sign_final = λ h room s t e.
      subst (λ u. length u ≤ room) (some_part room t e)
        (omega (arith, length-take {A = ℕ} room (1 ∷ 2 ∷ 3 ∷ [])));
}

abbrev granting : Allocator
granting = record { calloc = λ _. true; realloc = λ _. true }

abbrev output : Dynstr
output = record { ok = true; on_stack = true; size = 100; length = 0; is_null = false; ptr = [] }

abbrev nothing : Kind → ℕ
nothing k = 0

abbrev path : List ℕ
path = b'k' ∷ []

signs : (rsa_sha256 counting path path granting output nothing).0.1.ptr ≡ 1 ∷ 2 ∷ 3 ∷ []
unfolding rsa_sha256 s.Crypto.Sign.sign_file private_key_new s.Crypto.Keys.key_from
    s.Crypto.Sign.sign_with s.Dynstr.check
signs = refl

keys-Balance_example :
    Balanced.Balance counting nothing (private_key_new counting path nothing)
    × Balanced.Balance counting nothing (private_key_from_buffer_new counting path nothing)
    × Balanced.Balance counting nothing (public_key_new counting path nothing)
    × Balanced.Balance counting nothing (public_key_from_buffer_new counting path nothing)
keys-Balance_example = keys-Balance counting path nothing

signing_releases_example :
    Extra counting nothing (λ k. 0) (rsa_sha1 counting path path granting output nothing).1
    × Extra counting nothing (λ k. 0) (rsa_sha256 counting path path granting output nothing).1
    × Extra counting nothing
        (λ k. 0)
        (rsa_sha1_with_key counting (some 4) path granting output nothing).1
    × Extra counting nothing
        (λ k. 0)
        (rsa_sha256_with_key counting (some 4) path granting output nothing).1
    × Extra counting nothing
        (λ k. 0)
        (rsa_sha1_verify_with_key counting (some 4) path path nothing).1
    × Extra counting nothing
        (λ k. 0)
        (rsa_sha256_verify_with_key counting (some 4) path path nothing).1
signing_releases_example = signing_releases counting path path path (some 4) granting output nothing

signs_given : (rsa_sha256_with_key counting (some 4) path granting output nothing).0.0 ≡ ok
unfolding rsa_sha256_with_key s.Crypto.Sign.sign_given s.Crypto.Sign.sign_with s.Dynstr.check
signs_given = refl

signature_fits_example :
    Holds counting 3 (rsa_sha256_with_key counting (some 4) path granting output nothing).0.1
signature_fits_example =
    signature_fits counting 4 path granting output nothing (omega arith) (omega arith) signs_given

contexts-Balance_example :
    Contexts.Balance counting nothing (ssl_new_server counting path path nothing)
    × Contexts.Balance counting nothing
        (ssl_new_client counting none none (some path) (some path) nothing)
contexts-Balance_example =
    contexts-Balance counting path path none none (some path) (some path) nothing
