-- ===== src/Crypto/Tls.antt =====
-- src/80s/crypto.c: TLS contexts, and what the TLS calls on a connection report.
pub mod Contexts
pub mod Handshake
use s.Common.{if◌then◌else◌, ℕ, Bool, true, false, Option, none, some, List, [], ◌∷◌, ◌++◌}
use s.Crypto.Library.{
  Library, ssl_ctx, Maker, Call, ssl_ctx_new_server, ssl_ctx_new_client, use_certificate_file,
  use_private_key_file, check_private_key, set_cipher_list, set_ciphersuites, load_verify_locations,
}

-- The messages.
pub data Problem : Type 0 where
  no_context no_certificates no_public_key no_private_key mismatch no_cipher_mode : Problem

-- 0 with a context in `output_ctx`, or -1.
pub data Made : Type 0 where
  made : ℕ → Made
  failed : Problem → Made

-- The certificate's, the private key's and the match's checks.
abbrev pub key_checks : List ℕ → List ℕ → List (Call × Problem)
key_checks pubkey privkey =
    (use_certificate_file pubkey, no_public_key)
    ∷ (use_private_key_file privkey, no_private_key)
    ∷ (check_private_key, mismatch)
    ∷ []

-- The ciphers, of which the second list is set only if the first was.
abbrev pub cipher_checks : List (Call × Problem)
cipher_checks = (set_cipher_list, no_cipher_mode) ∷ (set_ciphersuites, no_cipher_mode) ∷ []

-- `"/etc/ssl/certs"`, where the caller gives no path.
abbrev pub default_path : List ℕ
default_path =
    b'/' ∷ b'e' ∷ b't' ∷ b'c' ∷ b'/' ∷ b's' ∷ b's' ∷ b'l' ∷ b'/' ∷ b'c' ∷ b'e' ∷ b'r' ∷ b't' ∷ b's'
    ∷ []

abbrev pub path_or_default : Option (List ℕ) → Option (List ℕ)
path_or_default none = some default_path
path_or_default (some p) = some p

-- A certificate of the client's own is loaded only where both files are given.
abbrev pub own_checks : Option (List ℕ) → Option (List ℕ) → List (Call × Problem)
own_checks (some pubkey) (some privkey) = key_checks pubkey privkey
own_checks _ _ = []

abbrev pub server_checks : List ℕ → List ℕ → List (Call × Problem)
server_checks pubkey privkey = key_checks pubkey privkey ++ cipher_checks

-- On a system with `/etc/ssl/certs` there is always a place to load certificates from.
abbrev pub client_checks :
    Option (List ℕ) → Option (List ℕ) → Option (List ℕ) → Option (List ℕ) → List (Call × Problem)
client_checks ca_file ca_path pubkey privkey =
    (load_verify_locations ca_file (path_or_default ca_path), no_certificates)
    ∷ (own_checks pubkey privkey ++ cipher_checks)

module _ (L : Library) where
  open L use {State, make, free, call}

  -- The calls in order; the first that fails frees the context and gives the message.
  unfoldable pub run_checks : ℕ → List (Call × Problem) → State → Made × State
  run_checks ctx [] s = (made ctx, s)
  run_checks ctx ((c, p) ∷ cs) s =
      let r = call c ctx s in
      let rest = run_checks ctx cs r.1 in if r.0 then rest else (failed p, free ssl_ctx ctx r.1)

  unfoldable pub new_ctx : Maker → List (Call × Problem) → State → Made × State
  unfolding run_checks
  new_ctx maker checks s =
      let r = make maker s in
      elim (r.0) [ none ↦ (failed no_context, r.1) | some ctx ↦ run_checks ctx checks r.1 ]

  unfoldable pub ssl_new_server : List ℕ → List ℕ → State → Made × State
  unfolding new_ctx
  ssl_new_server pubkey privkey = new_ctx ssl_ctx_new_server (server_checks pubkey privkey)

  unfoldable pub ssl_new_client :
      Option (List ℕ) → Option (List ℕ) → Option (List ℕ) → Option (List ℕ) → State → Made × State
  unfolding new_ctx
  ssl_new_client ca_file ca_path pubkey privkey =
      new_ctx ssl_ctx_new_client (client_checks ca_file ca_path pubkey privkey)

  unfoldable pub ssl_release : ℕ → State → State
  ssl_release ctx s = free ssl_ctx ctx s

-- The answers of `SSL_get_error` that the code tells apart.
pub data SslError : Type 0 where
  error_none want_read want_write other : SslError

-- `crypto_ssl_requests_io`: 0, 1 or -1.
pub data Io : Type 0 where
  idle wanted broken : Io

unfoldable pub ssl_requests_io : SslError → Io
ssl_requests_io error_none = idle
ssl_requests_io want_write = wanted
ssl_requests_io want_read = wanted
ssl_requests_io other = broken

-- What `crypto_ssl_read` reports beside the count: the flags that it sets, none where it leaves
-- one alone.
pub record Read : Type 0 where
  pub count : ℕ
  pub want_write : Option Bool
  pub error : Bool

unfoldable pub ssl_read : ℕ → SslError → Read
ssl_read n error_none = record { count = n; want_write = some false; error = false }
ssl_read n want_write = record { count = n; want_write = some true; error = false }
ssl_read n want_read = record { count = n; want_write = some true; error = false }
ssl_read n other = record { count = n; want_write = none; error = true }

-- `while ((err = ERR_get_error()) != 0)`: the message of the last error in the queue, which it
-- empties.
unfoldable pub last_message : List ℕ → Option ℕ → Option ℕ
last_message [] message = message
last_message (e ∷ es) message = last_message es (some e)

-- The return value of `crypto_ssl_accept` and `crypto_ssl_connect`: 0 and the flag, or -1 and a
-- message.
pub data Handshaken : Type 0 where
  agreed : Bool → Handshaken
  refused : Option ℕ → Handshaken

-- The two differ in the call that they make, whose error is `err`; `queue` is OpenSSL's.
unfoldable pub handshake : SslError → List ℕ → Handshaken
unfolding last_message
handshake error_none queue = agreed false
handshake want_write queue = agreed true
handshake want_read queue = agreed true
handshake other queue = refused (last_message queue none)

unfoldable pub ssl_accept : SslError → List ℕ → Handshaken
ssl_accept = handshake

unfoldable pub ssl_connect : SslError → List ℕ → Handshaken
ssl_connect = handshake
