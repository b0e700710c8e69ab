-- ===== src/Crypto/Tls/Handshake.antt =====
-- src/80s/crypto.c: the reports of reading, of a handshake and of `crypto_ssl_requests_io` agree.
use s.Common.{ℕ, ◌≡◌, refl, ap, true, false, Option, none, some, List, [], ◌∷◌, ◌++◌}
use s.Crypto.Tls.{
  SslError, error_none, want_read, want_write, other, Io, idle, wanted, broken, ssl_requests_io,
  Read, ssl_read, last_message, Handshaken, agreed, refused, ssl_accept, ssl_connect, handshake,
}

-- The last error of a queue that is not empty.
last_message-append : (es : List ℕ) (e : ℕ) (m : Option ℕ) → last_message (es ++ e ∷ []) m ≡ some e
unfolding last_message
last_message-append [] e m = refl
last_message-append (x ∷ es) e m = last_message-append es e (some x)

-- What the other reports say of an error, by what `crypto_ssl_requests_io` says of it.
abbrev pub Agrees : Io → Read → Handshaken → List ℕ → ℕ → Type 0
Agrees idle r h queue last = (r.error ≡ false) × (r.want_write ≡ some false) × (h ≡ agreed false)
Agrees wanted r h queue last = (r.error ≡ false) × (r.want_write ≡ some true) × (h ≡ agreed true)
Agrees broken r h queue last = (r.error ≡ true) × (r.want_write ≡ none) × (h ≡ refused (some last))

-- After any call, reading, accepting and connecting report an error exactly where
-- `crypto_ssl_requests_io` does, and ask for more input or output exactly where it does; the
-- message of a failed handshake is that of the last error in OpenSSL's queue.
pub reports_agree :
    (n : ℕ) (err : SslError) (queue : List ℕ) (last : ℕ)
    → Agrees (ssl_requests_io err) (ssl_read n err) (ssl_accept err (queue ++ last ∷ [])) queue last
      × Agrees
          (ssl_requests_io err)
          (ssl_read n err)
          (ssl_connect err (queue ++ last ∷ []))
          queue
          last
unfolding ssl_requests_io ssl_read ssl_accept ssl_connect handshake
reports_agree n error_none queue last = ((refl, refl, refl), (refl, refl, refl))
reports_agree n want_read queue last = ((refl, refl, refl), (refl, refl, refl))
reports_agree n want_write queue last = ((refl, refl, refl), (refl, refl, refl))
reports_agree n other queue last =
    let e : refused (last_message (queue ++ last ∷ []) none) ≡ refused (some last) =
      ap refused (last_message-append queue last none) in
    ((refl, refl, e), (refl, refl, e))
