-- ===== src/Crypto/Tls/Contexts.antt =====
-- src/80s/crypto.c: a TLS context that cannot be set up is freed.
use s.Common.{Bool-cases, Option-cases, ℕ, ◌≡◌, refl, ap, inl, inr, Option, List, [], ◌∷◌, arith}
use s.Crypto.Library.{
  Library, Kind, ssl_ctx, Maker, Call, ssl_ctx_new_server, ssl_ctx_new_client, same, kind,
}
use s.Crypto.Balance.{Extra, Extra-none, make_none-Extra, make_some-Extra, free-Extra, call-Extra}
use s.Crypto.Tls.{
  Made, made, failed, Problem, server_checks, client_checks, run_checks, new_ctx, ssl_new_server,
  ssl_new_client,
}

module _ (L : Library) where
  open L use {State, make, free, call}

  -- One context more, or nothing.
  abbrev pub Balance : State → Made × State → Type 0
  Balance s0 (made ctx, s) = Extra L s0 (λ k. same k ssl_ctx) s
  Balance s0 (failed p, s) = Extra L s0 (λ k. 0) s

  run_checks-Balance :
      (s0 s : State) (f : Kind → ℕ) (ctx : ℕ) (checks : List (Call × Problem))
      → Extra L s0 f s
      → ((k : Kind) → f k ≡ same k ssl_ctx)
      → Balance s0 (run_checks L ctx checks s)
  unfolding run_checks
  run_checks-Balance s0 s f ctx [] h e = record { counts = λ k. omega (arith, h.counts k, e k) }
  run_checks-Balance s0 s f ctx ((c, p) ∷ cs) h e =
      let next = call-Extra L f h c ctx in
      let rest = run_checks-Balance s0 (call c ctx s).1 f ctx cs next e in
      elim (Bool-cases (call c ctx s).0) [
        | inl ok ↦ rw ok rest
        | inr bad ↦ rw bad (free-Extra L f next (λ k. 0) ssl_ctx ctx (λ k. omega (arith, e k)))
      ]

  new_ctx-Balance :
      (maker : Maker) (checks : List (Call × Problem)) (s : State)
      → kind maker ≡ ssl_ctx
      → Balance s (new_ctx L maker checks s)
  unfolding new_ctx
  new_ctx-Balance maker checks s is_ctx = elim (Option-cases (make maker s).0) [
    | inl q ↦ rw (q, new_ctx) (make_none-Extra L (λ k. 0) (Extra-none L s) maker q)
    | inr (ctx, q) ↦
        rw (q, new_ctx)
          (run_checks-Balance s (make maker s).1 _ ctx checks
            (make_some-Extra L (λ k. 0) (Extra-none L s) maker ctx q)
            (λ k. omega (arith, ap (same k) is_ctx)))
  ]

  -- Whatever OpenSSL answers at each step, making a server's or a client's context leaves one
  -- context more where it returns 0, and as many objects as there were where it returns -1.
  pub contexts-Balance :
      (pubkey privkey : List ℕ) (ca_file ca_path own own_key : Option (List ℕ)) (s : State)
      → Balance s (ssl_new_server L pubkey privkey s)
        × Balance s (ssl_new_client L ca_file ca_path own own_key s)
  unfolding ssl_new_server ssl_new_client
  contexts-Balance pubkey privkey ca_file ca_path own own_key s = (
    new_ctx-Balance ssl_ctx_new_server (server_checks pubkey privkey) s refl,
    new_ctx-Balance ssl_ctx_new_client (client_checks ca_file ca_path own own_key) s refl,
  )
