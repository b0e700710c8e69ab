-- ===== src/Crypto/Balance.antt =====
-- src/80s/crypto.c: how the calls of OpenSSL change the number of live objects.
use s.Common.{ℕ, ◌+◌, ◌≡◌, refl, none, some, arith}
use s.Crypto.Library.{Library, Kind, file, bio, pkey, md_ctx, ssl_ctx, Maker, Call, same, kind}

pub same_self : (k : Kind) → same k k ≡ 1
same_self file = refl
same_self bio = refl
same_self pkey = refl
same_self md_ctx = refl
same_self ssl_ctx = refl

module _ (L : Library) where
  open L use {State, live, make, free, call, sign_final}

  -- Since `s0` so many objects of each kind have been made and not freed.
  pub record Extra (s0 : State) (f : Kind → ℕ) (s : State) : Type 0 where
    pub counts : (k : Kind) → live k s ≡ live k s0 + f k

  module _ {s0 s : State} (f : Kind → ℕ) (h : Extra s0 f s) where
    pub make_none-Extra : (m : Maker) → (make m s).0 ≡ none → Extra s0 f (make m s).1
    make_none-Extra m e = record {
      counts = λ k. omega (arith, h.counts k, L.live-make_none m s k e);
    }

    pub make_some-Extra :
        (m : Maker) (v : ℕ)
        → (make m s).0 ≡ some v
        → Extra s0 (λ k. f k + same k (kind m)) (make m s).1
    make_some-Extra m v e = record {
      counts = λ k. omega (arith, h.counts k, L.live-make_some m s k v e);
    }

    pub free-Extra :
        (g : Kind → ℕ) (j : Kind) (v : ℕ)
        → ((k : Kind) → f k ≡ g k + same k j)
        → Extra s0 g (free j v s)
    free-Extra g j v e = record {
      counts =
          λ k. omega (arith, h.counts k, h.counts j, e k, e j, same_self j, L.live-free j k v s);
    }

    pub call-Extra : (c : Call) (v : ℕ) → Extra s0 f (call c v s).1
    call-Extra c v = record { counts = λ k. omega (arith, h.counts k, L.live-call c v s k) }

    pub sign_final-Extra : (v room : ℕ) → Extra s0 f (sign_final v room s).1
    sign_final-Extra v room = record {
      counts = λ k. omega (arith, h.counts k, L.live-sign_final v room s k);
    }

  pub Extra-none : (s : State) → Extra s (λ k. 0) s
  Extra-none s = record { counts = λ k. omega arith }
