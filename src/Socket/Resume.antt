-- ===== src/Socket/Resume.antt =====
-- src/80s/80s_common.c: when the rest of a write by `s80_write` is resumed.
use s.Common.{
  ltb, Bool-cases, size_mod, sub_size, ℕ, ◌+◌, ◌-◌, ◌^◌, ◌≤◌, ◌<◌, ◌≡◌, refl, ◌≢◌, ◌⊎◌, inl, inr,
  Bool, true, false, Option, none, some, arith,
}
use s.Socket.{minus_one, writelen, write_to}

-- For data of less than 2 ^ 31 bytes of which `write` takes a part that leaves bytes over,
-- `s80_write` subscribes for the next chance to write and returns the part's length, or returns -1
-- because `epoll_ctl` failed.
pub write_resumes :
    (write : ℕ → ℕ → Option ℕ) (epoll_ctl : Bool) (offset len n : ℕ)
    → len < 2 ^ 31
    → write offset (sub_size len offset) ≡ some n
    → offset + n < len
    → ((write_to write epoll_ctl offset len).subscribed ≡ true)
        × ((write_to write epoll_ctl offset len).result ≡ n)
      ⊎ (epoll_ctl ≡ false) × ((write_to write epoll_ctl offset len).result ≡ minus_one)
unfolding write_to writelen
write_resumes write epoll_ctl offset len n small e more = rw e (ground arith)

-- For data of less than 2 ^ 31 bytes of which `write` takes no more than asked: without a
-- subscription, a return other than -1 means that the data was all written, from its beginning.
pub write_completes :
    (write : ℕ → ℕ → Option ℕ) (epoll_ctl : Bool) (offset len n : ℕ)
    → offset ≤ len
    → len < 2 ^ 31
    → write offset (sub_size len offset) ≡ some n
    → n ≤ len - offset
    → (write_to write epoll_ctl offset len).subscribed ≡ false
    → (write_to write epoll_ctl offset len).result ≢ minus_one
    → (offset ≡ 0) × (n ≡ len) × ((write_to write epoll_ctl offset len).result ≡ n)
unfolding write_to writelen
write_completes write epoll_ctl offset len n le small e part not_sub ok =
    let q : ltb n len ≡ false = elim (Bool-cases (ltb n len)) [
      | inl below ↦ ground arith
      | inr f ↦ f
    ] in
    rw (e, q) (ground arith)

-- A `write` that answers -1, as one that would block does, makes `s80_write` return -1 without a
-- subscription, whatever `epoll_ctl` would say, for every length that a `size_t` holds.
pub write_blocked :
    (write : ℕ → ℕ → Option ℕ) (epoll_ctl : Bool) (offset len : ℕ)
    → len < size_mod
    → write offset (sub_size len offset) ≡ none
    → ((write_to write epoll_ctl offset len).subscribed ≡ false)
      × ((write_to write epoll_ctl offset len).result ≡ minus_one)
unfolding write_to writelen
write_blocked write epoll_ctl offset len small e =
    let f : ltb (size_mod - 1) len ≡ false = ground arith in rw e (rw f (refl, refl))
