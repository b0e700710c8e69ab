-- ===== src/Socket.antt =====
-- src/80s/80s_common.c: `s80_write`, a write that goes on when the socket is ready for more.
pub mod Resume
pub mod Calls
pub mod Connect
pub mod Outcomes
mod Tests
mod ConnectTests
use s.Common.{
  ltb, if◌then◌else◌, size_mod, sub_size, ℕ, ◌-◌, ◌%◌, ◌^◌, Bool, true, false, Option, none, some,
}

-- Whether the descriptor has been subscribed for EPOLLOUT, and the `int` that is returned, as its
-- 32 bits.
pub record Written : Type 0 where
  pub subscribed : Bool
  pub result : ℕ

-- -1 as an `int`
abbrev pub minus_one : ℕ
minus_one = 2 ^ 32 - 1

-- The answer of `write`, none for -1, kept in a `size_t`.
unfoldable pub writelen : Option ℕ → ℕ
writelen none = size_mod - 1
writelen (some n) = n

-- `s80_write`, with what `write` answers for a place in the data and a count, and whether
-- `epoll_ctl` succeeds. A `size_t` is never below 0, so the branch `writelen < 0` is never taken.
unfoldable pub write_to : (ℕ → ℕ → Option ℕ) → Bool → ℕ → ℕ → Written
write_to write epoll_ctl offset len =
    let n = writelen (write offset (sub_size len offset)) in
    if ltb n len
    then (if epoll_ctl
        then record { subscribed = true; result = n % 2 ^ 32 }
        else record { subscribed = false; result = minus_one })
    else record { subscribed = false; result = n % 2 ^ 32 }
