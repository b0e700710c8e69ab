-- ===== src/Socket/Tests.antt =====
-- src/80s/80s_common.c: runs of `s80_write`.
use s.Common.{ℕ, min, ◌≡◌, refl, ◌⊎◌, true, false, Option, none, some, arith}
use s.Socket.{minus_one, write_to}
use s.Socket.Resume.{write_resumes, write_blocked}

abbrev takes_three : ℕ → ℕ → Option ℕ
takes_three offset count = some (min 3 count)

abbrev would_block : ℕ → ℕ → Option ℕ
would_block offset count = none

part_taken : (write_to takes_three true 2 10).subscribed ≡ true
unfolding write_to s.Socket.writelen
part_taken = refl

write_resumes_example :
    ((write_to takes_three true 2 10).subscribed ≡ true)
      × ((write_to takes_three true 2 10).result ≡ 3)
    ⊎ (true ≡ false) × ((write_to takes_three true 2 10).result ≡ minus_one)
write_resumes_example = write_resumes takes_three true 2 10 3 (omega arith) refl (omega arith)

write_blocked_example :
    ((write_to would_block true 2 10).subscribed ≡ false)
    × ((write_to would_block true 2 10).result ≡ minus_one)
write_blocked_example = write_blocked would_block true 2 10 (omega arith) refl
