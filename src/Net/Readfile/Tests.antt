-- ===== src/Net/Readfile/Tests.antt =====
-- src/80s/lua_net.c: files on small inputs.
use s.Common.{
  leb, length, size_mod, ℕ, ◌-◌, ◌<◌, min, ◌≡◌, refl, true, false, none, some, List, [], ◌∷◌, arith,
}
use s.Dynstr.{Allocator, check, init}
use s.Net.Readfile.{buf_size, give_text, l_net_readfile}

abbrev granting : Allocator
granting = record { calloc = λ _. true; realloc = λ _. true }

-- A pipe, whose place `ftell` does not know: it answers -1, and the bytes that are read may be
-- more than `buf` has.
pipe_overruns :
    (content : List ℕ)
    → buf_size < length content
    → l_net_readfile granting (some (record { size = size_mod - 1; content = content })) ≡ none
unfolding l_net_readfile give_text check init
pipe_overruns content long =
    let over : leb (min (size_mod - 1) (length content)) buf_size ≡ false = ground (arith, long) in
    rw over refl

-- A file that became shorter after its size was asked for.
cut_file : l_net_readfile granting (some (record { size = 2; content = b'h' ∷ [] })) ≡ none
unfolding l_net_readfile give_text check init
cut_file = refl
