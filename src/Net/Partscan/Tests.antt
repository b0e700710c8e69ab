-- ===== src/Net/Partscan/Tests.antt =====
-- src/80s/lua_net.c: searches of scripts on small inputs.
use s.Common.{replicate, ℕ, ◌≡◌, refl, none, some, List, [], ◌∷◌}
use s.Kmp.{Result, kmp}
use s.Net.Partscan.{l_net_partscan}

abbrev abcab : List ℕ
abcab = b'a' ∷ b'b' ∷ b'c' ∷ b'a' ∷ b'b' ∷ []

abbrev bc : List ℕ
bc = b'b' ∷ b'c' ∷ []

found : l_net_partscan abcab bc 1 ≡ some (2, 2)
unfolding l_net_partscan kmp s.Kmp.build_from s.Kmp.build_step s.Kmp.fall_back
found = refl

-- What stands at the end may be the beginning of an occurrence.
begun : l_net_partscan abcab bc 3 ≡ some (5, 1)
unfolding l_net_partscan kmp s.Kmp.build_from s.Kmp.build_step s.Kmp.fall_back
begun = refl

-- Place 0 is the byte before the text.
before : l_net_partscan abcab bc 0 ≡ none
unfolding l_net_partscan kmp s.Kmp.build_from s.Kmp.build_step s.Kmp.fall_back
before = refl

-- A pattern that is too long for the table is reported at place 0.
too_long : l_net_partscan abcab (replicate 257 b'a') 1 ≡ some (0, 0)
unfolding l_net_partscan kmp s.Kmp.build_from s.Kmp.build_step s.Kmp.fall_back
too_long = refl
