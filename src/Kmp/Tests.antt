-- ===== src/Kmp/Tests.antt =====
-- src/80s/algo.c: runs of the search, and the theorems on small inputs.
use s.Common.{ℕ, ◌≡◌, refl, inl, none, some, List, [], ◌∷◌, arith}
use s.Kmp.{Table, Result, build_kmp, kmp}
use s.Kmp.Search.{Answered, kmp_lem}

abbrev abab : List ℕ
abab = 97 ∷ 98 ∷ 97 ∷ 98 ∷ []

abbrev text : List ℕ
text = 97 ∷ 98 ∷ 97 ∷ 97 ∷ 98 ∷ 97 ∷ 98 ∷ 99 ∷ []

whole : kmp text abab 0 none ≡ some (record { offset = 3; length = 4 })
unfolding kmp s.Kmp.build_from s.Kmp.build_step s.Kmp.fall_back
whole = refl

beginning : kmp text (98 ∷ 99 ∷ 100 ∷ []) 0 none ≡ some (record { offset = 6; length = 2 })
unfolding kmp s.Kmp.build_from s.Kmp.build_step s.Kmp.fall_back
beginning = refl

absent : kmp text (100 ∷ 100 ∷ []) 0 none ≡ some (record { offset = 8; length = 0 })
unfolding kmp s.Kmp.build_from s.Kmp.build_step
absent = refl

letter : kmp text (99 ∷ []) 2 none ≡ some (record { offset = 7; length = 1 })
unfolding kmp s.Kmp.letter_result
letter = refl

no_pattern : kmp text [] 2 none ≡ some (record { offset = 8; length = 0 })
unfolding kmp
no_pattern = refl

-- A search for one letter from behind the end.
behind_end : kmp text (99 ∷ []) 9 none ≡ none
unfolding kmp
behind_end = refl

entries :
    build_kmp abab 0
      ∷ build_kmp abab 1
      ∷ build_kmp abab 2
      ∷ build_kmp abab 3
      ∷ build_kmp abab 4
      ∷ []
    ≡ 0 ∷ 1 ∷ 0 ∷ 1 ∷ 3 ∷ []
unfolding build_kmp s.Kmp.build_from s.Kmp.build_step s.Kmp.fall_back
entries = refl

kmp_lem_example : Answered text abab 1 (kmp text abab 1 none)
kmp_lem_example =
    kmp_lem text abab 1 none (omega arith) (omega arith) (omega arith) (omega arith)
      (inl (refl, omega arith))
