-- ===== src/Args/Modules/Tests.antt =====
-- src/80s/80s.c: lists of modules on small inputs.
use s.Common.{c_string, ℕ, ◌≡◌, refl, List, [], ◌∷◌, ◌++◌}
use s.Args.Modules.{module_paths, join}

abbrev a_so : List ℕ
a_so = b'a' ∷ b'.' ∷ []

abbrev b_so : List ℕ
b_so = b'b' ∷ b'.' ∷ []

-- Two commas end the list, so that the second module is never loaded.
empty_name : module_paths (a_so ++ b',' ∷ b',' ∷ b_so) ≡ a_so ∷ []
unfolding module_paths s.Args.Modules.split_list c_string
empty_name = refl

-- Behind a leading comma the path is empty.
leading_comma : module_paths (b',' ∷ a_so) ≡ [] ∷ []
unfolding module_paths s.Args.Modules.split_list c_string
leading_comma = refl
