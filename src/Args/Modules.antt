-- ===== src/Args/Modules.antt =====
-- src/80s/80s.c: `main` takes the list of modules, which stand behind `-m`, apart.
mod Tests
use s.Common.{
  ◌==◌, if◌then◌else◌, length, get_or, All, c_string, HasNoNul, ℕ, ◌<◌, ◌≡◌, Bool, false, not, ◌&&◌,
  List, [], ◌∷◌, ◌++◌,
}

-- The first loop: a comma becomes a NUL. There are four more bytes behind the list's.
abbrev pub with_nuls : List ℕ → List ℕ
with_nuls [] = 0 ∷ 0 ∷ 0 ∷ 0 ∷ []
with_nuls (c ∷ cs) = (if c == b',' then 0 else c) ∷ with_nuls cs

-- The second loop, for the bytes from `q` on, whether `p != q`, and the bytes from `p` on: the
-- paths of the modules. The buffer's end is not reached.
unfoldable pub split_list : List ℕ → Bool → List ℕ → List (List ℕ)
split_list q moved [] = []
split_list q moved (c ∷ cs) =
    let found = c == 0 && moved in
    let later = split_list (if found then cs else q) (not found) cs in
    let rest = if c == 0 && get_or cs 0 0 == 0 then [] else later in
    if found then c_string q ∷ rest else rest

unfoldable pub module_paths : List ℕ → List (List ℕ)
module_paths module_list = split_list (with_nuls module_list) false (with_nuls module_list)

-- The names with a comma between them.
abbrev pub join : List ℕ → List (List ℕ) → List ℕ
join name [] = name
join name (n ∷ ns) = name ++ b',' ∷ join n ns

-- A name is not empty and has neither a comma nor a NUL in it.
pub record IsName (name : List ℕ) : Type 0 where
  pub some_letter : 0 < length name
  pub no_nul : HasNoNul name
  pub no_comma : All (λ c. (c == b',') ≡ false) name

-- Behind a name: the NUL for its comma and the other names, or the last four.
abbrev behind : List (List ℕ) → List ℕ
behind [] = 0 ∷ 0 ∷ 0 ∷ 0 ∷ []
behind (n ∷ ns) = 0 ∷ with_nuls (join n ns)
