-- ===== src/Args.antt =====
-- src/80s/80s.c: the command line, `get_arg`, `get_sz_arg` and `get_sz_arg_no_flag`.
pub mod Lines
pub mod Modules
mod Tests
use s.Common.{
  ◌==◌, if◌then◌else◌, get_or, ℕ, Bool, true, false, not, ◌&&◌, ◌||◌, Option, none, some, List, [],
  ◌∷◌,
}

-- `!strcmp(a, b)`
unfoldable pub same_text : List ℕ → List ℕ → Bool
same_text [] [] = true
same_text [] (y ∷ ys) = false
same_text (x ∷ xs) [] = false
same_text (x ∷ xs) (y ∷ ys) = x == y && same_text xs ys

-- The arguments stand without `argv[0]`: the loops begin at 1.
unfoldable pub has_flag : List ℕ → List (List ℕ) → Bool
has_flag arg [] = false
has_flag arg (a ∷ rest) = same_text a arg || has_flag arg rest

-- The loop up to `argc - 1`: what stands behind the first argument that is `arg`.
unfoldable pub find_value : List ℕ → List (List ℕ) → Option (List ℕ)
find_value arg [] = none
find_value arg (a ∷ []) = none
find_value arg (a ∷ v ∷ rest) =
    let later = find_value arg (v ∷ rest) in if same_text a arg then some v else later

-- `count == 0 && strcmp(text, "0")`
abbrev pub value_or : (List ℕ → ℕ) → ℕ → Option (List ℕ) → ℕ
value_or atoi default_value none = default_value
value_or atoi default_value (some t) =
    if atoi t == 0 && not (same_text t (b'0' ∷ [])) then default_value else atoi t

-- An `int` is its 32 bits; `atoi` is the C library's.
unfoldable pub get_arg : (List ℕ → ℕ) → List ℕ → ℕ → Bool → List (List ℕ) → ℕ
get_arg atoi arg default_value flag args =
    if flag
    then (if has_flag arg args then 1 else 0)
    else value_or atoi default_value (find_value arg args)

-- `env` is what `getenv` answers, none for a null pointer.
unfoldable pub get_sz_arg :
    List ℕ → List (List ℕ) → Option (List ℕ) → Option (List ℕ) → Option (List ℕ)
get_sz_arg arg args (some env) default_value = some env
get_sz_arg arg args none default_value = elim (find_value arg args) [
  | none ↦ default_value
  | some v ↦ some v
]

abbrev pub is_option : List ℕ → Bool
is_option a = get_or a 0 0 == b'-'

-- An option with one dash takes the next argument with it: `skip` tells that the last one was such.
unfoldable pub no_flag_from : Bool → List ℕ → List (List ℕ) → List ℕ
no_flag_from skip default_value [] = default_value
no_flag_from skip default_value (a ∷ rest) =
    let next = no_flag_from (not skip && not (get_or a 1 0 == b'-')) default_value rest in
    if skip || is_option a then next else a

unfoldable pub get_sz_arg_no_flag : List ℕ → List (List ℕ) → List ℕ
get_sz_arg_no_flag default_value args = no_flag_from false default_value args
