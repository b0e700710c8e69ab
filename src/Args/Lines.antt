-- ===== src/Args/Lines.antt =====
-- src/80s/80s.c: what is read from a command line of options and a script.
use s.Common.{
  ◌==◌, if◌then◌else◌, Bool-cases, get_or, All, ℕ, ◌≡◌, refl, sym, ap, ◌∙◌, inl, inr, Bool, true,
  false, not, ◌&&◌, Option, none, some, List, [], ◌∷◌, ◌++◌, arith,
}
use s.Args.{same_text, find_value, value_or, get_arg, is_option, no_flag_from, get_sz_arg_no_flag}

-- An option as it is meant: `-name value` or `--name`.
pub data Item : Type 0 where
  valued : List ℕ → List ℕ → Item
  long : List ℕ → Item

abbrev pub render : List Item → List (List ℕ)
render [] = []
render (valued name value ∷ items) = name ∷ value ∷ render items
render (long name ∷ items) = name ∷ render items

-- One dash, or two.
abbrev pub is_wellformed : Item → Bool
is_wellformed (valued name value) = is_option name && not (get_or name 1 0 == b'-')
is_wellformed (long name) = is_option name && get_or name 1 0 == b'-'

-- The value of the first option of a name.
abbrev pub lookup : List ℕ → List Item → Option (List ℕ)
lookup arg [] = none
lookup arg (valued name value ∷ items) = if same_text name arg then some value else lookup arg items
lookup arg (long name ∷ items) = lookup arg items

-- No value and no long option is spelled like the option that is looked for.
abbrev pub is_clear : List ℕ → Item → Bool
is_clear arg (valued name value) = not (same_text value arg)
is_clear arg (long name) = not (same_text name arg)

-- The entry point is the first argument that is neither an option nor an option's value.
pub entrypoint_found :
    (default_value script : List ℕ) (items : List Item) (rest : List (List ℕ))
    → All (λ i. is_wellformed i ≡ true) items
    → is_option script ≡ false
    → get_sz_arg_no_flag default_value (render items ++ script ∷ rest) ≡ script
unfolding get_sz_arg_no_flag no_flag_from
entrypoint_found d script [] rest ok h = rw h refl
entrypoint_found d script (valued name value ∷ items) rest ok h =
    let first : is_option name ≡ true = ground (arith, ok.0) in
    let second : (get_or name 1 0 == b'-') ≡ false = ground (arith, ok.0) in
    rw (first, second) (entrypoint_found d script items rest ok.1 h)
entrypoint_found d script (long name ∷ items) rest ok h =
    let first : is_option name ≡ true = ground (arith, ok.0) in
    let second : (get_or name 1 0 == b'-') ≡ true = ground (arith, ok.0) in
    rw (first, second) (entrypoint_found d script items rest ok.1 h)

find_value-skip :
    (arg a v : List ℕ) (xs : List (List ℕ))
    → same_text a arg ≡ false
    → find_value arg xs ≡ some v
    → find_value arg (a ∷ xs) ≡ some v
unfolding find_value
find_value-skip arg a v [] n e = e
find_value-skip arg a v (x ∷ xs) n e = rw n e

find_value-render :
    (arg v : List ℕ) (items : List Item) (rest : List (List ℕ))
    → All (λ i. is_clear arg i ≡ true) items
    → lookup arg items ≡ some v
    → find_value arg (render items ++ rest) ≡ some v
unfolding find_value
find_value-render arg v [] rest ok e = absurd (ground arith)
find_value-render arg v (valued name value ∷ items) rest ok e =
    elim (Bool-cases (same_text name arg)) [
      | inl y ↦ rw y (sym (rw y refl) ∙ e)
      | inr n ↦
          let later : lookup arg items ≡ some v = sym (rw n refl) ∙ e in
          let clear : same_text value arg ≡ false = ground (arith, ok.0) in
          rw n (
            find_value-skip arg value v (render items ++ rest) clear
              (find_value-render arg v items rest ok.1 later))
    ]
find_value-render arg v (long name ∷ items) rest ok e =
    find_value-skip arg name v (render items ++ rest) (ground (arith, ok.0))
      (find_value-render arg v items rest ok.1 e)

-- On a line of options and what follows them, where no value and no long option is spelled like
-- `arg`: the number that is read is the one of the first option of that name, which the line has.
pub get_arg_lem :
    (atoi : List ℕ → ℕ) (arg v : List ℕ) (default_value : ℕ) (items : List Item)
    (rest : List (List ℕ))
    → All (λ i. is_clear arg i ≡ true) items
    → lookup arg items ≡ some v
    → get_arg atoi arg default_value false (render items ++ rest)
      ≡ value_or atoi default_value (some v)
unfolding get_arg
get_arg_lem atoi arg v d items rest ok e =
    ap (value_or atoi d) (find_value-render arg v items rest ok e)
