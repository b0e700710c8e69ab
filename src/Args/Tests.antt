-- ===== src/Args/Tests.antt =====
-- src/80s/80s.c: runs on a small command line.
use s.Common.{get_or, ℕ, ◌-◌, ◌≡◌, refl, true, List, [], ◌∷◌}
use s.Args.{get_arg, get_sz_arg_no_flag, value_or}
use s.Args.Lines.{Item, valued, long, render}

-- A number of one digit.
abbrev digit_of : List ℕ → ℕ
digit_of t = get_or t 0 0 - b'0'

abbrev option_c : List ℕ
option_c = b'-' ∷ b'c' ∷ []

-- -c 4 --cli
abbrev options : List Item
options = valued option_c (b'4' ∷ []) ∷ long (b'-' ∷ b'-' ∷ b'c' ∷ b'l' ∷ b'i' ∷ []) ∷ []

cli_given : get_arg digit_of (b'-' ∷ b'-' ∷ b'c' ∷ b'l' ∷ b'i' ∷ []) 0 true (render options) ≡ 1
unfolding get_arg s.Args.has_flag s.Args.same_text
cli_given = refl
