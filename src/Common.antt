-- ===== src/Common.antt =====
-- The names that the other modules share: the libraries', passed on, and those of three children.
mod Tests
mod Lists
mod Options
unfoldable pub use Tests.*
pub use Lists.*
pub use Options.*
pub use Prim.Native.Nat.{ℕ, zero, suc, ◌+◌, ◌-◌, ◌*◌, ◌/◌, ◌%◌, ◌^◌, ◌≤◌, ◌<◌, min}
pub use mathlib.Core.Path.{◌≡◌, refl, sym, ap, ap₂, subst, ◌∙◌}
pub use mathlib.Core.Logic.{◌≢◌, ◌↔◌, ◌⊎◌, inl, inr}
pub use mathlib.Core.Bool.{Bool, true, false, not, ◌&&◌, ◌||◌}
pub use mathlib.Core.Option.{Option, none, some}
pub use mathlib.Core.List.{List, [], ◌∷◌, ◌++◌, append-nil, append_assoc}
pub use native.Mathlib.Omega.{arith}

-- `size_t` has 64 bits; sums of sizes wrap.
abbrev pub size_mod : ℕ
size_mod = 2 ^ 64

-- A difference `a - b` of two `size_t` values.
abbrev pub sub_size : ℕ → ℕ → ℕ
sub_size a b = (a + size_mod - b) % size_mod

-- A C string: the bytes up to the first NUL, which stands behind them where the list ends without
-- one.
unfoldable pub c_string : List ℕ → List ℕ
c_string [] = []
c_string (c ∷ cs) = let rest = c_string cs in if c == 0 then [] else c ∷ rest

abbrev pub HasNoNul : List ℕ → Type 0
HasNoNul = All (λ c. (c == 0) ≡ false)

pub c_string-append : (text rest : List ℕ) → HasNoNul text → c_string (text ++ 0 ∷ rest) ≡ text
unfolding c_string
c_string-append [] rest h = refl
c_string-append (c ∷ cs) rest h = rw (h.0, c_string-append cs rest h.1) refl
