-- ===== src/Common/Options.antt =====
-- `do` blocks over `Option`: `none` is a failure, or undefined behaviour of the C code.
use mathlib.Core.Option.{Option, none, some}
use mathlib.Core.Path.{◌≡◌, subst}

infixl 5 ◌>>=◌ ◌>>◌
abbrev pub ◌>>=◌ {ℓ κ} : {A : Type ℓ} {B : Type κ} → Option A → (A → Option B) → Option B
none >>= f = none
some a >>= f = f a

abbrev pub ◌>>◌ {ℓ κ} : {A : Type ℓ} {B : Type κ} → Option A → Option B → Option B
m >> k = m >>= λ _. k

-- A predicate of the result, where there is one.
abbrev pub Sure {ℓ κ} : {A : Type ℓ} → (A → Type κ) → Option A → Type κ
Sure P none = Unit
Sure P (some a) = P a

pub Sure-bind {ℓ κ ι} :
    {A B : Type ℓ} (P : A → Type κ) (Q : B → Type ι) (m : Option A) (f : A → Option B)
    → Sure P m
    → ((a : A) → P a → Sure Q (f a))
    → Sure Q (m >>= f)
Sure-bind P Q none f p k = tt
Sure-bind P Q (some a) f p k = k a p

pub Sure-some {ℓ κ} :
    {A : Type ℓ} (P : A → Type κ) {o : Option A} {a : A} → Sure P o → o ≡ some a → P a
Sure-some P p e = subst (Sure P) e p

pub Sure-map {ℓ κ} :
    {A B : Type ℓ} (Q : B → Type κ) (m : Option A) (g : A → B)
    → ((a : A) → Q (g a))
    → Sure Q (m >>= λ a. some (g a))
Sure-map Q none g h = tt
Sure-map Q (some a) g h = h a
