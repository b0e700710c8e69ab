-- ===== src/Kmp/Agree.antt =====
-- Texts that agree, and what a row of the table says of the pattern.
use s.Common.{ℕ, suc, ◌+◌, ◌-◌, ◌≤◌, ◌<◌, ◌≡◌, sym, ap, ◌∙◌, arith}
use s.Kmp.{Table}

-- The first `n` letters of `p` stand in `h` from `s` on.
abbrev pub Agree : (ℕ → ℕ) → (ℕ → ℕ) → ℕ → ℕ → Type 0
Agree p h s n = (x : ℕ) → x < n → p x ≡ h (s + x)

-- A border: `p` shifted by `d` within a part of `h` that reads as `p`.
pub Agree-shift :
    (p h : ℕ → ℕ) (s n d b : ℕ) → Agree p h s n → Agree p p d b → d + b ≤ n → Agree p h (s + d) b
Agree-shift p h s n d b f g le x lt = g x lt ∙ f (d + x) (omega arith) ∙ ap h (omega arith)

-- Two occurrences that overlap make a border.
pub Agree-meet :
    (p h : ℕ → ℕ) (s n d b : ℕ) → Agree p h s n → Agree p h (s + d) b → d + b ≤ n → Agree p p d b
Agree-meet p h s n d b f g le x lt = g x lt ∙ ap h (omega arith) ∙ sym (f (d + x) (omega arith))

-- The row for `i`: the entry is -1 or a border of the first `i` letters, and each longer border
-- goes on with the letter that the prefix goes on with.
pub record Row (p : ℕ → ℕ) (t : Table) (i : ℕ) : Type 0 where
  pub short : t i ≤ i
  pub border : (b : ℕ) → t i ≡ suc b → Agree p p (i - b) b
  pub strong : (b : ℕ) → b < i → t i ≤ b → Agree p p (i - b) b → p b ≡ p i

abbrev pub Rows : (ℕ → ℕ) → Table → ℕ → Type 0
Rows p t n = (i : ℕ) → i < n → Row p t i
