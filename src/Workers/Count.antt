-- ===== src/Workers/Count.antt =====
-- How many of the first workers have a property.
use s.Common.{
  ◌==◌, if◌then◌else◌, Bool-cases, ℕ, zero, suc, ◌+◌, ◌≤◌, ◌<◌, ◌≡◌, refl, ap, ap₂, subst, ◌≢◌, inl,
  inr, Bool, true, false, arith,
}

pub count : ℕ → (ℕ → Bool) → ℕ
count zero p = 0
count (suc n) p = count n p + (if p n then 1 else 0)

pub count-le : (n : ℕ) (p : ℕ → Bool) → count n p ≤ n
unfolding count
count-le zero p = omega arith
count-le (suc n) p = ground (arith, count-le n p)

pub count-ext : (n : ℕ) (p q : ℕ → Bool) → ((k : ℕ) → k < n → p k ≡ q k) → count n p ≡ count n q
unfolding count
count-ext zero p q h = refl
count-ext (suc n) p q h =
    ap₂ ◌+◌ (count-ext n p q (λ k lt. h k (omega arith)))
      (ap (λ b. if b then 1 else 0) (h n (omega arith)))

-- All of them, if as many as there are.
pub count-all : (n : ℕ) (p : ℕ → Bool) → count n p ≡ n → (k : ℕ) → k < n → p k ≡ true
unfolding count
count-all zero p e k lt = absurd (omega arith)
count-all (suc n) p e k lt = elim (Bool-cases (p n)) [
  | inl y ↦ elim (Bool-cases (k == n)) [
    | inl same ↦ ground (arith, y)
    | inr other ↦ count-all n p (ground (arith, y)) k (ground arith)
  ]
  | inr none' ↦ absurd (ground (arith, none', count-le n p))
]

-- One more has it.
pub count-gain :
    (n : ℕ) (p q : ℕ → Bool) (i : ℕ)
    → i < n
    → p i ≡ false
    → q i ≡ true
    → ((k : ℕ) → k ≢ i → q k ≡ p k)
    → count n q ≡ count n p + 1
unfolding count
count-gain zero p q i lt no' yes' same = absurd (omega arith)
count-gain (suc n) p q i lt no' yes' same = elim (Bool-cases (i == n)) [
  | inl last ↦
      let e : i ≡ n = ground arith in
      let below = count-ext n q p (λ k k_lt. same k (λ z. absurd (omega arith))) in
      let yes_n : q n ≡ true = subst (λ x. q x ≡ true) e yes' in
      let no_n : p n ≡ false = subst (λ x. p x ≡ false) e no' in ground (arith, below, yes_n, no_n)
  | inr before ↦
      let ih = count-gain n p q i (ground arith) no' yes' same in
      let top = same n (λ z. absurd (ground arith)) in ground (arith, ih, top)
]
