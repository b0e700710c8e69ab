-- ===== src/Codec/Json/Decode/Ends.antt =====
-- src/80s/lua_codec.c: the loop of `json_decode` ends on every text.
use s.Common.{
  ◌==◌, Bool-cases, length, get_or, ℕ, zero, suc, ◌+◌, ◌-◌, ◌*◌, ◌≤◌, ◌<◌, ◌≡◌, refl, ◌⊎◌, inl, inr,
  Bool, true, false, ◌||◌, some, List, arith,
}
use s.Dynstr.{Allocator}
use s.Codec.Json.Mode.{
  Mode, in_object, in_array, read_key, read_value, read_num, read_real, read_text,
}
use s.Codec.Json.Api.{Lua}
use s.Codec.Json.Machine.{is_digit}
use s.Codec.Json.Decode.{
  M, step_none, step_in_array, step_in_object, step_read_key, step_read_value, read_constant,
  step_read_num, step_read_real, step_read_text, step_mode, step, running, loop, start, enough_fuel,
}

-- The characters at which `none` and `read_value` change the state and leave the character.
abbrev opens : ℕ → Bool
opens c = c == b'{' || c == b'[' || c == b'-' || is_digit c

abbrev weight : Mode → Bool → ℕ
weight Mode.none true = 2
weight read_value true = 2
weight _ _ = 0

module _ (L : Lua) where
  -- The number that falls in each round.
  abbrev measure : List ℕ → M L → ℕ
  measure text m =
      64 * (length text - m.i)
      + m.level
      + weight (m.states (m.level - 1)) (opens (get_or text m.i 0))

  -- What a round leaves behind, unless it fails: the text goes on; or a state is left at a
  -- character that opens nothing; or the state changes at one that does, to a state without
  -- weight.
  abbrev Goes : ℕ → M L → M L → Type 0
  Goes c m m' =
      ((m.i < m'.i) × (m'.level ≤ m.level + 1))
      ⊎ ((m'.i ≡ m.i) × (m'.level + 1 ≡ m.level) × (opens c ≡ false))
      ⊎ ((m'.i ≡ m.i)
          × (m'.level ≤ m.level + 1)
          × (weight (m.states (m.level - 1)) (opens c) ≡ 2)
          × (weight (m'.states (m'.level - 1)) (opens c) ≡ 0))

  abbrev Round : ℕ → M L → M L → Type 0
  Round c m m' = m'.ok ≡ true → Goes c m m'

  step_none-Round :
      (c : ℕ) (m : M L)
      → 0 < m.level
      → m.states (m.level - 1) ≡ Mode.none
      → Round c m (step_none L c m)
  unfolding step_none
  step_none-Round c m l e ok = ground arith

  step_in_array-Round : (c : ℕ) (m : M L) → Round c m (step_in_array L c m)
  unfolding step_in_array
  step_in_array-Round c m ok = ground arith

  step_in_object-Round : (c : ℕ) (m : M L) → Round c m (step_in_object L c m)
  unfolding step_in_object
  step_in_object-Round c m ok = ground arith

  step_read_key-Round : (c : ℕ) (m : M L) → 0 < m.level → Round c m (step_read_key L c m)
  unfolding step_read_key
  step_read_key-Round c m l ok = ground arith

  step_read_value-Round :
      (text : List ℕ) (c : ℕ) (m : M L)
      → 0 < m.level
      → m.states (m.level - 1) ≡ read_value
      → Round c m (step_read_value L text c m)
  unfolding step_read_value read_constant
  step_read_value-Round text c m l e ok = ground arith

  step_read_num-Round : (c : ℕ) (m : M L) → 0 < m.level → Round c m (step_read_num L c m)
  unfolding step_read_num
  step_read_num-Round c m l ok = ground arith

  step_read_real-Round : (c : ℕ) (m : M L) → 0 < m.level → Round c m (step_read_real L c m)
  unfolding step_read_real
  step_read_real-Round c m l ok = ground arith

  step_read_text-Round :
      (a : Allocator) (text : List ℕ) (c : ℕ) (m : M L) → Round c m (step_read_text L a text c m)
  unfolding step_read_text
  step_read_text-Round a text c m ok = ground arith

  step_mode-Round :
      (a : Allocator) (text : List ℕ) (c : ℕ) (mode : Mode) (m : M L)
      → 0 < m.level
      → m.states (m.level - 1) ≡ mode
      → Round c m (step_mode L a text c mode m)
  unfolding step_mode
  step_mode-Round a text c Mode.none m l e = step_none-Round c m l e
  step_mode-Round a text c in_array m l e = step_in_array-Round c m
  step_mode-Round a text c in_object m l e = step_in_object-Round c m
  step_mode-Round a text c read_key m l e = step_read_key-Round c m l
  step_mode-Round a text c read_value m l e = step_read_value-Round text c m l e
  step_mode-Round a text c read_num m l e = step_read_num-Round c m l
  step_mode-Round a text c read_real m l e = step_read_real-Round c m l
  step_mode-Round a text c read_text m l e = step_read_text-Round a text c m

  weight-le : (mode : Mode) (b : Bool) → weight mode b ≤ 2
  weight-le Mode.none true = omega arith
  weight-le Mode.none false = omega arith
  weight-le read_value true = omega arith
  weight-le read_value false = omega arith
  weight-le in_object b = omega arith
  weight-le in_array b = omega arith
  weight-le read_key b = omega arith
  weight-le read_num b = omega arith
  weight-le read_real b = omega arith
  weight-le read_text b = omega arith

  weight-false : (mode : Mode) (b : Bool) → b ≡ false → weight mode b ≡ 0
  weight-false mode b e = rw e (go mode)
    where
      go : (mode : Mode) → weight mode false ≡ 0
      go Mode.none = refl
      go read_value = refl
      go other = refl

  measure-Goes :
      (text : List ℕ) (m m' : M L)
      → m.i < length text
      → Goes (get_or text m.i 0) m m'
      → measure text m' < measure text m
  measure-Goes text m m' h (inl p) =
      omega (arith, weight-le (m'.states (m'.level - 1)) (opens (get_or text m'.i 0)))
  measure-Goes text m m' h (inr (inl p)) =
      rw p.0
        (omega (arith, weight-false (m'.states (m'.level - 1)) (opens (get_or text m.i 0)) p.2))
  measure-Goes text m m' h (inr (inr p)) = rw p.0 (omega arith)

  step-measure :
      (a : Allocator) (text : List ℕ) (m : M L)
      → running L text m ≡ true
      → (step L a text m).ok ≡ true
      → measure text (step L a text m) < measure text m
  unfolding step running
  step-measure a text m r ok =
      measure-Goes text m (step_mode L a text (get_or text m.i 0) (m.states (m.level - 1)) m)
        (ground arith)
        (step_mode-Round a text (get_or text m.i 0) (m.states (m.level - 1)) m (ground arith) refl
          ok)

  running-ok : (text : List ℕ) (m : M L) → m.ok ≡ false → running L text m ≡ false
  unfolding running
  running-ok text m e = rw e

  loop-ends :
      (a : Allocator) (text : List ℕ) (fuel : ℕ) (m : M L)
      → measure text m + 1 < fuel
      → (m' : M L) × (loop L a text fuel m ≡ some m') × (running L text m' ≡ false)
  unfolding loop
  loop-ends a text zero m h = absurd (omega arith)
  loop-ends a text (suc zero) m h = absurd (omega arith)
  loop-ends a text (suc (suc fuel)) m h = elim (Bool-cases (running L text m)) [
    | inr done ↦ (m, rw done, done)
    | inl more ↦ elim (Bool-cases (step L a text m).ok) [
      | inl ok ↦ rw more (
          loop-ends a text (suc fuel) (step L a text m)
            (omega (arith, step-measure a text m more ok)))
      | inr bad ↦ (
        step L a text m,
        rw more (rw (running-ok text (step L a text m) bad)),
        running-ok text (step L a text m) bad,
      )
    ]
  ]

  start-measure :
      (text : List ℕ) (lua : L.State) → measure text (start L lua) + 1 < enough_fuel L text
  unfolding start
  start-measure text lua = omega (arith, weight-le Mode.none (opens (get_or text 0 0)))

  -- The fuel is enough: the loop of `json_decode` stops on every text.
  pub decode_loop-ends :
      (a : Allocator) (text : List ℕ) (lua : L.State)
      → (m : M L) × (loop L a text (enough_fuel L text) (start L lua) ≡ some m)
        × (running L text m ≡ false)
  decode_loop-ends a text lua =
      loop-ends a text (enough_fuel L text) (start L lua) (start-measure text lua)
