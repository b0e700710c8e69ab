-- ===== src/Codec/Json/Decode/Height.antt =====
-- src/80s/lua_codec.c: what `json_decode` does to the height of the Lua stack.
use s.Common.{
  Bool-cases, get_or, ℕ, zero, suc, ◌-◌, ◌≤◌, ◌≡◌, refl, ap, subst, inl, inr, true, some, List,
  arith,
}
use s.Dynstr.{Allocator}
use s.Codec.Json.Api.{Lua}
use s.Codec.Json.Decode.Ends.{decode_loop-ends}
use s.Codec.Json.Decode.{M, step, running, loop, start, finish, outcome, json_decode}
use s.Codec.Json.Decode.Steady.{IsSteady, step_mode-Next}

module _ (L : Lua) where
  abbrev IsSteadyAt : List ℕ → M L → Type 0
  IsSteadyAt text m = IsSteady L (get_or text m.i 0) m

  step-IsSteady :
      (a : Allocator) (text : List ℕ) (m : M L)
      → running L text m ≡ true
      → IsSteadyAt text m
      → IsSteadyAt text (step L a text m)
  unfolding step running
  step-IsSteady a text m r h =
      step_mode-Next L a text (get_or text m.i 0) (m.states (m.level - 1)) m (ground arith) refl h _
        (ap (λ t. get_or text t 0))

  loop-IsSteady :
      (a : Allocator) (text : List ℕ) (fuel : ℕ) (m m' : M L)
      → loop L a text fuel m ≡ some m'
      → IsSteadyAt text m
      → IsSteadyAt text m'
  unfolding loop
  loop-IsSteady a text zero m m' e h = cc
  loop-IsSteady a text (suc fuel) m m' e h = elim (Bool-cases (running L text m)) [
    | inl more ↦
        loop-IsSteady a text fuel (step L a text m) m' (rw more at e)
          (step-IsSteady a text m more h)
    | inr done ↦ subst (λ t. IsSteadyAt text t) (let q : some m ≡ some m' = rw done at e in cc) h
  ]

  start-IsSteady :
      (text : List ℕ) (lua : L.State) → L.gettop lua ≡ 1 → IsSteadyAt text (start L lua)
  unfolding start
  start-IsSteady text lua e = record {
    base = omega arith;
    below = λ k p. absurd (omega arith);
    innermost = λ p q r. cc;
    no_text = λ k p. absurd (omega arith);
    text_inside = λ p q. cc;
  }

  finish-height : (m : M L) → 1 ≤ L.gettop m.lua → L.gettop (finish L m) ≡ 2
  unfolding finish
  finish-height m h = ground (
    arith,
    L.gettop-pop (L.gettop m.lua - 1) m.lua,
    L.gettop-pushnil m.lua,
    L.gettop-pushnil (L.pop (L.gettop m.lua - 1) m.lua),
  )

  -- Called with one value on the Lua stack, whose calls move its height as the manual says:
  -- on every text, whatever the allocator answers, `json_decode` ends, and either returns
  -- with exactly one value above the first, or is broken off because a call of Lua has not
  -- returned: one that has raised an error, or has found the stack full.
  pub json_decode-height :
      (a : Allocator) (text : List ℕ) (lua : L.State)
      → L.gettop lua ≡ 1
      → (r : L.State) × (json_decode L a text lua ≡ some (outcome L r)) × (L.gettop r ≡ 2)
  unfolding json_decode
  json_decode-height a text lua one =
      let (m, e, stopped) = decode_loop-ends L a text lua in
      (
        finish L m,
        rw e,
        finish-height m (loop-IsSteady a text _ _ m e (start-IsSteady text lua one)).base,
      )
