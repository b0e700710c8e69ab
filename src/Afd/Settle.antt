-- ===== src/Afd/Settle.antt =====
-- src/90s/afd.cpp: which writes are done once so many bytes are taken.
use s.Common.{
  ltb, leb, Bool-cases, length, ℕ, ◌+◌, ◌-◌, ◌≤◌, ◌<◌, ◌≡◌, refl, ap, ◌⊎◌, inl, inr, Bool, true,
  List, [], ◌∷◌, ◌++◌, arith,
}
use s.Afd.{BackBuffer, resolve_all, settle}

-- A call of `write`: its promise, and the data.
abbrev pub Call : Type 0
Call = ℕ × List ℕ

-- The bytes that are still to be taken.
abbrev pub owed : List BackBuffer → ℕ
owed [] = 0
owed (b ∷ bs) = b.length - b.sent + owed bs

-- The entries stand for these calls, in this order.
pub data Waits : List Call → List BackBuffer → Type 0 where
  waits_none : Waits [] []
  waits_for :
      (promise : ℕ) (text : List ℕ) (sent : ℕ) (calls : List Call) (bs : List BackBuffer)
      → sent ≤ length text
      → Waits calls bs
      → Waits
          ((promise, text) ∷ calls)
          (record { promise = promise; length = length text; sent = sent } ∷ bs)

abbrev pub AllUnsent : List BackBuffer → Type 0
AllUnsent [] = Unit
AllUnsent (b ∷ bs) = (b.sent ≡ 0) × AllUnsent bs

-- Of the entries at most the first is begun, and no entry is whole, unless it is empty.
abbrev pub Begun : List BackBuffer → Type 0
Begun [] = Unit
Begun (b ∷ bs) = ((b.sent < b.length) ⊎ ((b.length ≡ 0) × (b.sent ≡ 0))) × AllUnsent bs

abbrev pub answered : Bool → List Call → List (ℕ × Bool)
answered ok [] = []
answered ok ((promise, text) ∷ calls) = (promise, ok) ∷ answered ok calls

-- The calls that are done and those that go on waiting.
pub record Settled (written : ℕ) (calls : List Call) (bs : List BackBuffer) : Type 0 where
  pub finished : List Call
  pub left : List Call
  pub split : calls ≡ finished ++ left
  pub told : resolve_all true (settle written bs).0 ≡ answered true finished
  pub waits : Waits left (settle written bs).1
  pub balance : owed (settle written bs).1 + written ≡ owed bs
  pub begun : Begun (settle written bs).1

Unsent-Begun : (bs : List BackBuffer) → AllUnsent bs → Begun bs
Unsent-Begun [] u = tt
Unsent-Begun (b ∷ bs) u = elim (Bool-cases (ltb 0 b.length)) [
  | inl y ↦ (inl (ground (arith, u.0)), u.1)
  | inr n ↦ (inr (ground (arith, n), u.0), u.1)
]

pub settle-Settled :
    (written : ℕ) (calls : List Call) (bs : List BackBuffer)
    → Waits calls bs
    → written ≤ owed bs
    → Begun bs
    → Settled written calls bs
unfolding settle
settle-Settled written _ _ waits_none h g = record {
  finished = [];
  left = [];
  split = refl;
  told = refl;
  waits = waits_none;
  balance = omega arith;
  begun = tt;
}
settle-Settled written _ _ (waits_for promise text sent calls bs part w) h g =
    elim (Bool-cases (leb (length text) (sent + written))) [
      | inl full ↦
          let le : length text ≤ sent + written = ground (arith, full) in
          let ih =
            settle-Settled (written - (length text - sent)) calls bs w (omega (arith, le))
              (Unsent-Begun bs g.1) in
          record {
            finished = (promise, text) ∷ ih.finished;
            left = ih.left;
            split = ap (λ t. (promise, text) ∷ t) ih.split;
            told = rw full (ap (λ t. (promise, true) ∷ t) ih.told);
            waits = rw full ih.waits;
            balance = rw full (omega (arith, ih.balance, le, part));
            begun = rw full ih.begun;
          }
      | inr short ↦
          let lt : sent + written < length text = ground (arith, short) in
          elim (Bool-cases (ltb 0 written)) [
            | inl more ↦ record {
              finished = [];
              left = (promise, text) ∷ calls;
              split = refl;
              told = rw (short, more) refl;
              waits =
                  rw (short, more)
                    (waits_for promise text (sent + written) calls bs (omega arith) w);
              balance = rw (short, more) (omega (arith, lt));
              begun = rw (short, more) (inl lt, g.1);
            }
            | inr nothing ↦ record {
              finished = [];
              left = (promise, text) ∷ calls;
              split = refl;
              told = rw (short, nothing) refl;
              waits = rw (short, nothing) (waits_for promise text sent calls bs part w);
              balance = rw (short, nothing) (ground (arith, nothing));
              begun = rw (short, nothing) g;
            }
          ]
    ]
