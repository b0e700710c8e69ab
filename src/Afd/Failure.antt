-- ===== src/Afd/Failure.antt =====
-- src/90s/afd.cpp: what becomes of the writes when the descriptor is closed, and when it takes
-- all that waits.
use s.Common.{
  leb, Bool-cases, length, drop, length-append, Sure-some, ℕ, ◌+◌, ◌-◌, ◌≤◌, ◌<◌, ◌≡◌, refl, sym,
  ap, ap₂, ◌∙◌, ◌⊎◌, inl, inr, true, false, Option, some, List, [], ◌∷◌, ◌++◌, append-nil, arith,
}
use s.Afd.{
  BackBuffer, Afd, is_open, is_closed, is_nil, resolve_all, settle, account, accepted, taken,
  goes_on, tidy, on_write, write_rounds, handle_failure, on_close,
}
use s.Afd.Settle.{Call, owed, Waits, waits_none, waits_for, AllUnsent, Begun, answered}
use s.Afd.Stream.{
  account-IsSound, length-nil, length-drop, stream, unsent, IsSound, taken-IsSound,
  on_write-IsSound,
}
use s.Afd.Calls.{Run, run-IsSound, stream-append, on_the_wire}

told_of_failure :
    (calls : List Call) (bs : List BackBuffer)
    → Waits calls bs
    → resolve_all false bs ≡ answered false calls
told_of_failure _ _ waits_none = refl
told_of_failure _ _ (waits_for p text sent calls bs part w) =
    ap (λ t. (p, false) ∷ t) (told_of_failure calls bs w)

-- Of the writes that are left, the first has this much of its data taken: not all of it, unless
-- it has none.
abbrev pub Untaken : List ℕ → List Call → Type 0
Untaken ahead [] = ahead ≡ []
Untaken ahead ((promise, text) ∷ calls) =
    (length ahead < length text) ⊎ ((text ≡ []) × (ahead ≡ []))

unsent-owed :
    (calls : List Call) (bs : List BackBuffer)
    → Waits calls bs
    → AllUnsent bs
    → owed bs ≡ length (stream calls)
unsent-owed _ _ waits_none u = refl
unsent-owed _ _ (waits_for p text sent calls bs part w) u =
    omega (arith, u.0, unsent-owed calls bs w u.1, length-append text (stream calls))

Begun-Untaken :
    (calls : List Call) (bs : List BackBuffer) (ahead : List ℕ)
    → Waits calls bs
    → Begun bs
    → length ahead + owed bs ≡ length (stream calls)
    → Untaken ahead calls
Begun-Untaken _ _ ahead waits_none g e = length-nil ahead (omega (arith, e))
Begun-Untaken _ _ ahead (waits_for p text sent calls bs part w) g e =
    let rest = unsent-owed calls bs w g.1 in
    let len = length-append text (stream calls) in
    elim (g.0) [
      | inl short ↦ inl (omega (arith, e, rest, len, short, part))
      | inr empty ↦ inr (
        length-nil text empty.0,
        length-nil ahead (omega (arith, e, rest, len, empty.0, empty.1, part)),
      )
    ]

-- After any calls of `write` and `on_write` while it is open, on a descriptor that nothing was
-- written to before, the descriptor is closed for the first time: each call of `write` has then
-- been answered once, in order, first some with true, whose data is on the wire, and then the
-- others with false; of these the first is not wholly on the wire, unless its data is empty,
-- nothing of the later ones is, and none waits.
pub every_write_answered :
    (calls : List Call) (s : Afd)
    → Run calls s
    → is_closed s.state ≡ false
    → (finished left : List Call) × (ahead : List ℕ) × (calls ≡ finished ++ left)
      × (s.wire ≡ stream finished ++ ahead)
      × Untaken ahead left
      × ((on_close s).resolved ≡ answered true finished ++ answered false left)
      × ((on_close s).write_back_buffer_info ≡ [])
unfolding on_close handle_failure
every_write_answered calls s run o =
    let v = run-IsSound calls s run in
    let (ahead, e) = on_the_wire calls s v in
    let left_size : length ahead + owed s.write_back_buffer_info ≡ length (stream v.left) = omega (
      arith,
      v.balance,
      ap length e,
      ap length v.in_order,
      ap length (ap stream v.split ∙ stream-append v.finished v.left),
      length-append s.wire (unsent s),
      length-append (stream v.finished) ahead,
      length-append (stream v.finished) (stream v.left),
    ) in
    (
      v.finished,
      v.left,
      ahead,
      v.split,
      e,
      Begun-Untaken v.left s.write_back_buffer_info ahead v.waits v.begun left_size,
      rw o (ap₂ (λ x y. x ++ y) v.told (told_of_failure v.left s.write_back_buffer_info v.waits)),
      rw o refl,
    )

settle-all :
    (written : ℕ) (calls : List Call) (bs : List BackBuffer)
    → Waits calls bs
    → written ≡ owed bs
    → (settle written bs).1 ≡ []
unfolding settle
settle-all written _ _ waits_none e = refl
settle-all written _ _ (waits_for p text sent calls bs part w) e =
    let full : leb (length text) (sent + written) ≡ true = ground (arith, e, part) in
    rw full (settle-all (written - (length text - sent)) calls bs w (omega (arith, e)))

-- All that waits is taken, and accounted for.
account-all :
    (calls : List Call) (s : Afd) (late : ℕ)
    → IsSound calls late s
    → late ≡ length (unsent s)
    → (account late s).write_back_buffer_info ≡ []
unfolding account
account-all calls s late v e =
    settle-all late v.left s.write_back_buffer_info v.waits (e ∙ sym v.balance)

Waits-nil : (calls : List Call) (bs : List BackBuffer) → Waits calls bs → bs ≡ [] → calls ≡ []
Waits-nil _ _ waits_none e = refl
Waits-nil _ _ (waits_for p text sent calls bs part w) e = absurd (ground (arith, ap is_nil e))

complete :
    (calls : List Call) (s : Afd)
    → IsSound calls 0 s
    → s.write_back_buffer_info ≡ []
    → (s.resolved ≡ answered true calls) × (s.wire ≡ stream calls)
complete calls s v e =
    let none_left : v.left ≡ [] = Waits-nil v.left s.write_back_buffer_info v.waits e in
    let all : calls ≡ v.finished =
      v.split ∙ ap (λ t. v.finished ++ t) none_left ∙ append-nil v.finished in
    let empty : unsent s ≡ [] = length-nil (unsent s) (sym v.balance ∙ ap owed e) in
    (
      v.told ∙ ap (answered true) (sym all),
      sym (append-nil s.wire) ∙ ap (λ t. s.wire ++ t) (sym empty) ∙ v.in_order,
    )

settled_info : (s : Afd) → s.write_back_buffer_info ≡ [] → (tidy s).write_back_buffer_info ≡ []
settled_info s e = elim (Bool-cases (is_nil s.write_back_buffer_info)) [
  | inl y ↦ rw y e
  | inr n ↦ rw n e
]

-- The second round, after some bytes were taken.
last_round : (s : Afd) (late : ℕ) → 0 < late → write_rounds late s [] ≡ some (account late s)
unfolding write_rounds
last_round s late h =
    let stops : goes_on late (account late s) ≡ false = ground (arith, h) in rw stops refl

first_round :
    (s : Afd) (ok : ℕ)
    → goes_on 0 (account 0 s) ≡ true
    → write_rounds 0 s (some ok ∷ [])
      ≡ write_rounds
          (accepted ok (account 0 s))
          (taken (accepted ok (account 0 s)) (account 0 s))
          []
unfolding write_rounds
first_round s ok h = rw h refl

on_write-rounds :
    (s t : Afd) (answers : List (Option ℕ))
    → is_open s.state ≡ true
    → write_rounds 0 s answers ≡ some t
    → on_write 0 s answers ≡ some (tidy t)
unfolding on_write
on_write-rounds s t answers o e = rw (o, e) refl

account-unsent : (s : Afd) → unsent (account 0 s) ≡ unsent s
unfolding account
account-unsent s =
    let same : s.write_back_offset + 0 ≡ s.write_back_offset = omega arith in
    ap (λ i. drop i s.write_back_buffer) same

goes_on-unsent : (s : Afd) → 0 < length (unsent s) → goes_on 0 s ≡ true
goes_on-unsent s h = ground (arith, h, length-drop s.write_back_offset s.write_back_buffer)

-- After any calls of `write` and `on_write`, an open descriptor with data that waits becomes
-- writable and takes it all: `on_write` returns, every promise is kept, and all the data is on
-- the wire.
pub on_write_drains :
    (calls : List Call) (s : Afd) (ok : ℕ)
    → Run calls s
    → is_open s.state ≡ true
    → 0 < length (unsent s)
    → length (unsent s) ≤ ok
    → (t : Afd) × (on_write 0 s (some ok ∷ []) ≡ some t)
      × (t.resolved ≡ answered true calls)
      × (t.wire ≡ stream calls)
      × (t.write_back_buffer_info ≡ [])
on_write_drains calls s ok run o some_wait enough =
    let v = run-IsSound calls s run in
    let s1 = account 0 s in
    let v1 = account-IsSound calls 0 s v in
    let same : length (unsent s1) ≡ length (unsent s) = ap length (account-unsent s) in
    let k = accepted ok s1 in
    let all : k ≡ length (unsent s1) = omega (arith, enough, same) in
    let none_waits =
      account-all calls (taken k s1) k (taken-IsSound calls s1 k v1 (omega arith)) all in
    let t = account k (taken k s1) in
    let e : on_write 0 s (some ok ∷ []) ≡ some (tidy t) = on_write-rounds s t (some ok ∷ []) o (
      first_round s ok (goes_on-unsent s1 (omega (arith, some_wait, same)))
      ∙ last_round (taken k s1) k (omega (arith, all, some_wait, same))) in
    let sound = Sure-some (IsSound calls 0) (on_write-IsSound calls (some ok ∷ []) 0 s o v) e in
    let (told, wire) = complete calls (tidy t) sound (settled_info t none_waits) in
    (tidy t, e, told, wire, settled_info t none_waits)
