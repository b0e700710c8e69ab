-- ===== src/Afd/Stream.antt =====
-- src/90s/afd.cpp: what holds between the calls, and that `on_write` keeps it.
use s.Common.{
  Bool-cases, length, take, drop, take_append_drop, Sure, Sure-bind, ℕ, zero, suc, ◌+◌, ◌-◌, ◌≤◌,
  ◌≡◌, refl, sym, ap, ◌∙◌, inl, inr, true, false, Option, none, some, List, [], ◌∷◌, ◌++◌,
  append_assoc, arith,
}
use s.Afd.{
  BackBuffer, Afd, is_open, is_nil, account, accepted, taken, failed, goes_on, tidy, write_rounds,
  on_write,
}
use s.Afd.Settle.{Call, owed, Waits, Begun, answered, settle-Settled}

-- The data of the calls.
abbrev pub stream : List Call → List ℕ
stream [] = []
stream (c ∷ calls) = c.1 ++ stream calls

abbrev pub unsent : Afd → List ℕ
unsent s = drop s.write_back_offset s.write_back_buffer

-- After these calls of `write`: those that are `finished` have been answered, the others wait,
-- and the data is on the wire or in the buffer; `late` bytes at the beginning of the buffer's
-- rest are on the wire already, and not accounted for.
pub record IsSound (calls : List Call) (late : ℕ) (s : Afd) : Type 0 where
  pub finished : List Call
  pub left : List Call
  pub split : calls ≡ finished ++ left
  pub told : s.resolved ≡ answered true finished
  pub waits : Waits left s.write_back_buffer_info
  pub begun : Begun s.write_back_buffer_info
  pub balance : owed s.write_back_buffer_info ≡ length (unsent s)
  pub within : s.write_back_offset ≤ length s.write_back_buffer
  pub late_fits : late ≤ length (unsent s)
  pub in_order : s.wire ++ drop late (unsent s) ≡ stream calls

answered-append :
    (xs ys : List Call) → answered true (xs ++ ys) ≡ answered true xs ++ answered true ys
answered-append [] ys = refl
answered-append (x ∷ xs) ys = ap (λ t. (x.0, true) ∷ t) (answered-append xs ys)

drop-nil : (n : ℕ) → drop {A = ℕ} n [] ≡ []
drop-nil zero = refl
drop-nil (suc n) = refl

drop-drop : (m n k : ℕ) (xs : List ℕ) → m + n ≡ k → drop n (drop m xs) ≡ drop k xs
drop-drop zero n k xs e = let e' : n ≡ k = omega (arith, e) in ap (λ i. drop i xs) e'
drop-drop (suc m) n k [] e = drop-nil n ∙ sym (drop-nil k)
drop-drop (suc m) n zero (x ∷ xs) e = absurd (omega (arith, e))
drop-drop (suc m) n (suc k) (x ∷ xs) e = drop-drop m n k xs (omega (arith, e))

pub length-drop : (n : ℕ) (xs : List ℕ) → length (drop n xs) ≡ length xs - n
length-drop zero xs = omega arith
length-drop (suc n) [] = omega arith
length-drop (suc n) (x ∷ xs) = omega (arith, length-drop n xs)

pub account-IsSound :
    (calls : List Call) (late : ℕ) (s : Afd)
    → IsSound calls late s
    → IsSound calls 0 (account late s)
unfolding account
account-IsSound calls late s v =
    let p =
      settle-Settled late v.left s.write_back_buffer_info v.waits
        (omega (arith, v.balance, v.late_fits)) v.begun in
    record {
      finished = v.finished ++ p.finished;
      left = p.left;
      split =
          v.split
          ∙ ap (λ t. v.finished ++ t) p.split
          ∙ sym (append_assoc v.finished p.finished p.left);
      told = rw (v.told, p.told, answered-append) refl;
      waits = p.waits;
      begun = p.begun;
      balance = omega (
        arith,
        p.balance,
        v.balance,
        length-drop s.write_back_offset s.write_back_buffer,
        length-drop (s.write_back_offset + late) s.write_back_buffer,
      );
      within =
          omega (arith, v.late_fits, v.within, length-drop s.write_back_offset s.write_back_buffer);
      late_fits = omega arith;
      in_order =
          ap (λ t. s.wire ++ t)
            (sym (
              drop-drop s.write_back_offset late (s.write_back_offset + late) s.write_back_buffer
                refl))
          ∙ v.in_order;
    }

-- `s80_write` takes some of the bytes that wait.
pub taken-IsSound :
    (calls : List Call) (s : Afd) (ok : ℕ)
    → IsSound calls 0 s
    → ok ≤ length (unsent s)
    → IsSound calls ok (taken ok s)
taken-IsSound calls s ok v h = record {
  finished = v.finished;
  left = v.left;
  split = v.split;
  told = v.told;
  waits = v.waits;
  begun = v.begun;
  balance = v.balance;
  within = v.within;
  late_fits = h;
  in_order =
      append_assoc s.wire (take ok (unsent s)) (drop ok (unsent s))
      ∙ ap (λ t. s.wire ++ t) (take_append_drop ok (unsent s))
      ∙ v.in_order;
}

pub failed-IsSound : (calls : List Call) (s : Afd) → IsSound calls 0 s → IsSound calls 0 (failed s)
failed-IsSound calls s v = record {
  finished = v.finished;
  left = v.left;
  split = v.split;
  told = v.told;
  waits = v.waits;
  begun = v.begun;
  balance = v.balance;
  within = v.within;
  late_fits = v.late_fits;
  in_order = v.in_order;
}

pub length-nil : (xs : List ℕ) → length xs ≡ 0 → xs ≡ []
length-nil [] e = refl
length-nil (x ∷ xs) e = absurd (omega (arith, e))

tidy-IsSound :
    (calls : List Call) (s : Afd) (bs : List BackBuffer)
    → s.write_back_buffer_info ≡ bs
    → IsSound calls 0 s
    → IsSound calls 0 (tidy s)
tidy-IsSound calls s [] e v =
    let empty : unsent s ≡ [] = length-nil (unsent s) (sym v.balance ∙ ap owed e) in
    rw e (record {
      finished = v.finished;
      left = v.left;
      split = v.split;
      told = v.told;
      waits = rw e at v.waits;
      begun = tt;
      balance = refl;
      within = omega arith;
      late_fits = omega arith;
      in_order = ap (λ t. s.wire ++ t) (sym empty) ∙ v.in_order;
    })
tidy-IsSound calls s (b ∷ bs) e v =
    let some_wait : is_nil s.write_back_buffer_info ≡ false = ap is_nil e in rw some_wait v

-- Each round ends in a sound state.
write_rounds-IsSound :
    (calls : List Call) (answers : List (Option ℕ)) (late : ℕ) (s : Afd)
    → IsSound calls late s
    → Sure (IsSound calls 0) (write_rounds late s answers)
unfolding write_rounds
write_rounds-IsSound calls [] late s v =
    let v' = account-IsSound calls late s v in
    elim (Bool-cases (goes_on late (account late s))) [ inl y ↦ rw y tt | inr n ↦ rw n v' ]
write_rounds-IsSound calls (none ∷ answers) late s v =
    let v' = account-IsSound calls late s v in
    elim (Bool-cases (goes_on late (account late s))) [
      | inl y ↦ rw y (failed-IsSound calls (account late s) v')
      | inr n ↦ rw n v'
    ]
write_rounds-IsSound calls (some ok ∷ answers) late s v =
    let v' = account-IsSound calls late s v in
    let s' = account late s in
    elim (Bool-cases (goes_on late s')) [
      | inl y ↦ rw y (
          write_rounds-IsSound calls answers (accepted ok s') (taken (accepted ok s') s')
            (taken-IsSound calls s' (accepted ok s') v' (omega arith)))
      | inr n ↦ rw n v'
    ]

-- Whatever `s80_write` answers.
pub on_write-IsSound :
    (calls : List Call) (answers : List (Option ℕ)) (late : ℕ) (s : Afd)
    → is_open s.state ≡ true
    → IsSound calls late s
    → Sure (IsSound calls 0) (on_write late s answers)
unfolding on_write
on_write-IsSound calls answers late s o v = rw o (
    Sure-bind (IsSound calls 0) (IsSound calls 0) (write_rounds late s answers) _
      (write_rounds-IsSound calls answers late s v)
      (λ s' v'. tidy-IsSound calls s' s'.write_back_buffer_info refl v'))
