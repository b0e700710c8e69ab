-- ===== src/Afd/Calls.antt =====
-- src/90s/afd.cpp: the data of all writes reaches the descriptor in order, and a promise is kept
-- only once its data has.
use s.Common.{
  ltb, Bool-cases, length, get_or, drop, length-append, Sure, Sure-some, ℕ, zero, suc, ◌+◌, ◌≤◌,
  ◌≡◌, refl, sym, ap, ap₂, subst, ◌∙◌, inl, inr, true, Option, none, some, List, [], ◌∷◌, ◌++◌,
  append-nil, append_assoc, arith,
}
use s.Afd.{BackBuffer, Afd, is_open, is_nil, accepted, taken, queued, begin, write, on_write}
use s.Afd.Settle.{Call, owed, Waits, waits_none, waits_for, AllUnsent, Begun, answered}
use s.Afd.Stream.{stream, unsent, IsSound, taken-IsSound, failed-IsSound, on_write-IsSound}

Waits-snoc :
    (calls : List Call) (bs : List BackBuffer) (promise : ℕ) (text : List ℕ)
    → Waits calls bs
    → Waits
        (calls ++ (promise, text) ∷ [])
        (bs ++ record { promise = promise; length = length text; sent = 0 } ∷ [])
Waits-snoc _ _ promise text waits_none = waits_for promise text 0 [] [] (omega arith) waits_none
Waits-snoc _ _ promise text (waits_for p t sent calls bs part w) =
    waits_for p t sent (calls ++ (promise, text) ∷ [])
      (bs ++ record { promise = promise; length = length text; sent = 0 } ∷ []) part
      (Waits-snoc calls bs promise text w)

AllUnsent-snoc :
    (bs : List BackBuffer) (promise n : ℕ)
    → AllUnsent bs
    → AllUnsent (bs ++ record { promise = promise; length = n; sent = 0 } ∷ [])
AllUnsent-snoc [] promise n u = (refl, tt)
AllUnsent-snoc (b ∷ bs) promise n u = (u.0, AllUnsent-snoc bs promise n u.1)

Begun-snoc :
    (bs : List BackBuffer) (promise n : ℕ)
    → Begun bs
    → Begun (bs ++ record { promise = promise; length = n; sent = 0 } ∷ [])
Begun-snoc [] promise n g = elim (Bool-cases (ltb 0 n)) [
  | inl y ↦ (inl (ground arith), tt)
  | inr z ↦ (inr (ground (arith, z), refl), tt)
]
Begun-snoc (b ∷ bs) promise n g = (g.0, AllUnsent-snoc bs promise n g.1)

owed-snoc :
    (bs : List BackBuffer) (promise n : ℕ)
    → owed (bs ++ record { promise = promise; length = n; sent = 0 } ∷ []) ≡ owed bs + n
owed-snoc [] promise n = omega arith
owed-snoc (b ∷ bs) promise n = omega (arith, owed-snoc bs promise n)

stream-snoc :
    (calls : List Call) (promise : ℕ) (text : List ℕ)
    → stream (calls ++ (promise, text) ∷ []) ≡ stream calls ++ text
stream-snoc [] promise text = append-nil text
stream-snoc (c ∷ calls) promise text =
    ap (λ t. c.1 ++ t) (stream-snoc calls promise text) ∙ sym (append_assoc c.1 (stream calls) text)

drop-append_left : (n : ℕ) (xs ys : List ℕ) → n ≤ length xs → drop n (xs ++ ys) ≡ drop n xs ++ ys
drop-append_left zero xs ys h = refl
drop-append_left (suc n) [] ys h = absurd (omega arith)
drop-append_left (suc n) (x ∷ xs) ys h = drop-append_left n xs ys (omega arith)

queued-IsSound :
    (calls : List Call) (s : Afd) (promise : ℕ) (text : List ℕ)
    → IsSound calls 0 s
    → IsSound (calls ++ (promise, text) ∷ []) 0 (queued promise text s)
queued-IsSound calls s promise text v =
    let more = drop-append_left s.write_back_offset s.write_back_buffer text v.within in
    record {
      finished = v.finished;
      left = v.left ++ (promise, text) ∷ [];
      split =
          ap (λ t. t ++ (promise, text) ∷ []) v.split
          ∙ append_assoc v.finished v.left ((promise, text) ∷ []);
      told = v.told;
      waits = Waits-snoc v.left s.write_back_buffer_info promise text v.waits;
      begun = Begun-snoc s.write_back_buffer_info promise (length text) v.begun;
      balance = omega (
        arith,
        owed-snoc s.write_back_buffer_info promise (length text),
        v.balance,
        ap length more,
        length-append (unsent s) text,
      );
      within = omega (arith, v.within, length-append s.write_back_buffer text);
      late_fits = omega arith;
      in_order =
          ap (λ t. s.wire ++ t) more
          ∙ sym (append_assoc s.wire (unsent s) text)
          ∙ ap (λ t. t ++ text) v.in_order
          ∙ sym (stream-snoc calls promise text);
    }

begin-IsSound :
    (calls : List Call) (s : Afd) (answer : Option ℕ)
    → is_open s.state ≡ true
    → IsSound calls 0 s
    → Sure (IsSound calls 0) (begin s answer)
unfolding begin
begin-IsSound calls s none o v = failed-IsSound calls s v
begin-IsSound calls s (some ok) o v =
    let n = accepted ok s in
    let v' = taken-IsSound calls s n v (omega arith) in
    elim (Bool-cases (ltb 0 n)) [
      | inl y ↦ rw y (on_write-IsSound calls [] n (taken n s) o v')
      | inr z ↦
          let nothing : n ≡ 0 = ground (arith, z) in
          rw z (subst (λ k. IsSound calls k (taken n s)) nothing v')
    ]

write-IsSound :
    (calls : List Call) (s : Afd) (promise : ℕ) (text : List ℕ) (answer : Option ℕ)
    → is_open s.state ≡ true
    → IsSound calls 0 s
    → Sure (IsSound (calls ++ (promise, text) ∷ []) 0) (write promise text s answer)
unfolding write
write-IsSound calls s promise text answer o v =
    let v' = queued-IsSound calls s promise text v in
    elim (Bool-cases (is_nil s.write_back_buffer_info)) [
      | inl y ↦
          rw (o, y)
            (begin-IsSound (calls ++ (promise, text) ∷ []) (queued promise text s) answer o v')
      | inr n ↦ rw (o, n) v'
    ]

-- An `afd` that nothing was written to.
pub record IsFresh (s : Afd) : Type 0 where
  pub opened : is_open s.state ≡ true
  pub no_buffer : s.write_back_buffer ≡ []
  pub no_offset : s.write_back_offset ≡ 0
  pub no_info : s.write_back_buffer_info ≡ []
  pub no_wire : s.wire ≡ []
  pub none_resolved : s.resolved ≡ []

-- Calls of `write` while it is open, and of `on_write` by the event loop, whatever `s80_write`
-- answers.
pub data Run : List Call → Afd → Type 0 where
  starts : {s : Afd} → IsFresh s → Run [] s
  writes :
      {calls : List Call} {s t : Afd} (promise : ℕ) (text : List ℕ) (answer : Option ℕ)
      → Run calls s
      → is_open s.state ≡ true
      → write promise text s answer ≡ some t
      → Run (calls ++ (promise, text) ∷ []) t
  writable :
      {calls : List Call} {s t : Afd} (answers : List (Option ℕ))
      → Run calls s
      → is_open s.state ≡ true
      → on_write 0 s answers ≡ some t
      → Run calls t

fresh-IsSound : (s : Afd) → IsFresh s → IsSound [] 0 s
fresh-IsSound s v =
    let nothing : unsent s ≡ [] = rw (v.no_offset, v.no_buffer) refl in
    record {
      finished = [];
      left = [];
      split = refl;
      told = v.none_resolved;
      waits = rw v.no_info waits_none;
      begun = rw v.no_info tt;
      balance = ap owed v.no_info ∙ sym (ap length nothing);
      within = omega (arith, v.no_offset);
      late_fits = omega arith;
      in_order = ap₂ (λ x y. x ++ y) v.no_wire nothing;
    }

pub run-IsSound : (calls : List Call) (s : Afd) → Run calls s → IsSound calls 0 s
run-IsSound _ s (starts v) = fresh-IsSound s v
run-IsSound _ t (writes {calls} {s} promise text answer run o e) =
    Sure-some (IsSound (calls ++ (promise, text) ∷ []) 0)
      (write-IsSound calls s promise text answer o (run-IsSound calls s run)) e
run-IsSound calls t (writable {s = s} answers run o e) =
    Sure-some (IsSound calls 0) (on_write-IsSound calls answers 0 s o (run-IsSound calls s run)) e

Waits-owed :
    (calls : List Call) (bs : List BackBuffer) → Waits calls bs → owed bs ≤ length (stream calls)
Waits-owed _ _ waits_none = omega arith
Waits-owed _ _ (waits_for p text sent calls bs part w) =
    omega (arith, Waits-owed calls bs w, length-append text (stream calls))

pub stream-append : (xs ys : List Call) → stream (xs ++ ys) ≡ stream xs ++ stream ys
stream-append [] ys = refl
stream-append (x ∷ xs) ys =
    ap (λ t. x.1 ++ t) (stream-append xs ys) ∙ sym (append_assoc x.1 (stream xs) (stream ys))

-- Two ways to split a text.
longer-split :
    (xs ys zs ws : List ℕ)
    → xs ++ ys ≡ zs ++ ws
    → length xs ≤ length zs
    → (rest : List ℕ) × (zs ≡ xs ++ rest)
longer-split [] ys zs ws e h = (zs, refl)
longer-split (x ∷ xs) ys [] ws e h = absurd (omega arith)
longer-split (x ∷ xs) ys (z ∷ zs) ws e h =
    let first : x ≡ z = ap (λ t. get_or t 0 0) e in
    let (rest, q) = longer-split xs ys zs ws (ap (λ t. drop 1 t) e) (omega (arith, h)) in
    (rest, ap₂ (λ c t. c ∷ t) (sym first) q)

-- The data of the promises that are kept is on the wire.
pub on_the_wire :
    (calls : List Call) (s : Afd) (v : IsSound calls 0 s)
    → (ahead : List ℕ) × (s.wire ≡ stream v.finished ++ ahead)
on_the_wire calls s v =
    let whole : stream v.finished ++ stream v.left ≡ s.wire ++ unsent s =
      sym (stream-append v.finished v.left) ∙ sym (ap stream v.split) ∙ sym v.in_order in
    longer-split (stream v.finished) (stream v.left) s.wire (unsent s) whole (
      omega (
        arith,
        ap length whole,
        length-append (stream v.finished) (stream v.left),
        length-append s.wire (unsent s),
        v.balance,
        Waits-owed v.left s.write_back_buffer_info v.waits,
      ))

-- From an `afd` that nothing was written to, whatever is written while it is open, whenever
-- `on_write` comes and whatever `s80_write` answers: the calls of `write` are those whose
-- promises are kept, in order, and then those that wait; all their data is in order on the wire
-- and then in the buffer; and the data of the promises that are kept is on the wire.
pub writes_in_order :
    (calls : List Call) (s : Afd)
    → Run calls s
    → (finished left : List Call) × (sent_ahead : List ℕ) × (calls ≡ finished ++ left)
      × (s.resolved ≡ answered true finished)
      × (s.wire ++ unsent s ≡ stream calls)
      × (s.wire ≡ stream finished ++ sent_ahead)
writes_in_order calls s run =
    let v = run-IsSound calls s run in
    let (ahead, e) = on_the_wire calls s v in
    (v.finished, v.left, ahead, v.split, v.told, v.in_order, e)
