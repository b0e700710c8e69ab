-- ===== src/Loop/Closing.antt =====
-- src/80s/serve.epoll.c: what one event does to a connection, and when it ends it.
use s.Common.{
  ◌==◌, if◌then◌else◌, Bool-cases, All, ℕ, ◌≡◌, refl, ap, ◌∙◌, inl, inr, Bool, true, false, ◌&&◌,
  ◌||◌, List, [], ◌∷◌, ◌++◌, append-nil, append_assoc, arith,
}
use s.Loop.{
  Ready, Answers, Action, rearm, reap_child, on_receive, on_write, is_pipe, closing, on_writable,
  read_once, on_readable, drain, on_hung_up, on_connection,
}

-- `read` answers 0 or -1.
abbrev pub is_over : List (List ℕ) → Bool
is_over [] = true
is_over ([] ∷ rs) = true
is_over ((c ∷ cs) ∷ rs) = false

-- The event ends the connection: it has been read to its end, or it is hung up.
abbrev pub ends : Ready → Answers → Bool
ends e a = (e.input && a.is_ready && is_over a.reads) || e.hup

-- What is done to a descriptor that stays in the loop.
abbrev pub works_on : ℕ → Action → Bool
works_on fd (rearm k) = k == fd
works_on fd (on_receive k t) = k == fd
works_on fd (on_write k) = k == fd
works_on fd (reap_child k) = k == fd
works_on fd _ = false

abbrev pub AllWork : ℕ → List Action → Type 0
AllWork fd = All (λ x. works_on fd x ≡ true)

pub AllWork-append :
    (fd : ℕ) (xs ys : List Action) → AllWork fd xs → AllWork fd ys → AllWork fd (xs ++ ys)
AllWork-append fd [] ys p q = q
AllWork-append fd (x ∷ xs) ys p q = (p.0, AllWork-append fd xs ys p.1 q)

same : (fd : ℕ) → (fd == fd) ≡ true
same fd = ground arith

drain-AllWork : (fd : ℕ) (rs : List (List ℕ)) → AllWork fd (drain fd rs)
unfolding drain
drain-AllWork fd [] = tt
drain-AllWork fd ([] ∷ rs) = tt
drain-AllWork fd ((c ∷ cs) ∷ rs) = (same fd, drain-AllWork fd rs)

on_writable-AllWork : (e : Ready) → AllWork e.childfd (on_writable e)
unfolding on_writable
on_writable-AllWork e = elim (Bool-cases e.output) [
  | inr n ↦ rw n tt
  | inl y ↦ elim (Bool-cases (is_pipe e.fdtype)) [
    | inl p ↦ rw (y, p) (same e.childfd, tt)
    | inr p ↦ rw (y, p) (same e.childfd, (same e.childfd, tt))
  ]
]

-- The rest of a hung-up pipe.
abbrev rest_of : Ready → List (List ℕ) → List Action
rest_of e rs = if is_pipe e.fdtype then drain e.childfd rs else []

rest_of-AllWork : (e : Ready) (rs : List (List ℕ)) → AllWork e.childfd (rest_of e rs)
rest_of-AllWork e rs = elim (Bool-cases (is_pipe e.fdtype)) [
  | inl p ↦ rw p (drain-AllWork e.childfd rs)
  | inr p ↦ rw p tt
]

-- What follows the write.
abbrev after_write : Ready → Answers → List Action
after_write e a =
    (on_readable e a).0 ++ (on_hung_up e (on_readable e a).1.0 (on_readable e a).1.1).0

after_write_lem :
    (e : Ready) (a : Answers) (reads : List (List ℕ)) (read hup : Bool)
    → a.reads ≡ reads
    → (e.input && a.is_ready) ≡ read
    → e.hup ≡ hup
    → (work : List Action) × AllWork e.childfd work
      × (after_write e a ≡ work ++ (if ends e a then closing e.childfd else []))
unfolding on_readable read_once on_hung_up
after_write_lem e a reads false false r q h = ([], tt, rw (q, h) refl)
after_write_lem e a reads false true r q h =
    (rest_of e a.reads, rest_of-AllWork e a.reads, rw (q, h) refl)
after_write_lem e a [] true hup r q h = ([], tt, rw (q, r) refl)
after_write_lem e a ([] ∷ rs) true hup r q h = ([], tt, rw (q, r) refl)
after_write_lem e a ((c ∷ cs) ∷ rs) true false r q h =
    (on_receive e.childfd (c ∷ cs) ∷ [], (same e.childfd, tt), rw (q, r, h) refl)
after_write_lem e a ((c ∷ cs) ∷ rs) true true r q h = (
  on_receive e.childfd (c ∷ cs) ∷ rest_of e rs,
  (same e.childfd, rest_of-AllWork e rs),
  rw (q, r, h) refl,
)

-- What one event of a connection leaves: only work on its descriptor and then, just where the
-- event ends the connection, its removal, once.
pub closes_once :
    (e : Ready) (a : Answers)
    → (work : List Action) × AllWork e.childfd work
      × ((on_connection e a).0 ≡ work ++ (if ends e a then closing e.childfd else []))
unfolding on_connection
closes_once e a =
    let (work, all, is) =
      after_write_lem e a a.reads (e.input && a.is_ready) e.hup refl refl refl in
    (
      on_writable e ++ work,
      AllWork-append e.childfd (on_writable e) work (on_writable-AllWork e) all,
      rw (is, append_assoc) refl,
    )

-- The text that a handler is given.
abbrev text_of : Action → List ℕ
text_of (on_receive fd t) = t
text_of _ = []

-- The text that the handlers are given together.
abbrev pub received : List Action → List ℕ
received [] = []
received (x ∷ rest) = text_of x ++ received rest

-- All that is read, up to the end.
abbrev pub until_end : List (List ℕ) → List ℕ
until_end [] = []
until_end ([] ∷ rs) = []
until_end ((c ∷ cs) ∷ rs) = (c ∷ cs) ++ until_end rs

pub received-append : (xs ys : List Action) → received (xs ++ ys) ≡ received xs ++ received ys
received-append [] ys = refl
received-append (x ∷ xs) ys = rw (received-append xs ys, append_assoc)

received-drain : (fd : ℕ) (rs : List (List ℕ)) → received (drain fd rs) ≡ until_end rs
unfolding drain
received-drain fd [] = refl
received-drain fd ([] ∷ rs) = refl
received-drain fd ((c ∷ cs) ∷ rs) = ap (λ t. (c ∷ cs) ++ t) (received-drain fd rs)

received-ended : (fd : ℕ) (rs : List (List ℕ)) → received (drain fd rs ++ closing fd) ≡ until_end rs
received-ended fd rs =
    rw (received-append (drain fd rs) (closing fd), received-drain fd rs, append-nil) refl

received-on_writable : (e : Ready) → received (on_writable e) ≡ []
unfolding on_writable
received-on_writable e = ground arith

received-after_write :
    (e : Ready) (a : Answers) (reads : List (List ℕ)) (read : Bool)
    → a.reads ≡ reads
    → (e.input && a.is_ready) ≡ read
    → e.hup ≡ true
    → is_pipe e.fdtype ≡ true
    → received (after_write e a) ≡ until_end reads
unfolding on_readable read_once on_hung_up
received-after_write e a reads false r q h p = rw (q, h, p, r) (received-ended e.childfd reads)
received-after_write e a [] true r q h p = rw (q, r) refl
received-after_write e a ([] ∷ rs) true r q h p = rw (q, r) refl
received-after_write e a ((c ∷ cs) ∷ rs) true r q h p =
    rw (q, r, h, p) (ap (λ t. (c ∷ cs) ++ t) (received-ended e.childfd rs))

-- A pipe that is hung up, as when its child has ended: the handlers are given all that is read
-- from it, in order, up to the first read that answers 0 or -1, whether or not there was input to
-- read.
pub hung_up_pipe_delivers :
    (e : Ready) (a : Answers)
    → is_pipe e.fdtype ≡ true
    → e.hup ≡ true
    → received (on_connection e a).0 ≡ until_end a.reads
unfolding on_connection
hung_up_pipe_delivers e a p h =
    received-append (on_writable e) (after_write e a)
    ∙ (ap (λ t. t ++ received (after_write e a)) (received-on_writable e)
        ∙ received-after_write e a a.reads (e.input && a.is_ready) refl refl h p)
