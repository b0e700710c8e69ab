-- ===== src/Loop/Kqueue/Delivery.antt =====
-- src/80s/serve.kqueue.c: what the handlers are given of a connection, and when it is closed.
use s.Common.{
  ltb, ◌==◌, if◌then◌else◌, Bool-cases, ℕ, ◌≡◌, refl, sym, ap, ◌∙◌, inl, inr, Bool, true, false,
  ◌&&◌, List, [], ◌∷◌, ◌++◌, append-nil, append_assoc, arith,
}
use s.Loop.{Action, on_write, reap_child, is_pipe, first_read}
use s.Loop.Closing.{AllWork, AllWork-append, received, received-append, until_end}
use s.Loop.Kqueue.{
  Filter, evfilt_read, evfilt_write, evfilt_proc, Kevent, shut, receive, drain_pipe, later_reads,
  on_read_event, on_write_event, on_filter,
}

-- The event closes the descriptor.
abbrev pub shuts : Filter → Kevent → Bool
shuts evfilt_read e = e.ended
shuts evfilt_write e = e.ended && is_pipe e.fdtype
shuts evfilt_proc e = false

same : (fd : ℕ) → (fd == fd) ≡ true
same fd = ground arith

receive-AllWork : (fd : ℕ) (t : List ℕ) → AllWork fd (receive fd t)
unfolding receive
receive-AllWork fd [] = tt
receive-AllWork fd (c ∷ cs) = (same fd, tt)

drain_pipe-AllWork : (fd : ℕ) (t : List ℕ) (rs : List (List ℕ)) → AllWork fd (drain_pipe fd t rs)
unfolding drain_pipe
drain_pipe-AllWork fd [] rs = tt
drain_pipe-AllWork fd (c ∷ cs) [] = tt
drain_pipe-AllWork fd (c ∷ cs) (r ∷ rs) =
    AllWork-append fd (receive fd r) (drain_pipe fd r rs) (receive-AllWork fd r)
      (drain_pipe-AllWork fd r rs)

on_read_event-shuts :
    (e : Kevent) (reads : List (List ℕ)) (ended pipe : Bool)
    → e.ended ≡ ended
    → is_pipe e.fdtype ≡ pipe
    → (work : List Action) × AllWork e.ident work
      × (on_read_event e reads ≡ work ++ (if ended then shut e.ident else []))
unfolding on_read_event
on_read_event-shuts e reads false p q r =
    (receive e.ident (first_read reads), receive-AllWork e.ident (first_read reads), rw q refl)
on_read_event-shuts e reads true false q r =
    (receive e.ident (first_read reads), receive-AllWork e.ident (first_read reads), rw (q, r) refl)
on_read_event-shuts e reads true true q r =
    let fd = e.ident in
    let first = first_read reads in
    (
      receive fd first ++ drain_pipe fd first (later_reads reads),
      AllWork-append fd (receive fd first) (drain_pipe fd first (later_reads reads))
          (receive-AllWork fd first) (drain_pipe-AllWork fd first (later_reads reads)),
      rw (q, r)
          (sym
            (append_assoc (receive fd first) (drain_pipe fd first (later_reads reads)) (shut fd))),
    )

received-receive : (fd : ℕ) (t : List ℕ) → received (receive fd t) ≡ t
unfolding receive
received-receive fd [] = refl
received-receive fd (c ∷ cs) = append-nil (c ∷ cs)

-- What is read until a read answers 0 or -1, the text of the first one in front.
received-drain_pipe :
    (fd : ℕ) (t : List ℕ) (rs : List (List ℕ))
    → t ++ received (drain_pipe fd t rs) ≡ until_end (t ∷ rs)
unfolding drain_pipe
received-drain_pipe fd [] rs = refl
received-drain_pipe fd (c ∷ cs) [] = refl
received-drain_pipe fd (c ∷ cs) (r ∷ rs) =
    ap (λ u. (c ∷ cs) ++ u)
      (received-append (receive fd r) (drain_pipe fd r rs)
        ∙ ap (λ u. u ++ received (drain_pipe fd r rs)) (received-receive fd r)
        ∙ received-drain_pipe fd r rs)

-- The text that an event gives to the handlers.
abbrev pub text_for : Kevent → List (List ℕ) → List ℕ
text_for e reads = if e.ended && is_pipe e.fdtype then until_end reads else first_read reads

until_end-later :
    (reads : List (List ℕ)) → until_end (first_read reads ∷ later_reads reads) ≡ until_end reads
until_end-later [] = refl
until_end-later (r ∷ rs) = refl

received-read :
    (e : Kevent) (reads : List (List ℕ)) (ended pipe : Bool)
    → e.ended ≡ ended
    → is_pipe e.fdtype ≡ pipe
    → received (on_read_event e reads) ≡ text_for e reads
unfolding on_read_event
received-read e reads false p q r =
    rw (q, append-nil (receive e.ident (first_read reads)))
      (received-receive e.ident (first_read reads))
received-read e reads true false q r =
    rw (q, r)
      (received-append (receive e.ident (first_read reads)) (shut e.ident)
        ∙ append-nil (received (receive e.ident (first_read reads)))
        ∙ received-receive e.ident (first_read reads))
received-read e reads true true q r =
    let fd = e.ident in
    let first = first_read reads in
    let more = drain_pipe fd first (later_reads reads) in
    rw (q, r)
      (received-append (receive fd first) (more ++ shut fd)
        ∙ rw (received-append more (shut fd), append-nil (received more), received-receive fd first)
            (received-drain_pipe fd first (later_reads reads) ∙ until_end-later reads))

-- An event that a descriptor can be read: the handlers are given what one read answers, or, where
-- it is a pipe that has ended, all that is read from it up to the first read that answers 0 or
-- -1.
pub read_event_delivers :
    (e : Kevent) (reads : List (List ℕ))
    → received (on_filter evfilt_read e reads) ≡ text_for e reads
unfolding on_filter
read_event_delivers e reads = received-read e reads e.ended (is_pipe e.fdtype) refl refl

on_write_event-shuts :
    (e : Kevent)
    → (work : List Action) × AllWork e.ident work
      × (on_write_event e ≡ work ++ (if e.ended && is_pipe e.fdtype then shut e.ident else []))
unfolding on_write_event
on_write_event-shuts e = elim (Bool-cases e.ended) [
  | inl y ↦ ([], tt, rw y refl)
  | inr n ↦ elim (Bool-cases (ltb 0 e.amount)) [
    | inl room ↦ (on_write e.ident ∷ [], (same e.ident, tt), rw (n, room) refl)
    | inr full ↦ ([], tt, rw (n, full) refl)
  ]
]

-- What an event of a connection, a pipe or a child process leaves: only work on it and then, just
-- where the event closes its descriptor, the close, once.
pub kevent_closes_once :
    (e : Kevent) (reads : List (List ℕ)) (filter : Filter)
    → (work : List Action) × AllWork e.ident work
      × (on_filter filter e reads ≡ work ++ (if shuts filter e then shut e.ident else []))
unfolding on_filter
kevent_closes_once e reads evfilt_read =
    on_read_event-shuts e reads e.ended (is_pipe e.fdtype) refl refl
kevent_closes_once e reads evfilt_write = on_write_event-shuts e
kevent_closes_once e reads evfilt_proc = (reap_child e.ident ∷ [], (same e.ident, tt), refl)
