-- ===== src/Loop/Balance.antt =====
-- src/80s/serve.epoll.c: accepted sockets are spread evenly over the workers.
use s.Common.{
  ltb, ◌==◌, if◌then◌else◌, Bool-cases, Sure, Sure-bind, Sure-some, Sure-map, ℕ, ◌+◌, ◌-◌, ◌≤◌, ◌<◌,
  ◌≡◌, refl, ap, ◌∙◌, ◌≢◌, inl, inr, Bool, true, false, not, ◌&&◌, Option, none, some, List, [],
  ◌∷◌, ◌++◌, arith,
}
use s.Mailbox.{Message, Mailbox, sent, mail, store, int_limit}
use s.Mailbox.Delivery.{IsValid}
use s.Mailbox.Delivery.Sends.{mail_sends}
use s.Loop.{
  Ready, Answers, Action, enable_async, rearm, remove, close, add, on_accept, on_receive, on_write,
  on_close, reap, reap_child, mailed, Loop, Memory, log, put_mailbox, next_worker, accept_message,
  hand_over, on_server, on_selfpipe, is_pipe, closing, on_writable, read_once, on_readable, drain,
  on_hung_up, on_connection, is_server, first_read, on_event,
}

abbrev is_some : Option ℕ → Bool
is_some none = false
is_some (some x) = true

-- The event accepts a socket.
abbrev pub accepts_one : Loop → Ready → Answers → Bool
accepts_one l e a =
    not (l.id == 0 && e.childfd == l.sigfd && e.input) && is_server e.fdtype && is_some a.accepted

-- The variables that choose a worker.
record Chosen (id workers next : ℕ) (l : Loop) : Type 0 where
  same_id : l.id ≡ id
  same_workers : l.workers ≡ workers
  moved : l.accepts ≡ next

abbrev AsItWas : Loop → ℕ → Loop → Type 0
AsItWas l next = Chosen l.id l.workers next

abbrev next_of : Loop → ℕ
next_of l = if l.accepts + 1 == l.workers then 0 else l.accepts + 1

unchanged : (l : Loop) → AsItWas l l.accepts l
unchanged l = record { same_id = refl; same_workers = refl; moved = refl }

logged : (l : Loop) (done : List Action) → AsItWas l l.accepts (log l done)
logged l done = record { same_id = refl; same_workers = refl; moved = refl }

hand_over-Chosen :
    (mem : Memory) (l : Loop) (parentfd childfd : ℕ) (p : Option ℕ)
    → Sure (AsItWas l l.accepts) (hand_over mem l parentfd childfd p)
unfolding hand_over
hand_over-Chosen mem l parentfd childfd none = unchanged l
hand_over-Chosen mem l parentfd childfd (some block) =
    Sure-map (AsItWas l l.accepts) _ _
      (λ r. record { same_id = refl; same_workers = refl; moved = refl })

placed-Chosen :
    (mem : Memory) (l : Loop) (parentfd childfd : ℕ) (p : Option ℕ) (done : List Action)
    (own : Bool)
    → Sure (AsItWas l l.accepts) (
        if own
        then some (log l done)
        else hand_over mem (log l (enable_async childfd ∷ [])) parentfd childfd p)
placed-Chosen mem l parentfd childfd p done true = record {
  same_id = refl;
  same_workers = refl;
  moved = refl;
}
placed-Chosen mem l parentfd childfd p done false =
    hand_over-Chosen mem (log l (enable_async childfd ∷ [])) parentfd childfd p

on_server-Chosen :
    (mem : Memory) (l : Loop) (parentfd : ℕ) (a : Answers) (o : Option ℕ)
    → Sure (AsItWas l (if is_some o then next_of l else l.accepts)) (on_server mem l parentfd a o)
unfolding on_server
on_server-Chosen mem l parentfd a none = unchanged l
on_server-Chosen mem l parentfd a (some childfd) =
    Sure-bind (AsItWas l l.accepts) (AsItWas l (next_of l)) _ _
      (placed-Chosen mem l parentfd childfd a.payload _ (l.accepts == l.id))
      (λ l' c. record {
        same_id = c.same_id;
        same_workers = c.same_workers;
        moved = rw (c.moved, c.same_workers) refl;
      })

on_selfpipe-Chosen :
    (mem : Memory) (l : Loop) (bytes : List ℕ)
    → Sure (AsItWas l l.accepts) (on_selfpipe mem l bytes)
unfolding on_selfpipe
on_selfpipe-Chosen mem l bytes =
    Sure-map (AsItWas l l.accepts) _ _
      (λ w. record { same_id = refl; same_workers = refl; moved = refl })

on_event-Chosen :
    (mem : Memory) (l : Loop) (e : Ready) (a : Answers)
    → Sure
        (λ r. AsItWas l (if accepts_one l e a then next_of l else l.accepts) r.0)
        (on_event mem l e a)
unfolding on_event
on_event-Chosen mem l e a = elim (Bool-cases (l.id == 0 && e.childfd == l.sigfd && e.input)) [
  | inl sig ↦ rw sig (logged l _)
  | inr nosig ↦ elim (Bool-cases (is_server e.fdtype)) [
    | inl server ↦
        rw (nosig, server)
          (Sure-bind (AsItWas l (if is_some a.accepted then next_of l else l.accepts)) _ _ _
            (on_server-Chosen mem l e.childfd a a.accepted) (λ l' c. c))
    | inr no_server ↦ elim (Bool-cases (e.childfd == l.selfpipe)) [
      | inl own ↦
          rw (nosig, no_server, own)
            (Sure-bind (AsItWas l l.accepts) _ _ _ (on_selfpipe-Chosen mem l (first_read a.reads))
              (λ l' c. c))
      | inr rest ↦ rw (nosig, no_server, rest) (logged l _)
    ]
  ]
]

-- How often a socket was added to a worker's epoll set.
abbrev pub added : ℕ → List Action → ℕ
added k [] = 0
added k (add w fd ∷ rest) = (if w == k then 1 else 0) + added k rest
added k (_ ∷ rest) = added k rest

-- The sockets that a worker gets between two states of a loop: those added to its epoll set, and,
-- in another worker's mailbox, the messages that have come.
abbrev pub handed : Loop → Loop → ℕ → ℕ
handed m r k =
    (added k r.actions - added k m.actions)
    + (if k == m.id then 0 else (r.mailboxes k).size - (m.mailboxes k).size)

-- The socket can be handed over: memory is granted, the mailbox is valid, and its array far from
-- the bounds of an `int`.
pub record CanGive (mem : Memory) (m : Loop) (a : Answers) : Type 0 where
  pub block : ℕ
  pub allocated : a.payload ≡ some block
  pub granted : (n : ℕ) → mem.realloc n ≡ true
  pub valid : IsValid (m.mailboxes m.accepts)
  pub far : (m.mailboxes m.accepts).reserved + 1000 < int_limit

added-append : (k : ℕ) (xs ys : List Action) → added k (xs ++ ys) ≡ added k xs + added k ys
added-append k [] ys = omega arith
added-append k (add w fd ∷ xs) ys = omega (arith, added-append k xs ys)
added-append k (enable_async fd ∷ xs) ys = added-append k xs ys
added-append k (rearm fd ∷ xs) ys = added-append k xs ys
added-append k (remove fd ∷ xs) ys = added-append k xs ys
added-append k (close fd ∷ xs) ys = added-append k xs ys
added-append k (on_accept w fd ∷ xs) ys = added-append k xs ys
added-append k (on_receive fd t ∷ xs) ys = added-append k xs ys
added-append k (on_write fd ∷ xs) ys = added-append k xs ys
added-append k (on_close fd ∷ xs) ys = added-append k xs ys
added-append k (reap ∷ xs) ys = added-append k xs ys
added-append k (reap_child pid ∷ xs) ys = added-append k xs ys
added-append k (mailed es ∷ xs) ys = added-append k xs ys

added-drain : (k fd : ℕ) (rs : List (List ℕ)) → added k (drain fd rs) ≡ 0
unfolding drain
added-drain k fd [] = refl
added-drain k fd ([] ∷ rs) = refl
added-drain k fd ((c ∷ cs) ∷ rs) = added-drain k fd rs

added-on_writable : (k : ℕ) (e : Ready) → added k (on_writable e) ≡ 0
unfolding on_writable
added-on_writable k e = elim (Bool-cases e.output) [
  | inr n ↦ rw n refl
  | inl y ↦ elim (Bool-cases (is_pipe e.fdtype)) [ inl p ↦ rw (y, p) refl | inr p ↦ rw (y, p) refl ]
]

added-read_once : (k fd : ℕ) (rs : List (List ℕ)) → added k (read_once fd rs).0 ≡ 0
unfolding read_once
added-read_once k fd [] = refl
added-read_once k fd ([] ∷ rs) = refl
added-read_once k fd ((c ∷ cs) ∷ rs) = refl

added-on_readable : (k : ℕ) (e : Ready) (a : Answers) → added k (on_readable e a).0 ≡ 0
unfolding on_readable
added-on_readable k e a = elim (Bool-cases (e.input && a.is_ready)) [
  | inl y ↦ rw y (added-read_once k e.childfd a.reads)
  | inr n ↦ rw n refl
]

added-on_hung_up :
    (k : ℕ) (e : Ready) (closed : Bool) (reads : List (List ℕ))
    → added k (on_hung_up e closed reads).0 ≡ 0
unfolding on_hung_up
added-on_hung_up k e closed reads = elim (Bool-cases (not closed && e.hup)) [
  | inr n ↦ rw n refl
  | inl y ↦ elim (Bool-cases (is_pipe e.fdtype)) [
    | inr p ↦ rw (y, p) refl
    | inl p ↦
        rw (y, p, added-append k (drain e.childfd reads) (closing e.childfd))
          (omega (arith, added-drain k e.childfd reads))
  ]
]

added-on_connection : (k : ℕ) (e : Ready) (a : Answers) → added k (on_connection e a).0 ≡ 0
unfolding on_connection
added-on_connection k e a =
    let got = on_readable e a in
    let ended = on_hung_up e got.1.0 got.1.1 in
    omega (
      arith,
      added-append k (on_writable e) (got.0 ++ ended.0),
      added-append k got.0 ended.0,
      added-on_writable k e,
      added-on_readable k e a,
      added-on_hung_up k e got.1.0 got.1.1,
    )

-- Just the worker whose turn it was gets a socket, if one is accepted.
abbrev Gives : Loop → Bool → Loop → Type 0
Gives m one r = (k : ℕ) → handed m r k ≡ (if one && k == m.accepts then 1 else 0)

log-Gives :
    (m : Loop) (done : List Action) → ((k : ℕ) → added k done ≡ 0) → Gives m false (log m done)
log-Gives m done none_added k = ground (arith, added-append k m.actions done, none_added k)

mail-size :
    (realloc : ℕ → Bool) (mb : Mailbox) (m : Message) (mb' : Mailbox)
    → mail realloc mb m ≡ some (mb', sent)
    → mb'.size ≡ mb.size + 1
unfolding mail store
mail-size realloc mb m mb' e = ground (arith, e)

own-Gives :
    (m : Loop) (childfd : ℕ)
    → m.accepts ≡ m.id
    → Gives m true (
        next_worker
          (log m (enable_async childfd ∷ add m.accepts childfd ∷ on_accept m.accepts childfd ∷ [])))
own-Gives m childfd own k = ground (
  arith,
  own,
  added-append k m.actions
      (enable_async childfd ∷ add m.accepts childfd ∷ on_accept m.accepts childfd ∷ []),
)

posted-Gives :
    (m : Loop) (childfd : ℕ) (mb : Mailbox)
    → m.accepts ≢ m.id
    → mb.size ≡ (m.mailboxes m.accepts).size + 1
    → Gives m true (
        next_worker (record (log m (enable_async childfd ∷ [])) {
          mailboxes = put_mailbox m.mailboxes m.accepts mb;
        }))
posted-Gives m childfd mb foreign more k = elim (Bool-cases (k == m.accepts)) [
  | inl y ↦
      let same : k ≡ m.accepts = ground arith in
      rw same (
        ground (arith, foreign, more, added-append m.accepts m.actions (enable_async childfd ∷ [])))
  | inr n ↦ ground (arith, n, added-append k m.actions (enable_async childfd ∷ []))
]

on_server-Gives :
    (mem : Memory) (m : Loop) (parentfd : ℕ) (a : Answers) (o : Option ℕ)
    → (is_some o ≡ true → CanGive mem m a)
    → Sure (Gives m (is_some o)) (on_server mem m parentfd a o)
unfolding on_server hand_over
on_server-Gives mem m parentfd a none can = λ k. ground arith
on_server-Gives mem m parentfd a (some childfd) can = elim (Bool-cases (m.accepts == m.id)) [
  | inl own ↦ rw own (own-Gives m childfd (ground arith))
  | inr foreign ↦
      let c = can refl in
      let letter = accept_message m parentfd childfd c.block in
      let (mb, e) = mail_sends mem.realloc (m.mailboxes m.accepts) letter c.valid c.granted c.far in
      rw (foreign, c.allocated, e)
        (posted-Gives m childfd mb (ground arith)
          (mail-size mem.realloc (m.mailboxes m.accepts) letter mb e))
]

on_selfpipe-Gives :
    (mem : Memory) (m : Loop) (bytes : List ℕ) → Sure (Gives m false) (on_selfpipe mem m bytes)
unfolding on_selfpipe
on_selfpipe-Gives mem m bytes =
    Sure-map (Gives m false) _ _
      (λ w k. ground (arith, added-append k m.actions (mailed w.events ∷ [])))

on_event-Gives :
    (mem : Memory) (m : Loop) (e : Ready) (a : Answers)
    → (accepts_one m e a ≡ true → CanGive mem m a)
    → Sure (λ r. Gives m (accepts_one m e a) r.0) (on_event mem m e a)
unfolding on_event
on_event-Gives mem m e a can = elim (Bool-cases (m.id == 0 && e.childfd == m.sigfd && e.input)) [
  | inl sig ↦ rw sig (log-Gives m (reap ∷ []) (λ k. refl))
  | inr nosig ↦ elim (Bool-cases (is_server e.fdtype)) [
    | inl server ↦
        rw (nosig, server)
          (Sure-bind (Gives m (is_some a.accepted)) _ _ _
            (on_server-Gives mem m e.childfd a a.accepted (λ y. can (rw (nosig, server) y)))
            (λ r c. c))
    | inr no_server ↦ elim (Bool-cases (e.childfd == m.selfpipe)) [
      | inl own ↦
          rw (nosig, no_server, own)
            (Sure-bind (Gives m false) _ _ _ (on_selfpipe-Gives mem m (first_read a.reads))
              (λ r c. c))
      | inr rest ↦
          rw (nosig, no_server, rest)
            (log-Gives m (on_connection e a).0 (λ k. added-on_connection k e a))
    ]
  ]
]

-- Events as they are handled one after the other, where each accepted socket can be handed over;
-- in between the other workers may send and take mail. The counts say how many sockets each
-- worker got.
pub data Run (mem : Memory) : Loop → (ℕ → ℕ) → Loop → Type 0 where
  start : {l : Loop} → Run mem l (λ k. 0) l
  event :
      {l m r : Loop} {given : ℕ → ℕ} (e : Ready) (a : Answers) (stop : Bool)
      → Run mem l given m
      → (accepts_one m e a ≡ true → CanGive mem m a)
      → on_event mem m e a ≡ some (r, stop)
      → Run mem l (λ k. given k + handed m r k) r
  elsewhere :
      {l m : Loop} {given : ℕ → ℕ} (mailboxes : ℕ → Mailbox)
      → Run mem l given m
      → Run mem l given (record m { mailboxes = mailboxes })

record Even (given : ℕ → ℕ) (workers : ℕ) (l : Loop) : Type 0 where
  rounds : ℕ
  same_workers : l.workers ≡ workers
  inside : l.accepts < workers
  counts : (k : ℕ) → k < workers → given k ≡ rounds + (if ltb k l.accepts then 1 else 0)
  outside : (k : ℕ) → workers ≤ k → given k ≡ 0

Even-ext :
    {f : ℕ → ℕ} (g : ℕ → ℕ) {workers : ℕ} {l : Loop}
    → ((k : ℕ) → g k ≡ f k)
    → Even f workers l
    → Even g workers l
Even-ext g same ev = record {
  rounds = ev.rounds;
  same_workers = ev.same_workers;
  inside = ev.inside;
  counts = λ k lt. same k ∙ ev.counts k lt;
  outside = λ k le. same k ∙ ev.outside k le;
}

Even-step :
    {given : ℕ → ℕ} {workers : ℕ} {m r : Loop} (one : Bool)
    → Even given workers m
    → AsItWas m (if one then next_of m else m.accepts) r
    → Even (λ k. given k + (if one && k == m.accepts then 1 else 0)) workers r
Even-step false ev c = record {
  rounds = ev.rounds;
  same_workers = ground (arith, ev.same_workers, c.same_workers);
  inside = omega (arith, ev.inside, c.moved);
  counts = λ k lt. rw c.moved (omega (arith, ev.counts k lt));
  outside = λ k le. omega (arith, ev.outside k le);
}
Even-step {given} {workers} {m} {r} true ev c = elim (Bool-cases (m.accepts + 1 == m.workers)) [
  | inl wraps ↦
      let z : r.accepts ≡ 0 = c.moved ∙ rw wraps refl in
      record {
        rounds = ev.rounds + 1;
        same_workers = ground (arith, ev.same_workers, c.same_workers);
        inside = omega (arith, ev.inside, z);
        counts = λ k lt. ground (arith, z, ev.counts k lt, ev.same_workers, ev.inside);
        outside = λ k le. ground (arith, ev.outside k le, ev.inside);
      }
  | inr goes ↦
      let z : r.accepts ≡ m.accepts + 1 = c.moved ∙ rw goes refl in
      record {
        rounds = ev.rounds;
        same_workers = ground (arith, ev.same_workers, c.same_workers);
        inside = ground (arith, ev.inside, z, ev.same_workers);
        counts = λ k lt. ground (arith, z, ev.counts k lt, ev.same_workers, ev.inside);
        outside = λ k le. ground (arith, ev.outside k le, ev.inside);
      }
]

run-Even :
    (mem : Memory) (l r : Loop) (given : ℕ → ℕ)
    → l.accepts ≡ 0
    → 0 < l.workers
    → Run mem l given r
    → Even given l.workers r
run-Even mem l r given z pos start = record {
  rounds = 0;
  same_workers = refl;
  inside = omega arith;
  counts = λ k lt. ground arith;
  outside = λ k le. refl;
}
run-Even mem l r given z pos (elsewhere ms run) =
    let ih = run-Even mem l _ given z pos run in
    record {
      rounds = ih.rounds;
      same_workers = ih.same_workers;
      inside = ih.inside;
      counts = ih.counts;
      outside = ih.outside;
    }
run-Even mem l r _ z pos (event {m} {given} e a stop run can is) =
    let one = accepts_one m e a in
    Even-ext _
      (λ k.
        ap (λ n. given k + n)
          (Sure-some (λ x. Gives m one x.0) (on_event-Gives mem m e a can) is k))
      (Even-step one (run-Even mem l m given z pos run) (
        Sure-some (λ x. AsItWas m (if one then next_of m else m.accepts) x.0)
          (on_event-Chosen mem m e a) is))

-- From a start with the first worker next, however the events come and whatever the other
-- workers do to the mailboxes in between, where memory is granted, the mailbox of the worker
-- whose turn it is is valid, and its array far from the bounds of an `int`, whenever a socket
-- is accepted: of the sockets, those added to the own epoll set and those posted to the mailbox
-- of another worker counted, no worker gets more than one more than another, and none goes to a
-- worker that is not there.
pub accepts_balanced :
    (mem : Memory) (l r : Loop) (given : ℕ → ℕ) (j k other : ℕ)
    → l.accepts ≡ 0
    → j < l.workers
    → k < l.workers
    → l.workers ≤ other
    → Run mem l given r
    → (given j ≤ given k + 1) × (given other ≡ 0)
accepts_balanced mem l r given j k other z hj hk out run =
    let ev = run-Even mem l r given z (omega arith) run in
    (ground (arith, ev.counts j hj, ev.counts k hk), ev.outside other out)
