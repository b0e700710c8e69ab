-- ===== src/Mailbox/Delivery.antt =====
-- src/80s/80s_common.c and serve.epoll.c: no message is lost, doubled or reordered, and no
-- wake-up is lost, whatever the order in which workers send, read and resolve.
pub mod Arrival
pub mod Sends
use s.Common.{
  leb, ◌==◌, if◌then◌else◌, Bool-cases, Option-cases, length, take, drop, length-append,
  length-take, take-append, take_append_drop, ℕ, zero, ◌+◌, ◌≤◌, ◌<◌, ◌≡◌, refl, ◌≢◌, inl, inr,
  Bool, true, false, ◌||◌, Option, none, some, List, [], ◌∷◌, ◌++◌, append-nil, append_assoc, arith,
}
use s.Mailbox.{
  Message, Mailbox, Status, sent, refused, mail, store, take_mail, signal_mail, int_limit,
}

-- The messages that wait.
abbrev pub pending : Mailbox → List Message
pending mb = elim (mb.messages) [ none ↦ [] | some ms ↦ take mb.size ms ]

abbrev pub has_mail : List ℕ → Bool
has_mail [] = false
has_mail (b ∷ bs) = b == signal_mail || has_mail bs

-- No `realloc` was refused, and the entries in use are inside the array.
pub record IsValid (mb : Mailbox) : Type 0 where
  pub stored : (ms : List Message) × (mb.messages ≡ some ms) × (mb.size ≤ length ms)
  pub within : mb.size ≤ mb.reserved

-- A mailbox, the bytes that its worker has read from the pipe and not looked at yet, and the
-- messages sent and taken so far. `intact` as long as no `realloc` was refused and no wake-up
-- byte lost.
pub record System : Type 0 where
  pub mailbox : Mailbox
  pub read : List ℕ
  pub sent_before : List Message
  pub taken : List Message
  pub intact : Bool

-- The moves, each under the mailbox's lock. A worker takes the byte and then the lock; whoever
-- comes between those two could as well come before both.
pub data Step : System → System → Type 0 where
  send :
      (s : System) (realloc : ℕ → Bool) (m : Message) (mb : Mailbox)
      → mail realloc s.mailbox m ≡ some (mb, sent)
      → Step s (record s { mailbox = mb; sent_before = s.sent_before ++ m ∷ [] })
  -- `s80_mail` answers -1, and the messages that wait are lost
  refuse :
      (s : System) (realloc : ℕ → Bool) (m : Message) (mb : Mailbox)
      → mail realloc s.mailbox m ≡ some (mb, refused)
      → Step s (record s { mailbox = mb; intact = false })
  -- the message is sent, but `write` to the pipe fails
  unheard :
      (s : System) (realloc : ℕ → Bool) (m : Message) (mb : Mailbox)
      → mail realloc s.mailbox m ≡ some (mb, sent)
      → Step s (record s {
        mailbox = record mb { pipe = s.mailbox.pipe };
        sent_before = s.sent_before ++ m ∷ [];
        intact = false;
      })
  signal :
      (s : System) (b : ℕ)
      → Step s (record s { mailbox = record (s.mailbox) { pipe = s.mailbox.pipe ++ b ∷ [] } })
  read_pipe :
      (s : System) (n : ℕ)
      → s.read ≡ []
      → Step s (record s {
        read = take n s.mailbox.pipe;
        mailbox = record (s.mailbox) { pipe = drop n s.mailbox.pipe };
      })
  resolve :
      (s : System) (calloc : ℕ → Bool) (bs : List ℕ) (ms : List Message) (mb : Mailbox)
      → s.read ≡ signal_mail ∷ bs
      → take_mail calloc s.mailbox ≡ some (ms, mb)
      → Step s (record s { mailbox = mb; read = bs; taken = s.taken ++ ms })
  skip :
      (s : System) (b : ℕ) (bs : List ℕ)
      → s.read ≡ b ∷ bs
      → b ≢ signal_mail
      → Step s (record s { read = bs })

pub data Reach (s : System) : System → Type 0 where
  here : Reach s s
  next : {t u : System} → Reach s t → Step t u → Reach s u

pub record IsSound (s : System) : Type 0 where
  pub valid : IsValid s.mailbox
  pub in_order : s.sent_before ≡ s.taken ++ pending s.mailbox
  pub awake : 0 < s.mailbox.size → s.mailbox.signaled ≡ true
  pub heard : s.mailbox.signaled ≡ true → has_mail (s.read ++ s.mailbox.pipe) ≡ true

-- What `s80_mail` does to a valid mailbox, on success.
pub record Sent (mb : Mailbox) (m : Message) (mb' : Mailbox) : Type 0 where
  pub valid : IsValid mb'
  pub queued : pending mb' ≡ pending mb ++ m ∷ []
  pub signaled : mb'.signaled ≡ true
  pub woken : mb'.pipe ≡ (if mb.signaled then mb.pipe else mb.pipe ++ signal_mail ∷ [])

take-store :
    (n : ℕ) (ms : List Message) (m : Message)
    → n ≤ length ms
    → take (n + 1) (take n ms ++ m ∷ drop (n + 1) ms) ≡ take n ms ++ m ∷ []
take-store n ms m h = rw (← append_assoc (take n ms) (m ∷ []) (drop (n + 1) ms)) (
    take-append (n + 1) (take n ms ++ m ∷ []) (drop (n + 1) ms)
      (omega (arith, length-append (take n ms) (m ∷ []), length-take n ms)))

store-Sent :
    (mb : Mailbox) (m : Message) (mb' : Mailbox) (ms : List Message)
    → mb.messages ≡ some ms
    → mb.size ≤ length ms
    → mb.size < mb.reserved
    → store mb m ≡ some (mb', sent)
    → Sent mb m mb'
unfolding store
store-Sent mb m mb' ms e h k q = record {
  valid = record {
    stored = (
      take mb.size ms ++ m ∷ drop (mb.size + 1) ms,
      ground arith,
      ground (
        arith,
        length-append (take mb.size ms) (m ∷ drop (mb.size + 1) ms),
        length-take mb.size ms,
      ),
    );
    within = ground arith;
  };
  queued = ground (arith, take-store mb.size ms m h);
  signaled = ground arith;
  woken = ground arith;
}

pub mail-Sent :
    (realloc : ℕ → Bool) (mb : Mailbox) (m : Message) (mb' : Mailbox)
    → IsValid mb
    → mail realloc mb m ≡ some (mb', sent)
    → Sent mb m mb'
unfolding mail
mail-Sent realloc mb m mb' v e =
    let (ms, em, fit) = v.stored in
    elim (Bool-cases (leb mb.reserved mb.size)) [
      | inr room ↦ store-Sent mb m mb' ms em fit (ground arith) (ground arith)
      | inl full ↦
          let s =
            store-Sent (record mb { reserved = mb.reserved + 1000 }) m mb' ms em fit
              (omega (arith, v.within)) (ground arith) in
          record { valid = s.valid; queued = s.queued; signaled = s.signaled; woken = s.woken }
    ]

has_mail-append : (xs ys : List ℕ) → has_mail (xs ++ ys) ≡ (has_mail xs || has_mail ys)
has_mail-append [] ys = refl
has_mail-append (x ∷ xs) ys = ground (arith, has_mail-append xs ys)

has_mail-woken :
    (signaled : Bool) (read pipe pipe' : List ℕ)
    → (signaled ≡ true → has_mail (read ++ pipe) ≡ true)
    → pipe' ≡ (if signaled then pipe else pipe ++ signal_mail ∷ [])
    → has_mail (read ++ pipe') ≡ true
has_mail-woken true read pipe pipe' h e = rw e (h refl)
has_mail-woken false read pipe pipe' h e =
    ground (arith, has_mail-append read pipe', has_mail-append pipe (signal_mail ∷ []))

send-IsSound :
    (s : System) (realloc : ℕ → Bool) (m : Message) (mb : Mailbox)
    → mail realloc s.mailbox m ≡ some (mb, sent)
    → IsSound s
    → IsSound (record s { mailbox = mb; sent_before = s.sent_before ++ m ∷ [] })
send-IsSound s realloc m mb e h =
    let p = mail-Sent realloc s.mailbox m mb h.valid e in
    record {
      valid = p.valid;
      in_order = rw (h.in_order, p.queued, append_assoc);
      awake = λ _. p.signaled;
      heard = λ _. has_mail-woken s.mailbox.signaled s.read s.mailbox.pipe mb.pipe h.heard p.woken;
    }

pub pending-zero : (mb : Mailbox) → mb.size ≡ 0 → pending mb ≡ []
pending-zero mb e = elim (Option-cases mb.messages) [ inl q ↦ rw q | inr (ms, q) ↦ rw (q, e) ]

-- `resolve_mail` takes exactly what waits, and leaves an empty mailbox that is not signaled.
take_mail_lem :
    (calloc : ℕ → Bool) (mb : Mailbox) (ms : List Message) (mb' : Mailbox)
    → take_mail calloc mb ≡ some (ms, mb')
    → (ms ≡ pending mb) × (mb' ≡ record mb { size = 0; signaled = false })
unfolding take_mail
take_mail_lem calloc mb ms mb' e = ground (arith, pending-zero mb)

keeps_intact : {s t : System} → Step s t → t.intact ≡ true → s.intact ≡ true
keeps_intact (send s realloc m mb e) i = i
keeps_intact (refuse s realloc m mb e) i = cc
keeps_intact (unheard s realloc m mb e) i = cc
keeps_intact (signal s b) i = i
keeps_intact (read_pipe s n e) i = i
keeps_intact (resolve s calloc bs ms mb e t) i = i
keeps_intact (skip s b bs e ne) i = i

-- Every move that loses nothing keeps the mailbox sound.
Step-IsSound : {s t : System} → Step s t → t.intact ≡ true → IsSound s → IsSound t
Step-IsSound (send s realloc m mb e) i h = send-IsSound s realloc m mb e h
Step-IsSound (refuse s realloc m mb e) i h = cc
Step-IsSound (unheard s realloc m mb e) i h = cc
Step-IsSound (signal s b) i h = record {
  valid = record { stored = h.valid.stored; within = h.valid.within };
  in_order = h.in_order;
  awake = h.awake;
  heard = λ p. ground (
    arith,
    h.heard p,
    has_mail-append s.read s.mailbox.pipe,
    has_mail-append s.read (s.mailbox.pipe ++ b ∷ []),
    has_mail-append s.mailbox.pipe (b ∷ []),
  );
}
Step-IsSound (read_pipe s n e) i h = record {
  valid = record { stored = h.valid.stored; within = h.valid.within };
  in_order = h.in_order;
  awake = h.awake;
  heard = λ p. rw take_append_drop (rw e at h.heard p);
}
Step-IsSound (resolve s calloc bs ms mb e t) i h =
    let (taken, left) = take_mail_lem calloc s.mailbox ms mb t in
    rw (left, taken)
      (record {
        valid = record {
          stored = (h.valid.stored.0, h.valid.stored.1, omega arith);
          within = omega arith;
        };
        in_order = rw (
          h.in_order,
          pending-zero (record (s.mailbox) { size = 0; signaled = false }) refl,
          append-nil,
        );
        awake = λ p. absurd (omega arith);
        heard = λ p. cc;
      })
Step-IsSound (skip s b bs e ne) i h = record {
  valid = h.valid;
  in_order = h.in_order;
  awake = h.awake;
  heard = λ p. ground (arith, h.heard p);
}

pub Reach-IsSound : {s t : System} → IsSound s → Reach s t → t.intact ≡ true → IsSound t
Reach-IsSound h here i = h
Reach-IsSound h (next r st) i = Step-IsSound st i (Reach-IsSound h r (keeps_intact st i))

-- From a sound state, whatever the moves, as long as no `realloc` is refused and no `write` of
-- a wake-up byte fails: the messages taken, and then those that wait, are those sent, each once
-- and in order; and where one waits, a wake-up byte is on its way to the worker.
pub delivery :
    {s t : System}
    → IsSound s
    → Reach s t
    → t.intact ≡ true
    → (t.sent_before ≡ t.taken ++ pending t.mailbox)
      × (0 < t.mailbox.size → has_mail (t.read ++ t.mailbox.pipe) ≡ true)
delivery h r i = let k = Reach-IsSound h r i in (k.in_order, λ p. k.heard (k.awake p))
