-- ===== src/Loop/Accepted.antt =====
-- src/80s/serve.epoll.c and 80s_common.c: an accepted socket reaches the worker that it is for.
use s.Common.{
  ◌==◌, Bool-cases, ℕ, ◌+◌, ◌<◌, ◌≡◌, refl, ◌≢◌, inl, inr, true, some, [], ◌∷◌, ◌++◌, arith,
}
use s.Mailbox.{on_accept, epoll_add, freed, dispatch, int_limit}
use s.Mailbox.Delivery.{IsValid, Sent, mail-Sent}
use s.Mailbox.Delivery.Sends.{mail_sends}
use s.Loop.{
  Answers, Action, enable_async, add, Loop, Memory, log, put_mailbox, next_worker, accept_message,
  hand_over, on_server,
}

-- The socket is added to the loop's own epoll set and its handler called, or the message stands
-- at the end of the worker's mailbox, which is signaled, and once dispatched does the same there.
pub data Arrived (l : Loop) (parentfd childfd block : ℕ) (l' : Loop) : Type 0 where
  here :
      l.accepts ≡ l.id
      → l'.actions
        ≡ l.actions ++ enable_async childfd ∷ add l.id childfd ∷ Action.on_accept l.id childfd ∷ []
      → Arrived l parentfd childfd block l'
  posted :
      l.accepts ≢ l.id
      → Sent
          (l.mailboxes l.accepts)
          (accept_message l parentfd childfd block)
          (l'.mailboxes l.accepts)
      → ((k : ℕ) → k ≢ l.accepts → l'.mailboxes k ≡ l.mailboxes k)
      → dispatch (accept_message l parentfd childfd block)
        ≡ some (
            epoll_add (accept_message l parentfd childfd block)
            ∷ on_accept (accept_message l parentfd childfd block)
            ∷ freed block
            ∷ [])
      → Arrived l parentfd childfd block l'

dispatch_accept :
    (l : Loop) (parentfd childfd block : ℕ)
    → dispatch (accept_message l parentfd childfd block)
      ≡ some (
          epoll_add (accept_message l parentfd childfd block)
          ∷ on_accept (accept_message l parentfd childfd block)
          ∷ freed block
          ∷ [])
unfolding dispatch
dispatch_accept l parentfd childfd block = refl

-- Where memory is granted, the mailbox of the worker is valid and its array far from the bounds
-- of an `int`: the loop handles an accepted socket, and the socket arrives at the worker whose
-- turn it is.
pub accepted_socket_arrives :
    (mem : Memory) (l : Loop) (parentfd childfd block : ℕ) (a : Answers)
    → a.payload ≡ some block
    → IsValid (l.mailboxes l.accepts)
    → ((n : ℕ) → mem.realloc n ≡ true)
    → (l.mailboxes l.accepts).reserved + 1000 < int_limit
    → (l' : Loop) × (on_server mem l parentfd a (some childfd) ≡ some l')
      × Arrived l parentfd childfd block l'
unfolding on_server hand_over
accepted_socket_arrives mem l parentfd childfd block a p v g h =
    elim (Bool-cases (l.accepts == l.id)) [
      | inl own ↦
          let e : l.accepts ≡ l.id = ground arith in
          (
            next_worker (
                log l (
                  enable_async childfd
                  ∷ add l.accepts childfd
                  ∷ Action.on_accept l.accepts childfd
                  ∷ [])),
            rw own refl,
            here e (rw e refl),
          )
      | inr foreign ↦
          let m = accept_message l parentfd childfd block in
          let (mb, e) = mail_sends mem.realloc (l.mailboxes l.accepts) m v g h in
          (
            next_worker (record (log l (enable_async childfd ∷ [])) {
              mailboxes = put_mailbox l.mailboxes l.accepts mb;
            }),
            rw (foreign, p, e) refl,
            posted (ground arith)
                (let self : (l.accepts == l.accepts) ≡ true = ground arith in
                  rw self (mail-Sent mem.realloc (l.mailboxes l.accepts) m mb v e))
                (λ k n. ground (arith, n)) (dispatch_accept l parentfd childfd block),
          )
    ]
