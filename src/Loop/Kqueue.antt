-- ===== src/Loop/Kqueue.antt =====
-- src/80s/serve.kqueue.c: the event loop where there is kqueue. Its variables are those of
-- `Loop`; there is no `sigfd`.
pub mod Delivery
pub mod Platforms
mod Tests
use s.Common.{
  ltb, ◌==◌, if◌then◌else◌, ◌>>=◌, ℕ, Bool, true, false, Option, none, some, List, [], ◌∷◌, ◌++◌,
}
use s.Mailbox.{Message, mail, mb_accept}
use s.Loop.{
  FdType, Answers, Action, enable_async, add, on_accept, on_receive, on_write, on_close, close,
  reap_child, Loop, Memory, log, put_mailbox, next_worker, first_read, is_pipe, is_server,
  on_selfpipe,
}

pub data Filter : Type 0 where
  evfilt_read evfilt_write evfilt_proc : Filter

-- An event of `kevent`: `ended` is EV_EOF or EV_ERROR, `amount` its `data`.
pub record Kevent : Type 0 where
  pub ident : ℕ
  pub fdtype : FdType
  pub filter : Filter
  pub ended : Bool
  pub amount : ℕ

-- kqueue forgets a descriptor that is closed.
abbrev pub shut : ℕ → List Action
shut fd = close fd ∷ on_close fd ∷ []

-- `case EVFILT_WRITE`
unfoldable pub on_write_event : Kevent → List Action
on_write_event e =
    if e.ended
    then (if is_pipe e.fdtype then shut e.ident else [])
    else if ltb 0 e.amount
    then on_write e.ident ∷ []
    else []

-- `if(readlen > 0)`
unfoldable pub receive : ℕ → List ℕ → List Action
receive fd [] = []
receive fd (c ∷ cs) = on_receive fd (c ∷ cs) ∷ []

-- `while(fdtype == S80_FD_PIPE && readlen > 0)`, after a read of `buf`.
unfoldable pub drain_pipe : ℕ → List ℕ → List (List ℕ) → List Action
unfolding receive
drain_pipe fd [] rs = []
drain_pipe fd (c ∷ cs) [] = []
drain_pipe fd (c ∷ cs) (r ∷ rs) = receive fd r ++ drain_pipe fd r rs

-- The answers of `read` after the first.
abbrev pub later_reads : List (List ℕ) → List (List ℕ)
later_reads [] = []
later_reads (r ∷ rs) = rs

-- `case EVFILT_READ`; `recvmsg` stands for `read` where the kernel does the encryption.
unfoldable pub on_read_event : Kevent → List (List ℕ) → List Action
unfolding receive drain_pipe
on_read_event e reads =
    receive e.ident (first_read reads)
    ++ (if e.ended
        then (if is_pipe e.fdtype
            then drain_pipe e.ident (first_read reads) (later_reads reads)
            else [])
          ++ shut e.ident
        else [])

-- `switch (events[n].filter)`
unfoldable pub on_filter : Filter → Kevent → List (List ℕ) → List Action
unfolding on_write_event on_read_event
on_filter evfilt_write e reads = on_write_event e
on_filter evfilt_read e reads = on_read_event e reads
on_filter evfilt_proc e reads = reap_child e.ident ∷ []

-- `message` is filled in and sent, if there is memory for its payload.
unfoldable pub send_accepted : Memory → Loop → ℕ → ℕ → Option ℕ → Option Loop
send_accepted mem l parentfd childfd none = some l
send_accepted mem l parentfd childfd (some block) =
    let message : Message = record {
      sender_id = l.id;
      sender_elfd = l.elfd;
      sender_fd = parentfd;
      receiver_fd = childfd;
      type = mb_accept;
      size = 160;
      message = some block;
    } in
    mail mem.realloc (l.mailboxes l.accepts) message >>= λ r.
    some (record l { mailboxes = put_mailbox l.mailboxes l.accepts r.0 })

-- An event of the server socket.
unfoldable pub on_accepted : Memory → Loop → ℕ → Option ℕ → Option ℕ → Option Loop
unfolding send_accepted
on_accepted mem l parentfd none payload = some l
on_accepted mem l parentfd (some childfd) payload =
    let ready = log l (enable_async childfd ∷ []) in
    (if ready.accepts == ready.id
      then some (log ready (add ready.accepts childfd ∷ on_accept ready.accepts childfd ∷ []))
      else send_accepted mem ready parentfd childfd payload)
    >>= λ l'. some (next_worker l')

abbrev pub is_read : Filter → Bool
is_read evfilt_read = true
is_read _ = false

-- The body of the loop over the events.
unfoldable pub on_kevent : Memory → Loop → Kevent → Answers → Option Loop
on_kevent mem l e a =
    if is_server e.fdtype
    then on_accepted mem l e.ident a.accepted a.payload
    else if e.ident == l.selfpipe
    then (if is_read e.filter then on_selfpipe mem l (first_read a.reads) else some l)
    else some (log l (on_filter e.filter e a.reads))

-- `for (n = 0; n < nfds; ++n)`
unfoldable pub on_kevents : Memory → Loop → List (Kevent × Answers) → Option Loop
on_kevents mem l [] = some l
on_kevents mem l ((e, a) ∷ es) = on_kevent mem l e a >>= λ l'. on_kevents mem l' es

-- `while(running)`, for the batches that `kevent` gives.
unfoldable pub serve_kqueue : Memory → Loop → List (List (Kevent × Answers)) → Option Loop
serve_kqueue mem l [] = some l
serve_kqueue mem l (b ∷ bs) =
    let rest = on_kevents mem l b >>= λ l'. serve_kqueue mem l' bs in
    if l.running then rest else some l
