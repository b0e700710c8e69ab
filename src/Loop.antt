-- ===== src/Loop.antt =====
-- src/80s/serve.epoll.c: one worker's event loop, with what the kernel answers as explicit values.
pub mod Closing
pub mod Balance
pub mod Accepted
pub mod Kqueue
mod Tests
use s.Common.{
  ◌==◌, if◌then◌else◌, ◌>>=◌, ℕ, ◌+◌, Bool, true, false, not, ◌&&◌, Option, none, some, List, [],
  ◌∷◌, ◌++◌,
}
use s.Mailbox.{Message, Mailbox, Status, sent, refused, Event, Worker, mail, mb_accept, on_signals}

-- The S80_FD types of descriptors.
pub data FdType : Type 0 where
  socket ktls_socket pipe server_socket other : FdType

-- An event of `epoll_wait`: `hup` is EPOLLERR or EPOLLHUP.
pub record Ready : Type 0 where
  pub childfd : ℕ
  pub fdtype : FdType
  pub input : Bool
  pub output : Bool
  pub hup : Bool

-- What is answered while the event is handled: by `accept`, by `is_fd_ready`, and by `read`, one
-- after the other. An empty text, or the end of the list, is an answer of 0 or -1, and the last.
-- `payload` is the block that `calloc` gives for a message.
pub record Answers : Type 0 where
  pub accepted : Option ℕ
  pub is_ready : Bool
  pub reads : List (List ℕ)
  pub payload : Option ℕ

-- A system call on a descriptor or a handler called. `add` and `on_accept` name the worker whose
-- epoll set and context they get.
pub data Action : Type 0 where
  enable_async rearm remove close : ℕ → Action
  add on_accept : ℕ → ℕ → Action
  on_receive : ℕ → List ℕ → Action
  on_write on_close : ℕ → Action
  reap : Action
  -- `waitpid` for one child
  reap_child : ℕ → Action
  -- the events that `resolve_mail` sets off
  mailed : List Event → Action

-- The first answer of `read`.
abbrev pub first_read : List (List ℕ) → List ℕ
first_read [] = []
first_read (r ∷ rs) = r

abbrev pub is_pipe : FdType → Bool
is_pipe pipe = true
is_pipe _ = false

-- The socket leaves the loop.
abbrev pub closing : ℕ → List Action
closing fd = remove fd ∷ close fd ∷ on_close fd ∷ []

-- `(flags & EPOLLOUT) == EPOLLOUT`
unfoldable pub on_writable : Ready → List Action
on_writable e =
    if e.output
    then (if is_pipe e.fdtype
        then on_write e.childfd ∷ []
        else rearm e.childfd ∷ on_write e.childfd ∷ [])
    else []

-- One read: what is done, `closed`, and the answers that are left.
unfoldable pub read_once : ℕ → List (List ℕ) → List Action × (Bool × List (List ℕ))
read_once fd [] = (closing fd, (true, []))
read_once fd ([] ∷ rs) = (closing fd, (true, rs))
read_once fd ((c ∷ cs) ∷ rs) = (on_receive fd (c ∷ cs) ∷ [], (false, rs))

-- `(flags & EPOLLIN) == EPOLLIN && is_fd_ready(params_ready)`
unfoldable pub on_readable : Ready → Answers → List Action × (Bool × List (List ℕ))
unfolding read_once
on_readable e a =
    if e.input && a.is_ready then read_once e.childfd a.reads else ([], (false, a.reads))

-- `while(fdtype == S80_FD_PIPE)`
unfoldable pub drain : ℕ → List (List ℕ) → List Action
drain fd [] = []
drain fd ([] ∷ rs) = []
drain fd ((c ∷ cs) ∷ rs) = on_receive fd (c ∷ cs) ∷ drain fd rs

-- `!closed && (flags & (EPOLLERR | EPOLLHUP))`; the flag is its `break`.
unfoldable pub on_hung_up : Ready → Bool → List (List ℕ) → List Action × Bool
unfolding drain
on_hung_up e closed reads =
    if not closed && e.hup
    then ((if is_pipe e.fdtype then drain e.childfd reads else []) ++ closing e.childfd, true)
    else ([], false)

-- An event of a connection or a pipe.
unfoldable pub on_connection : Ready → Answers → List Action × Bool
unfolding on_writable on_readable on_hung_up
on_connection e a =
    let got = on_readable e a in
    let ended = on_hung_up e got.1.0 got.1.1 in (on_writable e ++ (got.0 ++ ended.0), ended.1)

-- The variables of the loop. `mailboxes` is shared with the other workers.
pub record Loop : Type 0 where
  pub id : ℕ
  pub workers : ℕ
  pub elfd : ℕ
  pub sigfd : ℕ
  pub selfpipe : ℕ
  pub accepts : ℕ
  pub running : Bool
  pub quit : Bool
  pub mailboxes : ℕ → Mailbox
  pub actions : List Action

-- What `calloc` and `realloc` grant for messages.
pub record Memory : Type 0 where
  pub calloc : ℕ → Bool
  pub realloc : ℕ → Bool

abbrev pub log : Loop → List Action → Loop
log l done = record l { actions = l.actions ++ done }

abbrev pub put_mailbox : (ℕ → Mailbox) → ℕ → Mailbox → ℕ → Mailbox
put_mailbox ms w m k = if k == w then m else ms k

-- `accepts++; if (accepts == workers) accepts = 0;`
abbrev pub next_worker : Loop → Loop
next_worker l = record l { accepts = if l.accepts + 1 == l.workers then 0 else l.accepts + 1 }

-- The message that hands a socket over; its size is that of `accept_params`.
abbrev pub accept_message : Loop → ℕ → ℕ → ℕ → Message
accept_message l parentfd childfd block = record {
  sender_id = l.id;
  sender_elfd = l.elfd;
  sender_fd = parentfd;
  receiver_fd = childfd;
  type = mb_accept;
  size = 160;
  message = some block;
}

-- The branch for another worker. Without memory for the payload, or where s80_mail answers -1,
-- there is an entry in the log, and nothing else.
unfoldable pub hand_over : Memory → Loop → ℕ → ℕ → Option ℕ → Option Loop
hand_over mem l parentfd childfd none = some l
hand_over mem l parentfd childfd (some block) =
    mail mem.realloc (l.mailboxes l.accepts) (accept_message l parentfd childfd block) >>= λ r.
    some (record l { mailboxes = put_mailbox l.mailboxes l.accepts r.0 })

-- An event of the server socket.
unfoldable pub on_server : Memory → Loop → ℕ → Answers → Option ℕ → Option Loop
unfolding hand_over
on_server mem l parentfd a none = some l
on_server mem l parentfd a (some childfd) =
    (if l.accepts == l.id
      then some
          (log l (enable_async childfd ∷ add l.accepts childfd ∷ on_accept l.accepts childfd ∷ []))
      else hand_over mem (log l (enable_async childfd ∷ [])) parentfd childfd a.payload)
    >>= λ l'. some (next_worker l')

-- An event of the self-pipe.
unfoldable pub on_selfpipe : Memory → Loop → List ℕ → Option Loop
on_selfpipe mem l bytes =
    on_signals mem.calloc
      (record { running = l.running; quit = l.quit; mailbox = l.mailboxes l.id; events = [] }) bytes
    >>= λ w. some (record (log l (mailed w.events ∷ [])) {
      running = w.running;
      quit = w.quit;
      mailboxes = put_mailbox l.mailboxes l.id w.mailbox;
    })

abbrev pub is_server : FdType → Bool
is_server server_socket = true
is_server _ = false

-- The body of the loop over the events; the flag is its `break`.
unfoldable pub on_event : Memory → Loop → Ready → Answers → Option (Loop × Bool)
on_event mem l e a =
    let done = on_connection e a in
    if l.id == 0 && e.childfd == l.sigfd && e.input
    then some (log l (reap ∷ []), false)
    else if is_server e.fdtype
    then (on_server mem l e.childfd a a.accepted >>= λ l'. some (l', false))
    else if e.childfd == l.selfpipe
    then (on_selfpipe mem l (first_read a.reads) >>= λ l'. some (l', false))
    else some (log l done.0, done.1)

-- `for (n = 0; n < nfds; ++n)`
unfoldable pub on_events : Memory → Loop → List (Ready × Answers) → Option Loop
on_events mem l [] = some l
on_events mem l ((e, a) ∷ es) =
    on_event mem l e a >>= λ r. (let rest = on_events mem r.0 es in if r.1 then some r.0 else rest)

-- `while(running)`, for the batches that `epoll_wait` gives.
unfoldable pub serve : Memory → Loop → List (List (Ready × Answers)) → Option Loop
serve mem l [] = some l
serve mem l (b ∷ bs) =
    let rest = on_events mem l b >>= λ l'. serve mem l' bs in if l.running then rest else some l
