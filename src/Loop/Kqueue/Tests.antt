-- ===== src/Loop/Kqueue/Tests.antt =====
-- src/80s/serve.kqueue.c: runs on small inputs.
use s.Common.{◌>>=◌, ◌≡◌, refl, true, false, none, some, List, [], ◌∷◌, ◌++◌, arith}
use s.Mailbox.{Mailbox}
use s.Loop.{
  FdType, socket, pipe, server_socket, Answers, Ready, Action, on_receive, on_close, close, Loop,
  Memory, on_connection,
}
use s.Loop
use s.Loop.Closing.{AllWork}
use s.Loop.Kqueue.{on_kevent, Kevent, evfilt_read, shut, on_filter}
use s.Loop.Kqueue.Delivery.{kevent_closes_once}
use s.Loop.Kqueue.Platforms.{as_ready, control_agrees}

abbrev read_twice : Answers
read_twice = record {
  accepted = none;
  is_ready = true;
  reads = (b'a' ∷ []) ∷ (b'b' ∷ []) ∷ [] ∷ [];
  payload = none;
}

abbrev pipe_ended : Kevent
pipe_ended = record { ident = 9; fdtype = pipe; filter = evfilt_read; ended = true; amount = 2 }

abbrev socket_ended : Kevent
socket_ended = record pipe_ended { fdtype = socket }

-- The second text of the socket is never read.
socket_loses :
    on_filter evfilt_read socket_ended read_twice.reads
    ≡ on_receive 9 (b'a' ∷ []) ∷ close 9 ∷ on_close 9 ∷ []
unfolding on_filter
socket_loses = refl

kevent_closes_once_example :
    (work : List Action) × AllWork 9 work
    × (on_filter evfilt_read pipe_ended read_twice.reads ≡ work ++ shut 9)
kevent_closes_once_example = kevent_closes_once pipe_ended read_twice.reads evfilt_read

abbrev connecting : Kevent
connecting = record {
  ident = 6;
  fdtype = server_socket;
  filter = evfilt_read;
  ended = false;
  amount = 1;
}

abbrev accepting : Answers
accepting = record { accepted = some 7; is_ready = true; reads = []; payload = some 90 }

abbrev granting : Memory
granting = record { calloc = λ _. true; realloc = λ _. true }

abbrev no_mail : Mailbox
no_mail = record { signaled = false; messages = some []; size = 0; reserved = 0; pipe = [] }

-- The second of two workers is next.
abbrev first : Loop
first = record {
  id = 0;
  workers = 2;
  elfd = 3;
  sigfd = 4;
  selfpipe = 5;
  accepts = 1;
  running = true;
  quit = false;
  mailboxes = λ _. no_mail;
  actions = [];
}

control_agrees_example :
    (on_kevent granting first connecting accepting >>= λ l'. some (l', false))
    ≡ Loop.on_event granting first (as_ready connecting) accepting
control_agrees_example = control_agrees granting first connecting accepting (omega arith) refl
