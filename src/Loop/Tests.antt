-- ===== src/Loop/Tests.antt =====
-- src/80s/serve.epoll.c: runs on small inputs.
use s.Common.{
  ◌==◌, if◌then◌else◌, ℕ, ◌+◌, ◌≤◌, ◌≡◌, refl, true, false, none, some, List, [], ◌∷◌, ◌++◌, arith,
}
use s.Mailbox.{Message, Mailbox, signal_stop}
use s.Loop.{
  FdType, socket, pipe, server_socket, Ready, Answers, Action, enable_async, rearm, add, on_accept,
  on_receive, on_write, on_close, close, remove, closing, Loop, Memory, on_connection, on_event,
  on_server, serve,
}
use s.Loop.Closing.{AllWork, ends, closes_once, received, hung_up_pipe_delivers}
use s.Loop.Balance.{CanGive, start, event, accepts_balanced}
use s.Loop.Accepted.{Arrived, accepted_socket_arrives}

abbrev granting : Memory
granting = record { calloc = λ _. true; realloc = λ _. true }

abbrev no_mail : Mailbox
no_mail = record { signaled = false; messages = some []; size = 0; reserved = 0; pipe = [] }

-- Worker 0 of two.
abbrev first : Loop
first = record {
  id = 0;
  workers = 2;
  elfd = 3;
  sigfd = 4;
  selfpipe = 5;
  accepts = 0;
  running = true;
  quit = false;
  mailboxes = λ _. no_mail;
  actions = [];
}

abbrev connecting : Ready
connecting = record {
  childfd = 6;
  fdtype = server_socket;
  input = true;
  output = false;
  hup = false;
}

abbrev accepting : Answers
accepting = record { accepted = some 7; is_ready = true; reads = []; payload = some 90 }

abbrev second : Loop
second = record first { accepts = 1 }

accept_here :
    on_event granting first connecting accepting
    ≡ some (record second { actions = enable_async 7 ∷ add 0 7 ∷ on_accept 0 7 ∷ [] }, false)
unfolding on_event on_server
accept_here = refl

-- A pipe that is hung up with two texts in it.
abbrev ended : Ready
ended = record { childfd = 9; fdtype = pipe; input = true; output = false; hup = true }

abbrev two_texts : Answers
two_texts = record {
  accepted = none;
  is_ready = true;
  reads = (b'a' ∷ []) ∷ (b'b' ∷ []) ∷ [];
  payload = none;
}

pipe_run :
    (on_connection ended two_texts).0
    ≡ on_receive 9 (b'a' ∷ []) ∷ on_receive 9 (b'b' ∷ []) ∷ remove 9 ∷ close 9 ∷ on_close 9 ∷ []
unfolding on_connection
pipe_run = refl

-- The byte for a stop ends the loop.
stop_run :
    serve granting first (
      ((
        record { childfd = 5; fdtype = pipe; input = true; output = false; hup = false },
        record {
          accepted = none;
          is_ready = true;
          reads = (signal_stop ∷ []) ∷ [];
          payload = none;
        },
      )
        ∷ [])
      ∷ ((connecting, accepting) ∷ [])
      ∷ [])
    ≡ some (record first {
      running = false;
      actions = Action.mailed [] ∷ [];
      mailboxes = λ k. if k == 0 then no_mail else no_mail;
    })
unfolding serve s.Loop.on_events on_event s.Loop.on_selfpipe s.Mailbox.on_signals
    s.Mailbox.on_signal
stop_run = refl

closes_once_example :
    (work : List Action) × AllWork 9 work
    × ((on_connection ended two_texts).0 ≡ work ++ (if ends ended two_texts then closing 9 else []))
closes_once_example = closes_once ended two_texts

hung_up_pipe_delivers_example : received (on_connection ended two_texts).0 ≡ b'a' ∷ b'b' ∷ []
hung_up_pipe_delivers_example = hung_up_pipe_delivers ended two_texts refl refl

first-CanGive : CanGive granting first accepting
first-CanGive = record {
  block = 90;
  allocated = refl;
  granted = λ n. refl;
  valid = record { stored = ([], refl, omega arith); within = omega arith };
  far = omega arith;
}

accepts_balanced_example : (1 ≤ 0 + 1) × (◌≡◌ {A = ℕ} 0 0)
accepts_balanced_example =
    accepts_balanced granting first
      (record second { actions = enable_async 7 ∷ add 0 7 ∷ on_accept 0 7 ∷ [] }) _ 0 1 2 refl
      (omega arith) (omega arith) (omega arith)
      (event connecting accepting false start (λ y. first-CanGive) accept_here)

accepted_socket_arrives_example :
    (l' : Loop) × (on_server granting second 6 accepting (some 7) ≡ some l')
    × Arrived second 6 7 90 l'
accepted_socket_arrives_example =
    accepted_socket_arrives granting second 6 7 90 accepting refl
      (record { stored = ([], refl, omega arith); within = omega arith }) (λ n. refl) (omega arith)
