-- ===== src/Mailbox/Tests.antt =====
-- src/80s/80s_common.c: runs of the mailbox.
use s.Common.{ℕ, ◌<◌, ◌≡◌, refl, true, false, none, some, List, [], ◌∷◌, arith}
use s.Mailbox.{
  Message, Mailbox, Worker, Event, on_message, freed, sent, refused, mail, on_signals, signal_mail,
  signal_quit, dispatch_all,
}
use s.Mailbox.Delivery.{System, Reach, here, next, send, IsSound, pending, has_mail, delivery}
use s.Mailbox.Delivery.Arrival.{work_alone, every_message_arrives}
use s.Mailbox.Dispatch.{dispatch_all_lem, handled, freed_blocks, payloads}
use s.Mailbox.Shutdown.{Reload, push, quit_all, IsSafe, quit_stops_workers}
use s.Mailbox.Failure.{mail_after_refusal}

abbrev message : ℕ → Message
message p = record {
  sender_id = 0;
  sender_elfd = 3;
  sender_fd = 4;
  receiver_fd = 5;
  type = 5;
  size = 8;
  message = some p;
}

abbrev empty : Mailbox
empty = record { signaled = false; messages = some []; size = 0; reserved = 32; pipe = [] }

abbrev one : Mailbox
one = record {
  signaled = true;
  messages = some (message 7 ∷ []);
  size = 1;
  reserved = 32;
  pipe = signal_mail ∷ [];
}

abbrev full : Mailbox
full = record { signaled = false; messages = some []; size = 0; reserved = 0; pipe = [] }

mail_run : mail (λ _. true) empty (message 7) ≡ some (one, sent)
unfolding mail s.Mailbox.store
mail_run = refl

abbrev worker : Worker
worker = record { running = true; quit = false; mailbox = one; events = [] }

on_signals_run :
    on_signals (λ _. true) worker (signal_mail ∷ signal_quit ∷ [])
    ≡ some (record {
      running = false;
      quit = true;
      mailbox = record one { signaled = false; size = 0 };
      events = on_message (message 7) ∷ freed 7 ∷ [];
    })
unfolding on_signals s.Mailbox.on_signal s.Mailbox.resolve_mail s.Mailbox.take_mail dispatch_all
    s.Mailbox.dispatch
on_signals_run = refl

abbrev before : System
before = record { mailbox = empty; read = []; sent_before = []; taken = []; intact = true }

abbrev after : System
after = record { mailbox = one; read = []; sent_before = message 7 ∷ []; taken = []; intact = true }

before-IsSound : IsSound before
before-IsSound = record {
  valid = record { stored = ([], refl, omega arith); within = omega arith };
  in_order = refl;
  awake = λ p. absurd (omega arith);
  heard = λ p. cc;
}

reach : Reach before after
reach = next here (send before (λ _. true) (message 7) one mail_run)

delivery_example : (message 7 ∷ [] ≡ pending one) × (0 < 1 → has_mail (signal_mail ∷ []) ≡ true)
delivery_example = delivery before-IsSound reach refl

every_message_arrives_example :
    (u : System) × (work_alone (λ _. true) after ≡ some u)
    × (u.taken ≡ message 7 ∷ [])
    × (u.read ≡ [])
    × (u.mailbox.pipe ≡ [])
    × (u.mailbox.size ≡ 0)
every_message_arrives_example =
    every_message_arrives (λ _. true) (λ n. refl) before-IsSound reach refl

dispatch_all_lem_example :
    (es : List Event) × (dispatch_all (message 7 ∷ []) ≡ some es)
    × (handled es ≡ message 7 ∷ [])
    × (freed_blocks es ≡ payloads (message 7 ∷ []))
dispatch_all_lem_example = dispatch_all_lem (message 7 ∷ []) ((λ p. cc), tt)

mail_after_refusal_example :
    (broken : Mailbox) × (mail (λ _. false) full (message 7) ≡ some (broken, refused))
    × (broken.size ≡ 0)
    × (mail (λ _. true) broken (message 8) ≡ none)
mail_after_refusal_example =
    mail_after_refusal (λ _. false) (λ _. true) full (message 7) (message 8) refl (omega arith) refl

-- Two workers, of which each has the same empty mailbox and one byte in its pipe.
abbrev quiet : Mailbox
quiet = record {
  signaled = true;
  messages = some [];
  size = 0;
  reserved = 0;
  pipe = signal_mail ∷ [];
}

abbrev two_workers : Reload
two_workers = record { running = 1; ready = 2; workers = 2; mailboxes = λ _. quiet }

abbrev second_worker : Worker
second_worker = record {
  running = true;
  quit = false;
  mailbox = push signal_quit quiet;
  events = [];
}

quit_stops_workers_example :
    (w' : Worker) × (on_signals (λ _. true) second_worker ((quit_all two_workers).mailboxes 1).pipe
      ≡ some w')
    × (w'.running ≡ false)
    × (w'.quit ≡ true)
unfolding quit_all s.Mailbox.Shutdown.signal_all dispatch_all
quit_stops_workers_example =
    quit_stops_workers (λ _. true) (λ n. refl) two_workers 1 second_worker (omega arith) refl
      (record { array = []; events = []; is_there = refl; dispatches = refl })
