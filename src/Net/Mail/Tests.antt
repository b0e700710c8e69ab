-- ===== src/Net/Mail/Tests.antt =====
-- src/80s/lua_net.c: messages from a script, on small inputs.
use s.Common.{◌≡◌, refl, Bool, true, false, Option, none, some, List, [], ◌∷◌, arith}
use s.Mailbox.{dispatch_all, mail, Mailbox, Event, on_receive, freed, dispatch, mb_read}
use s.Mailbox.Delivery.{IsValid}
use s.Net.Mail.{Arguments, Context, message_of, l_net_mail}
use s.Net.Mail.Arrival.{Arrived, mail_arrives}

abbrev no_mail : Mailbox
no_mail = record { signaled = false; messages = some []; size = 0; reserved = 0; pipe = [] }

no_mail-IsValid : IsValid no_mail
no_mail-IsValid = record { stored = ([], refl, omega arith); within = omega arith }

abbrev two_workers : Context
two_workers = record { workers = 2; mailboxes = λ _. no_mail; events = [] }

abbrev greeting : Arguments
greeting = record {
  id = 0;
  elfd = 3;
  childfd = 7;
  target_id = 1;
  targetfd = 8;
  type = 5;
  text = b'h' ∷ b'i' ∷ [];
}

mail_arrives_example :
    (s' : Context) × (l_net_mail (λ _. true) two_workers greeting (some 40) ≡ some (s', true))
    × Arrived two_workers greeting 40 [] s'
unfolding dispatch_all
mail_arrives_example =
    mail_arrives (λ _. true) two_workers greeting 40 [] (omega arith) (omega arith) (omega arith)
      (omega arith) no_mail-IsValid (omega arith) (λ n. refl) refl

-- The sender is looked up among the workers, the receiver is not.
unknown_receiver :
    l_net_mail (λ _. true) two_workers (record greeting { target_id = 2 }) (some 40) ≡ none
unfolding l_net_mail
unknown_receiver = refl

unknown_sender :
    l_net_mail (λ _. true) two_workers (record greeting { id = 2 }) (some 40)
    ≡ some (two_workers, false)
unfolding l_net_mail
unknown_sender = refl

-- With the type of a read, the text is taken for the parameters of a handler.
taken_for_parameters :
    dispatch (message_of (record greeting { type = mb_read }) (some 40))
    ≡ some (on_receive (message_of (record greeting { type = mb_read }) (some 40)) ∷ freed 40 ∷ [])
unfolding dispatch
taken_for_parameters = refl

-- The answer and the events.
abbrev seen : Option (Context × Bool) → Option (Bool × List Event)
seen none = none
seen (some (s, answer)) = some (answer, s.events)

-- Where the other worker's mailbox cannot grow, the script is told so, and the payload is not
-- freed.
refused_leaks : seen (l_net_mail (λ _. false) two_workers greeting (some 40)) ≡ some (false, [])
unfolding l_net_mail mail
refused_leaks = refl
