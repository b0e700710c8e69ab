-- ===== src/Net/Mail/Arrival.antt =====
-- src/80s/lua_net.c and 80s_common.c: a message that a script sends is handled by the worker it
-- is for.
use s.Common.{
  leb, ◌==◌, Bool-cases, ℕ, ◌+◌, ◌≤◌, ◌<◌, ◌≡◌, refl, ◌≢◌, inl, inr, Bool, true, false, ◌||◌, some,
  List, [], ◌∷◌, ◌++◌, arith,
}
use s.Mailbox.{
  Message, Mailbox, sent, Event, on_message, freed, mail, dispatch, dispatch_all, resolve_mail,
  int_limit,
}
use s.Mailbox.Delivery.{IsValid, Sent, pending, mail-Sent}
use s.Mailbox.Delivery.Sends.{mail_sends, resolve_mail-last}
use s.Net.Mail.{Arguments, Context, message_of, put_mailbox, mail_other, l_net_mail}

-- What the message comes to: the handler is called and the payload freed, at once or when the
-- other worker resolves its mail, after the `earlier` events of the messages that wait there.
pub data Arrived (s : Context) (a : Arguments) (block : ℕ) (earlier : List Event) (s' : Context)
    : Type 0 where
  at_once :
      a.id ≡ a.target_id
      → s'.mailboxes ≡ s.mailboxes
      → s'.events ≡ s.events ++ on_message (message_of a (some block)) ∷ freed block ∷ []
      → Arrived s a block earlier s'
  posted :
      (mb : Mailbox)
      → a.id ≢ a.target_id
      → s'.events ≡ s.events
      → Sent (s.mailboxes a.target_id) (message_of a (some block)) (s'.mailboxes a.target_id)
      → ((k : ℕ) → k ≢ a.target_id → s'.mailboxes k ≡ s.mailboxes k)
      → resolve_mail (λ _. true) (s'.mailboxes a.target_id)
        ≡ some (earlier ++ on_message (message_of a (some block)) ∷ freed block ∷ [], mb)
      → Arrived s a block earlier s'

dispatch_script :
    (m : Message) (block : ℕ)
    → m.message ≡ some block
    → 4 < m.type
    → dispatch m ≡ some (on_message m ∷ freed block ∷ [])
unfolding dispatch
dispatch_script m block e h = rw e (ground (arith, h))

posted_arrives :
    (realloc : ℕ → Bool) (s : Context) (a : Arguments) (block : ℕ) (earlier : List Event)
    (mb : Mailbox)
    → a.id ≢ a.target_id
    → 4 < a.type
    → IsValid (s.mailboxes a.target_id)
    → dispatch_all (pending (s.mailboxes a.target_id)) ≡ some earlier
    → mail realloc (s.mailboxes a.target_id) (message_of a (some block)) ≡ some (mb, sent)
    → Arrived s a block earlier (record s { mailboxes = put_mailbox s.mailboxes a.target_id mb })
posted_arrives realloc s a block earlier mb ne script v es e =
    let m = message_of a (some block) in
    let p = mail-Sent realloc (s.mailboxes a.target_id) m mb v e in
    let self : (a.target_id == a.target_id) ≡ true = ground arith in
    posted (record mb { size = 0; signaled = false }) ne refl (rw self p) (λ k n. ground (arith, n))
      (rw self (
        resolve_mail-last (λ _. true) mb (pending (s.mailboxes a.target_id)) m earlier
          (on_message m ∷ freed block ∷ []) p.valid (λ n. refl) p.queued es
          (dispatch_script m block refl script)))

-- The two workers are there, memory is granted, the mailbox is valid and far from the bounds of
-- an `int`, the messages that wait in it can be handled, and the message's type is none of the
-- four that the workers use among themselves: `net.mail` answers true, and the message arrives.
pub mail_arrives :
    (realloc : ℕ → Bool) (s : Context) (a : Arguments) (block : ℕ) (earlier : List Event)
    → a.id < s.workers
    → a.target_id < s.workers
    → s.workers ≤ int_limit
    → 4 < a.type
    → IsValid (s.mailboxes a.target_id)
    → (s.mailboxes a.target_id).reserved + 1000 < int_limit
    → ((n : ℕ) → realloc n ≡ true)
    → dispatch_all (pending (s.mailboxes a.target_id)) ≡ some earlier
    → (s' : Context) × (l_net_mail realloc s a (some block) ≡ some (s', true))
      × Arrived s a block earlier s'
unfolding l_net_mail mail_other
mail_arrives realloc s a block earlier from to small script v room g es =
    let inside : (leb s.workers a.id || leb int_limit a.id) ≡ false = ground (arith, from, small) in
    let there : leb s.workers a.target_id ≡ false = ground (arith, to) in
    elim (Bool-cases (a.id == a.target_id)) [
      | inl own ↦ (
        record s { events = s.events ++ on_message (message_of a (some block)) ∷ freed block ∷ [] },
        rw (inside, own) refl,
        at_once (ground arith) refl refl,
      )
      | inr other ↦
          let (mb, e) =
            mail_sends realloc (s.mailboxes a.target_id) (message_of a (some block)) v g room in
          (
            record s { mailboxes = put_mailbox s.mailboxes a.target_id mb },
            rw (inside, other, there, e) refl,
            posted_arrives realloc s a block earlier mb (ground arith) script v es e,
          )
    ]
