-- ===== src/Net/Mail.antt =====
-- src/80s/lua_net.c: `l_net_mail`, by which a script sends a message to a worker.
pub mod Arrival
mod Tests
use s.Common.{
  ltb, leb, ◌==◌, if◌then◌else◌, length, ◌>>=◌, ℕ, Bool, true, false, ◌||◌, Option, none, some,
  List, ◌∷◌, ◌++◌,
}
use s.Mailbox.{
  Message, Mailbox, Status, sent, refused, Event, on_message, mail, free_payload, int_limit,
}

-- The arguments behind the reload context, with the types that the function asks for. An `int` is
-- its 32 bits.
pub record Arguments : Type 0 where
  pub id : ℕ
  pub elfd : ℕ
  pub childfd : ℕ
  pub target_id : ℕ
  pub targetfd : ℕ
  pub type : ℕ
  -- `data`
  pub text : List ℕ

-- The reload context, and the events of the worker that runs the script.
pub record Context : Type 0 where
  pub workers : ℕ
  pub mailboxes : ℕ → Mailbox
  pub events : List Event

-- `msg`, with the block that `calloc` gives.
abbrev pub message_of : Arguments → Option ℕ → Message
message_of a block = record {
  sender_id = a.id;
  sender_elfd = a.elfd;
  sender_fd = a.childfd;
  receiver_fd = a.targetfd;
  type = a.type;
  size = length a.text;
  message = block;
}

-- `memcpy(msg.message, data, len)` writes through a null pointer.
abbrev pub copy_fails : Arguments → Option ℕ → Bool
copy_fails a none = ltb 0 (length a.text)
copy_fails a (some block) = false

abbrev pub is_sent : Status → Bool
is_sent sent = true
is_sent refused = false

abbrev pub put_mailbox : (ℕ → Mailbox) → ℕ → Mailbox → ℕ → Mailbox
put_mailbox ms w m k = if k == w then m else ms k

-- `s80_mail(reload->mailboxes + target_id, &msg) >= 0`. There is no mailbox behind the last
-- worker's.
unfoldable pub mail_other : (ℕ → Bool) → Context → Arguments → Option ℕ → Option (Context × Bool)
mail_other realloc s a block =
    if leb s.workers a.target_id
    then none
    else mail realloc (s.mailboxes a.target_id) (message_of a block) >>= λ r.
        some (record s { mailboxes = put_mailbox s.mailboxes a.target_id r.0 }, is_sent r.1)

-- `block` is what `calloc` gives; `none` is undefined behaviour.
unfoldable pub l_net_mail : (ℕ → Bool) → Context → Arguments → Option ℕ → Option (Context × Bool)
unfolding mail_other
l_net_mail realloc s a block =
    if leb s.workers a.id || leb int_limit a.id
    then some (s, false)
    else if copy_fails a block
    then none
    else if a.id == a.target_id
    then some (
      record s {
        events = s.events ++ on_message (message_of a block) ∷ free_payload (message_of a block);
      },
      true,
    )
    else mail_other realloc s a block
