-- ===== src/Mailbox.antt =====
-- src/80s/80s_common.c: the mailboxes between workers, `s80_mail` and `resolve_mail`, and the
-- wake-up bytes that serve.epoll.c reads from the self-pipe.
pub mod Delivery
mod Tests
pub mod Dispatch
pub mod Failure
pub mod Shutdown
use s.Common.{
  leb, ◌==◌, if◌then◌else◌, take, drop, ◌>>=◌, ℕ, ◌+◌, ◌^◌, Bool, true, false, Option, none, some,
  List, [], ◌∷◌, ◌++◌,
}

-- `struct mailbox_message_`; `message` is the heap block that the receiver frees, none for null.
pub record Message : Type 0 where
  pub sender_id : ℕ
  pub sender_elfd : ℕ
  pub sender_fd : ℕ
  pub receiver_fd : ℕ
  pub type : ℕ
  pub size : ℕ
  pub message : Option ℕ

-- `struct mailbox_` without its lock, which makes each function below one step. `messages` is null
-- after a refused `realloc`; else it holds the entries written so far. `pipe` holds the bytes
-- written to `pipes[1]` and not yet read from `pipes[0]`.
pub record Mailbox : Type 0 where
  pub signaled : Bool
  pub messages : Option (List Message)
  pub size : ℕ
  pub reserved : ℕ
  pub pipe : List ℕ

-- S80_SIGNAL_STOP, S80_SIGNAL_QUIT and S80_SIGNAL_MAIL.
abbrev pub signal_stop : ℕ
signal_stop = 1

abbrev pub signal_quit : ℕ
signal_quit = 2

abbrev pub signal_mail : ℕ
signal_mail = 3

-- S80_MB_ACCEPT, S80_MB_READ, S80_MB_WRITE and S80_MB_CLOSE; any other type is S80_MB_MESSAGE's.
abbrev pub mb_accept : ℕ
mb_accept = 1

abbrev pub mb_read : ℕ
mb_read = 2

abbrev pub mb_write : ℕ
mb_write = 3

abbrev pub mb_close : ℕ
mb_close = 4

-- `int` sums stay below 2 ^ 31.
abbrev pub int_limit : ℕ
int_limit = 2 ^ 31

-- The return value of `s80_mail`: 0, or -1.
pub data Status : Type 0 where
  sent refused : Status

-- `if(!mailbox->signaled) { mailbox->signaled = 1; write(mailbox->pipes[1], buf, 1); }`, where
-- the pipe takes the byte. What `write` answers is not looked at: a failed one leaves the pipe as
-- it was, and all else the same (`unheard` in Mailbox/Delivery).
abbrev pub wake : Mailbox → Mailbox
wake mb =
    if mb.signaled then mb else record mb { signaled = true; pipe = mb.pipe ++ signal_mail ∷ [] }

-- `mailbox->messages[mailbox->size++] = *message`, and the wake-up; a null array is undefined
-- behaviour.
unfoldable pub store : Mailbox → Message → Option (Mailbox × Status)
store mb m = mb.messages >>= λ ms. some (
  wake (record mb {
    messages = some (take mb.size ms ++ m ∷ drop (mb.size + 1) ms);
    size = mb.size + 1;
  }),
  sent,
)

-- `s80_mail`; `realloc` tells whether that many entries are granted. `none` is undefined behaviour:
-- an `int` overflow, or a write through a null pointer.
unfoldable pub mail : (ℕ → Bool) → Mailbox → Message → Option (Mailbox × Status)
mail realloc mb m =
    if leb mb.reserved mb.size
    then (if leb int_limit (mb.reserved + 1000)
        then none
        else if realloc (mb.reserved + 1000)
        then store (record mb { reserved = mb.reserved + 1000 }) m
        else some (record mb { reserved = mb.reserved + 1000; messages = none }, refused))
    else store mb m

-- What the dispatch of `resolve_mail` does outside: the handler called, the socket that is added
-- to the worker's epoll set, and the payload freed.
pub data Event : Type 0 where
  on_receive on_write on_close on_accept on_message : Message → Event
  epoll_add : Message → Event
  freed : ℕ → Event

abbrev pub free_payload : Message → List Event
free_payload m = elim (m.message) [ none ↦ [] | some p ↦ freed p ∷ [] ]

-- The `switch` of `resolve_mail`. The first four cases read their parameters through the payload
-- pointer: `none` where it is null.
handlers : Message → Option (List Event)
handlers m =
    let by_payload = λ (es : List Event). m.message >>= λ p. some es in
    if m.type == mb_read
    then by_payload (on_receive m ∷ [])
    else if m.type == mb_write
    then by_payload (on_write m ∷ [])
    else if m.type == mb_close
    then by_payload (on_close m ∷ [])
    else if m.type == mb_accept
    then by_payload (epoll_add m ∷ on_accept m ∷ [])
    else some (on_message m ∷ [])

-- The body of the loop in `resolve_mail`: the `switch`, then the `free`.
unfoldable pub dispatch : Message → Option (List Event)
unfolding handlers
dispatch m = handlers m >>= λ es. some (es ++ free_payload m)

unfoldable pub dispatch_all : List Message → Option (List Event)
dispatch_all [] = some []
dispatch_all (m ∷ ms) = do first ← dispatch m; rest ← dispatch_all ms; some (first ++ rest)

-- The critical section of `resolve_mail`: the messages taken, and the mailbox left behind. `calloc`
-- tells whether the copy's memory is granted; without it, or with a null array, the `memcpy` is
-- undefined behaviour.
unfoldable pub take_mail : (ℕ → Bool) → Mailbox → Option (List Message × Mailbox)
take_mail calloc mb =
    (if mb.size == 0
      then some []
      else if calloc mb.size
      then (mb.messages >>= λ ms. some (take mb.size ms))
      else none)
    >>= λ taken. some (taken, record mb { size = 0; signaled = false })

unfoldable pub resolve_mail : (ℕ → Bool) → Mailbox → Option (List Event × Mailbox)
resolve_mail calloc mb = do r ← take_mail calloc mb; es ← dispatch_all r.0; some (es, r.1)

-- What a byte from the self-pipe does to a worker.
pub record Worker : Type 0 where
  pub running : Bool
  pub quit : Bool
  pub mailbox : Mailbox
  pub events : List Event

-- The `switch` over `buf[i]` in the event loop (`pre_refresh_context` keeps this state).
unfoldable pub on_signal : (ℕ → Bool) → Worker → ℕ → Option Worker
on_signal calloc w b =
    let mail' = resolve_mail calloc w.mailbox >>= λ r.
    some (record w { mailbox = r.1; events = w.events ++ r.0 }) in
    if b == signal_stop
    then some (record w { running = false })
    else if b == signal_quit
    then some (record w { quit = true; running = false })
    else if b == signal_mail
    then mail'
    else some w

-- `for(i=0; i < readlen; i++)`
unfoldable pub on_signals : (ℕ → Bool) → Worker → List ℕ → Option Worker
on_signals calloc w [] = some w
on_signals calloc w (b ∷ bs) = on_signal calloc w b >>= λ w'. on_signals calloc w' bs
