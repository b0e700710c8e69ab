-- ===== src/Afd.antt =====
-- src/90s/afd.cpp: a descriptor with promises; here how it writes: `write`, `perform_write`,
-- `on_write`, `on_close`, `handle_failure` and `close`, without the TLS layer.
pub mod Settle
pub mod Stream
pub mod Calls
pub mod Failure
mod Tests
use s.Common.{
  ltb, leb, ◌==◌, if◌then◌else◌, length, take, drop, ◌>>=◌, ℕ, ◌+◌, ◌-◌, min, Bool, true, false,
  ◌&&◌, Option, none, some, List, [], ◌∷◌, ◌++◌,
}

pub data CloseState : Type 0 where
  state_open state_closing state_closed : CloseState

-- `struct back_buffer`: a write whose promise is not resolved.
pub record BackBuffer : Type 0 where
  pub promise : ℕ
  pub length : ℕ
  pub sent : ℕ

-- The members that writing touches. `wire` is what `s80_write` has taken so far, `resolved` the
-- promises of writes that were resolved, with what they were resolved with. What their callbacks
-- do is a later call.
pub record Afd : Type 0 where
  pub state : CloseState
  pub write_back_buffer : List ℕ
  pub write_back_offset : ℕ
  pub write_back_buffer_info : List BackBuffer
  pub wire : List ℕ
  pub resolved : List (ℕ × Bool)

abbrev pub is_open : CloseState → Bool
is_open state_open = true
is_open _ = false

abbrev pub is_closed : CloseState → Bool
is_closed state_closed = true
is_closed _ = false

abbrev pub resolve_all : Bool → List BackBuffer → List (ℕ × Bool)
resolve_all ok [] = []
resolve_all ok (b ∷ bs) = (b.promise, ok) ∷ resolve_all ok bs

-- `while(!write_back_buffer_info.empty())`: the writes that are done with these bytes, and the
-- others.
unfoldable pub settle : ℕ → List BackBuffer → List BackBuffer × List BackBuffer
settle written [] = ([], [])
settle written (b ∷ bs) =
    let rest = settle (written - (b.length - b.sent)) bs in
    if leb b.length (b.sent + written)
    then (b ∷ rest.0, rest.1)
    else if ltb 0 written
    then ([], record b { sent = b.sent + written } ∷ bs)
    else ([], b ∷ bs)

-- The first part of a round of `on_write`.
unfoldable pub account : ℕ → Afd → Afd
account written s =
    let settled = settle written s.write_back_buffer_info in
    record s {
      write_back_offset = s.write_back_offset + written;
      write_back_buffer_info = settled.1;
      resolved = s.resolved ++ resolve_all true settled.0;
    }

-- What `s80_write` takes of the bytes that wait: never more than there are.
abbrev pub accepted : ℕ → Afd → ℕ
accepted ok s = min ok (length (drop s.write_back_offset s.write_back_buffer))

-- `perform_write`, where `s80_write` takes so many bytes, and where it answers -1.
abbrev pub taken : ℕ → Afd → Afd
taken ok s = record s { wire = s.wire ++ take ok (drop s.write_back_offset s.write_back_buffer) }

abbrev pub failed : Afd → Afd
failed s = record s { state = state_closing }

-- `write_back_offset < write_back_buffer.size() && do_write`
abbrev pub goes_on : ℕ → Afd → Bool
goes_on written s = ltb s.write_back_offset (length s.write_back_buffer) && written == 0

-- `for(;;)`, with the answers of `s80_write`, none for -1. The result is none as long as the loop
-- asks for more answers.
unfoldable pub write_rounds : ℕ → Afd → List (Option ℕ) → Option Afd
unfolding account
write_rounds written s [] =
    let s' = account written s in if goes_on written s' then none else some s'
write_rounds written s (none ∷ answers) =
    let s' = account written s in if goes_on written s' then some (failed s') else some s'
write_rounds written s (some ok ∷ answers) =
    let s' = account written s in
    let ok' = accepted ok s' in
    let more = write_rounds ok' (taken ok' s') answers in
    if goes_on written s' then more else some s'

abbrev pub is_nil : List BackBuffer → Bool
is_nil [] = true
is_nil (b ∷ bs) = false

-- `if(write_back_buffer_info.size() == 0)`
abbrev pub tidy : Afd → Afd
tidy s =
    if is_nil s.write_back_buffer_info
    then record s { write_back_buffer = []; write_back_offset = 0 }
    else s

unfoldable pub on_write : ℕ → Afd → List (Option ℕ) → Option Afd
unfolding write_rounds
on_write written s answers =
    let done = write_rounds written s answers >>= λ s'. some (tidy s') in
    if is_open s.state then done else some s

-- The data at the end of the buffer.
abbrev pub queued : ℕ → List ℕ → Afd → Afd
queued promise text s = record s {
  write_back_buffer = s.write_back_buffer ++ text;
  write_back_buffer_info =
      s.write_back_buffer_info ++ record { promise = promise; length = length text; sent = 0 } ∷ [];
}

-- The only write that waits is begun at once; `on_write` writes no more, since its bytes are not 0.
unfoldable pub begin : Afd → Option ℕ → Option Afd
unfolding on_write
begin s none = some (failed s)
begin s (some ok) =
    let ok' = accepted ok s in
    let accounted = on_write ok' (taken ok' s) [] in
    if ltb 0 ok' then accounted else some (taken ok' s)

unfoldable pub write : ℕ → List ℕ → Afd → Option ℕ → Option Afd
unfolding begin
write promise text s answer =
    if is_open s.state
    then (if is_nil s.write_back_buffer_info
        then begin (queued promise text s) answer
        else some (queued promise text s))
    else some (record s { resolved = s.resolved ++ (promise, false) ∷ [] })

unfoldable pub handle_failure : Afd → Afd
handle_failure s = record s {
  write_back_buffer = [];
  write_back_offset = 0;
  write_back_buffer_info = [];
  resolved = s.resolved ++ resolve_all false s.write_back_buffer_info;
}

unfoldable pub on_close : Afd → Afd
unfolding handle_failure
on_close s = if is_closed s.state then s else handle_failure (record s { state = state_closed })

-- `close`; `s80_close` does not touch the members, and where it is immediate its callback is a
-- later `on_close`.
unfoldable pub close : Bool → Afd → Afd
unfolding handle_failure
close immediate s =
    if is_open s.state
    then (if immediate
        then record s { state = state_closing }
        else handle_failure (record s { state = state_closed }))
    else s
