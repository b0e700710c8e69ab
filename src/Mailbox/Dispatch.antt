-- ===== src/Mailbox/Dispatch.antt =====
-- src/80s/80s_common.c: what `resolve_mail` does with the messages it has taken.
use s.Common.{
  ◌==◌, if◌then◌else◌, Option-cases, All, ◌>>=◌, ℕ, ◌≡◌, refl, ap, inl, inr, Bool, true, ◌||◌, none,
  some, List, [], ◌∷◌, ◌++◌, arith,
}
use s.Mailbox.{
  Message, Event, on_receive, on_write, on_close, on_accept, on_message, epoll_add, freed, mb_read,
  mb_write, mb_close, mb_accept, free_payload, dispatch, dispatch_all,
}

-- Only the types whose handlers read the payload need one.
abbrev pub needs_payload : ℕ → Bool
needs_payload t = t == mb_read || t == mb_write || t == mb_close || t == mb_accept

abbrev pub HasPayload : Message → Type 0
HasPayload m = needs_payload m.type ≡ true → (p : ℕ) × (m.message ≡ some p)

-- The messages that handlers were called for, in order.
unfoldable pub handled : List Event → List Message
handled [] = []
handled (on_receive m ∷ es) = m ∷ handled es
handled (on_write m ∷ es) = m ∷ handled es
handled (on_close m ∷ es) = m ∷ handled es
handled (on_accept m ∷ es) = m ∷ handled es
handled (on_message m ∷ es) = m ∷ handled es
handled (epoll_add m ∷ es) = handled es
handled (freed p ∷ es) = handled es

-- The blocks freed, in order.
unfoldable pub freed_blocks : List Event → List ℕ
freed_blocks [] = []
freed_blocks (freed p ∷ es) = p ∷ freed_blocks es
freed_blocks (e ∷ es) = freed_blocks es

-- The payloads that the messages own.
unfoldable pub payloads : List Message → List ℕ
payloads [] = []
payloads (m ∷ ms) = elim (m.message) [ none ↦ payloads ms | some p ↦ p ∷ payloads ms ]

handled-append : (xs ys : List Event) → handled (xs ++ ys) ≡ handled xs ++ handled ys
unfolding handled
handled-append [] ys = refl
handled-append (on_receive m ∷ es) ys = ap (λ t. m ∷ t) (handled-append es ys)
handled-append (on_write m ∷ es) ys = ap (λ t. m ∷ t) (handled-append es ys)
handled-append (on_close m ∷ es) ys = ap (λ t. m ∷ t) (handled-append es ys)
handled-append (on_accept m ∷ es) ys = ap (λ t. m ∷ t) (handled-append es ys)
handled-append (on_message m ∷ es) ys = ap (λ t. m ∷ t) (handled-append es ys)
handled-append (epoll_add m ∷ es) ys = handled-append es ys
handled-append (freed p ∷ es) ys = handled-append es ys

freed_blocks-append :
    (xs ys : List Event) → freed_blocks (xs ++ ys) ≡ freed_blocks xs ++ freed_blocks ys
unfolding freed_blocks
freed_blocks-append [] ys = refl
freed_blocks-append (freed p ∷ es) ys = ap (λ t. p ∷ t) (freed_blocks-append es ys)
freed_blocks-append (e ∷ es) ys = freed_blocks-append es ys

-- One message: its handler, and its payload.
record Served (m : Message) (es : List Event) : Type 0 where
  called : handled es ≡ m ∷ []
  released : freed_blocks es ≡ payloads (m ∷ [])

calls : Message → List Event
calls m =
    if m.type == mb_read
    then on_receive m ∷ []
    else if m.type == mb_write
    then on_write m ∷ []
    else if m.type == mb_close
    then on_close m ∷ []
    else if m.type == mb_accept
    then epoll_add m ∷ on_accept m ∷ []
    else on_message m ∷ []

dispatch_lem : (m : Message) → HasPayload m → dispatch m ≡ some (calls m ++ free_payload m)
unfolding dispatch calls
dispatch_lem m h = elim (Option-cases m.message) [
  | inl e ↦ rw e (ground (arith, h))
  | inr (p, e) ↦ rw e (ground arith)
]

calls-Served : (m : Message) → Served m (calls m ++ free_payload m)
unfolding calls handled freed_blocks payloads
calls-Served m = elim (Option-cases m.message) [
  | inl e ↦ record { called = rw e (ground arith); released = rw e (ground arith) }
  | inr (p, e) ↦ record { called = rw e (ground arith); released = rw e (ground arith) }
]

payloads-cons :
    (m : Message) (ms : List Message) → payloads (m ∷ ms) ≡ payloads (m ∷ []) ++ payloads ms
unfolding payloads
payloads-cons m ms = ground arith

-- `resolve_mail` calls one handler for each message, in order, and frees each payload once, in
-- order, provided that the messages whose handlers read a payload have one.
pub dispatch_all_lem :
    (ms : List Message)
    → All HasPayload ms
    → (es : List Event) × (dispatch_all ms ≡ some es)
      × (handled es ≡ ms)
      × (freed_blocks es ≡ payloads ms)
unfolding dispatch_all
dispatch_all_lem [] h = unfold handled freed_blocks payloads in ([], refl, refl, refl)
dispatch_all_lem (m ∷ ms) h =
    let (es, e, hs, fs) = dispatch_all_lem ms h.1 in
    let c = calls-Served m in
    let first = calls m ++ free_payload m in
    (
      first ++ es,
      rw (dispatch_lem m h.0, ◌>>=◌) (rw e),
      rw (handled-append first es, c.called, hs) refl,
      rw (freed_blocks-append first es, c.released, fs, payloads-cons m ms) refl,
    )
