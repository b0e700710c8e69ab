-- ===== src/Loop/Kqueue/Platforms.antt =====
-- src/80s/serve.kqueue.c and serve.epoll.c: what is the same in the two loops.
use s.Common.{
  ◌==◌, Bool-cases, ◌>>=◌, ℕ, ◌≡◌, refl, sym, ap, ◌∙◌, ◌≢◌, inl, inr, true, false, ◌&&◌, ◌||◌,
  Option, none, some, [], ◌∷◌, append_assoc, arith,
}
use s.Loop.{
  Action, enable_async, add, on_accept, Ready, Answers, Memory, Loop, log, next_worker, is_pipe,
  is_server, hand_over, on_server, on_connection,
}
use s.Loop.Closing.{received, until_end, hung_up_pipe_delivers}
use s.Loop
use s.Loop.Kqueue.{on_kevent, Kevent, evfilt_read, is_read, on_filter, on_accepted, send_accepted}
use s.Loop.Kqueue.Delivery.{read_event_delivers, text_for}

-- A pipe that has ended: where both loops are answered the same reads, their handlers are given
-- the same text.
pub pipes_agree :
    (k : Kevent) (e : Ready) (a : Answers)
    → is_pipe k.fdtype ≡ true
    → k.ended ≡ true
    → is_pipe e.fdtype ≡ true
    → e.hup ≡ true
    → received (on_filter evfilt_read k a.reads) ≡ received (on_connection e a).0
pipes_agree k e a kp ke ep eh =
    let all : text_for k a.reads ≡ until_end a.reads = rw (ke, kp) refl in
    read_event_delivers k a.reads ∙ all ∙ sym (hung_up_pipe_delivers e a ep eh)

sends_agree :
    (mem : Memory) (l : Loop) (parentfd childfd : ℕ) (payload : Option ℕ)
    → send_accepted mem l parentfd childfd payload ≡ hand_over mem l parentfd childfd payload
unfolding send_accepted hand_over
sends_agree mem l parentfd childfd none = refl
sends_agree mem l parentfd childfd (some block) = refl

-- Both loops place an accepted socket in the same way: with the same worker, by the same actions
-- and messages.
pub accepts_agree :
    (mem : Memory) (l : Loop) (parentfd : ℕ) (a : Answers) (accepted : Option ℕ)
    → on_accepted mem l parentfd accepted a.payload ≡ on_server mem l parentfd a accepted
unfolding on_accepted on_server
accepts_agree mem l parentfd a none = refl
accepts_agree mem l parentfd a (some childfd) = elim (Bool-cases (l.accepts == l.id)) [
  | inl own ↦ rw own (
      ap (λ done. some (next_worker (record l { actions = done })))
        (append_assoc l.actions (enable_async childfd ∷ [])
          (add l.accepts childfd ∷ on_accept l.accepts childfd ∷ [])))
  | inr other ↦ rw other (
      ap (λ o. o >>= λ l'. some (next_worker l'))
        (sends_agree mem (log l (enable_async childfd ∷ [])) parentfd childfd a.payload))
]

-- The event as epoll reports it.
abbrev pub as_ready : Kevent → Ready
as_ready k = record {
  childfd = k.ident;
  fdtype = k.fdtype;
  input = is_read k.filter;
  output = false;
  hup = k.ended;
}

not_signal :
    (l : Loop) (k : Kevent)
    → k.ident ≢ l.sigfd
    → (l.id == 0 && k.ident == l.sigfd && is_read k.filter) ≡ false
not_signal l k n =
    let other : (k.ident == l.sigfd) ≡ false = ground (arith, n) in
    elim (Bool-cases (l.id == 0)) [ inl y ↦ rw (y, other) refl | inr z ↦ rw z refl ]

-- An event of the server socket, or one that the self-pipe can be read, where the descriptor is
-- not that of the signals: the two loops go on from it in the same way.
pub control_agrees :
    (mem : Memory) (l : Loop) (k : Kevent) (a : Answers)
    → k.ident ≢ l.sigfd
    → (is_server k.fdtype || k.ident == l.selfpipe && is_read k.filter) ≡ true
    → (on_kevent mem l k a >>= λ l'. some (l', false)) ≡ Loop.on_event mem l (as_ready k) a
unfolding on_kevent Loop.on_event
control_agrees mem l k a n h =
    let no_signal = not_signal l k n in
    elim (Bool-cases (is_server k.fdtype)) [
      | inl y ↦ rw (no_signal, y, accepts_agree mem l k.ident a a.accepted) refl
      | inr no_server ↦ elim (Bool-cases (k.ident == l.selfpipe)) [
        | inl own ↦ elim (Bool-cases (is_read k.filter)) [
          | inl r ↦ rw (no_signal, no_server, own, r) refl
          | inr r ↦ absurd (ground (arith, h, no_server, r))
        ]
        | inr other ↦ absurd (ground (arith, h, no_server, other))
      ]
    ]
