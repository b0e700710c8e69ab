-- ===== src/Mailbox/Shutdown.antt =====
-- src/80s/80s_common.c: `s80_quit`, and the workers that it stops.
use s.Common.{
  ltb, ◌==◌, if◌then◌else◌, lt→ltb, Bool-cases, take, ◌>>=◌, ℕ, zero, suc, ◌<◌, ◌≡◌, refl, sym,
  subst, ◌∙◌, inl, inr, Bool, true, false, some, List, [], ◌∷◌, ◌++◌, arith,
}
use s.Mailbox.{
  Message, Mailbox, Event, signal_stop, signal_quit, signal_mail, dispatch_all, take_mail,
  resolve_mail, Worker, on_signal, on_signals,
}

-- `struct reload_context_`, its numbers and mailboxes.
pub record Reload : Type 0 where
  pub running : ℕ
  pub ready : ℕ
  pub workers : ℕ
  pub mailboxes : ℕ → Mailbox

-- `write(reload->mailboxes[i].pipes[1], buf, 1)`, under the lock.
abbrev pub push : ℕ → Mailbox → Mailbox
push b mb = record mb { pipe = mb.pipe ++ b ∷ [] }

-- `for(i=0; i < reload->workers; i++)`
unfoldable pub signal_all : ℕ → ℕ → (ℕ → Mailbox) → ℕ → Mailbox
signal_all b zero ms = ms
signal_all b (suc n) ms =
    let before = signal_all b n ms in λ k. if k == n then push b (before k) else before k

unfoldable pub quit_all : Reload → Reload
quit_all r = record r {
  mailboxes = signal_all signal_quit r.workers r.mailboxes;
  ready = 0;
  running = 0;
}

pub signal_all_lem :
    (b n : ℕ) (ms : ℕ → Mailbox) (k : ℕ)
    → signal_all b n ms k ≡ (if ltb k n then push b (ms k) else ms k)
unfolding signal_all
signal_all_lem b zero ms k = ground arith
signal_all_lem b (suc n) ms k = ground (arith, signal_all_lem b n ms k)

-- Mail that can be dispatched: the array is there, and every message has the payload that it needs.
pub record IsSafe (mb : Mailbox) : Type 0 where
  pub array : List Message
  pub events : List Event
  pub is_there : mb.messages ≡ some array
  pub dispatches : dispatch_all (take mb.size array) ≡ some events

-- The mailbox that `take_mail` leaves.
abbrev emptied : Mailbox → Mailbox
emptied mb = record mb { size = 0; signaled = false }

emptied-IsSafe : (mb : Mailbox) → IsSafe mb → IsSafe (emptied mb)
unfolding dispatch_all
emptied-IsSafe mb s = record {
  array = s.array;
  events = [];
  is_there = s.is_there;
  dispatches = refl;
}

module _ (calloc : ℕ → Bool) (g : (n : ℕ) → calloc n ≡ true) where
  resolve-IsSafe :
      (mb : Mailbox)
      → IsSafe mb
      → (r : List Event × Mailbox) × (resolve_mail calloc mb ≡ some r) × IsSafe r.1
  unfolding resolve_mail take_mail dispatch_all
  resolve-IsSafe mb s = elim (Bool-cases (mb.size == 0)) [
    | inl z ↦ (([], emptied mb), rw z refl, emptied-IsSafe mb s)
    | inr n ↦ (
      (s.events, emptied mb),
      rw (n, g mb.size, s.is_there, s.dispatches) refl,
      emptied-IsSafe mb s,
    )
  ]

  on_signal-IsSafe :
      (w : Worker) (b : ℕ)
      → IsSafe w.mailbox
      → (w' : Worker) × (on_signal calloc w b ≡ some w') × IsSafe w'.mailbox
  unfolding on_signal
  on_signal-IsSafe w b s = elim (Bool-cases (b == signal_stop)) [
    | inl y ↦ (record w { running = false }, rw y refl, s)
    | inr no_stop ↦ elim (Bool-cases (b == signal_quit)) [
      | inl y ↦ (record w { quit = true; running = false }, rw (no_stop, y) refl, s)
      | inr no_quit ↦ elim (Bool-cases (b == signal_mail)) [
        | inl y ↦
            let (r, e, safe) = resolve-IsSafe w.mailbox s in
            (
              record w { mailbox = r.1; events = w.events ++ r.0 },
              rw (no_stop, no_quit, y, e) refl,
              safe,
            )
        | inr y ↦ (w, rw (no_stop, no_quit, y) refl, s)
      ]
    ]
  ]

  -- The last byte is the one for quitting.
  quits :
      (bs : List ℕ) (w : Worker)
      → IsSafe w.mailbox
      → (w' : Worker) × (on_signals calloc w (bs ++ signal_quit ∷ []) ≡ some w')
        × (w'.running ≡ false)
        × (w'.quit ≡ true)
  unfolding on_signals on_signal
  quits [] w s = (record w { quit = true; running = false }, refl, refl, refl)
  quits (b ∷ bs) w s =
      let (v, e, safe) = on_signal-IsSafe w b s in
      let (w', all, stopped, quit) = quits bs v safe in
      (
        w',
        subst (λ o. (o >>= λ x. on_signals calloc x (bs ++ signal_quit ∷ [])) ≡ some w') (sym e)
            all,
        stopped,
        quit,
      )

  -- After `s80_quit`, where memory is granted: a worker whose mail can be dispatched and that
  -- reads all of its pipe, whatever else stands there, handles every byte, leaves its loop and
  -- has its `quit` set.
  pub quit_stops_workers :
      (r : Reload) (k : ℕ) (w : Worker)
      → k < r.workers
      → w.mailbox ≡ (quit_all r).mailboxes k
      → IsSafe (r.mailboxes k)
      → (w' : Worker) × (on_signals calloc w ((quit_all r).mailboxes k).pipe ≡ some w')
        × (w'.running ≡ false)
        × (w'.quit ≡ true)
  unfolding quit_all
  quit_stops_workers r k w lt e s =
      let here : (quit_all r).mailboxes k ≡ push signal_quit (r.mailboxes k) =
        signal_all_lem signal_quit r.workers r.mailboxes k ∙ rw (lt→ltb _ _ lt) refl in
      let safe : IsSafe w.mailbox = subst IsSafe (sym (e ∙ here)) (record {
        array = s.array;
        events = s.events;
        is_there = s.is_there;
        dispatches = s.dispatches;
      }) in
      rw here (quits (r.mailboxes k).pipe w safe)
