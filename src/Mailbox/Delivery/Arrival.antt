-- ===== src/Mailbox/Delivery/Arrival.antt =====
-- src/80s/80s_common.c and serve.epoll.c: a worker takes all of its mail.
use s.Common.{
  ◌==◌, if◌then◌else◌, Bool-cases, ◌>>=◌, ℕ, ◌≡◌, refl, sym, ap, ◌∙◌, ◌⊎◌, inl, inr, Bool, true,
  false, Option, some, List, [], ◌∷◌, ◌++◌, append-nil, arith,
}
use s.Mailbox.{Mailbox, take_mail, signal_mail}
use s.Mailbox.Delivery.{
  IsValid, pending, pending-zero, has_mail, has_mail-append, System, Reach, IsSound, Reach-IsSound,
}
use s.Mailbox.Delivery.Sends.{take_mail_all}

-- What a worker does to its mail when it goes through bytes that it has read.
unfoldable pub look : (ℕ → Bool) → List ℕ → System → Option System
look calloc [] s = some (record s { read = [] })
look calloc (b ∷ bs) s =
    let mail' = take_mail calloc s.mailbox >>= λ r.
    look calloc bs (record s { mailbox = r.1; taken = s.taken ++ r.0 }) in
    let other = look calloc bs s in if b == signal_mail then mail' else other

-- The worker goes through what it has read, reads all that stands in its pipe, and goes through
-- that.
unfoldable pub work_alone : (ℕ → Bool) → System → Option System
unfolding look
work_alone calloc s = look calloc s.read s >>= λ a.
    look calloc a.mailbox.pipe (record a { mailbox = record (a.mailbox) { pipe = [] } })

-- What a look at these bytes leaves.
record Looked (bs : List ℕ) (s t : System) : Type 0 where
  valid : IsValid t.mailbox
  in_order : t.sent_before ≡ t.taken ++ pending t.mailbox
  looked : t.read ≡ []
  unsent : t.sent_before ≡ s.sent_before
  same_pipe : t.mailbox.pipe ≡ s.mailbox.pipe
  emptied : (has_mail bs ≡ true) ⊎ (s.mailbox.size ≡ 0) → t.mailbox.size ≡ 0
  as_it_was : has_mail bs ≡ false → t.mailbox ≡ s.mailbox

abbrev emptied_mailbox : Mailbox → Mailbox
emptied_mailbox mb = record mb { size = 0; signaled = false }

module _ (calloc : ℕ → Bool) (g : (n : ℕ) → calloc n ≡ true) where
  look-Looked :
      (bs : List ℕ) (s : System)
      → IsValid s.mailbox
      → s.sent_before ≡ s.taken ++ pending s.mailbox
      → (t : System) × (look calloc bs s ≡ some t) × Looked bs s t
  unfolding look
  look-Looked [] s v o = (
    record s { read = [] },
    refl,
    record {
      valid = v;
      in_order = o;
      looked = refl;
      unsent = refl;
      same_pipe = refl;
      emptied = λ p. ground (arith, p);
      as_it_was = λ p. refl;
    },
  )
  look-Looked (b ∷ bs) s v o = elim (Bool-cases (b == signal_mail)) [
    | inl m ↦
        let mb = emptied_mailbox s.mailbox in
        let (t, e, l) =
          look-Looked bs (record s { mailbox = mb; taken = s.taken ++ pending s.mailbox })
            (record { stored = (v.stored.0, v.stored.1, omega arith); within = omega arith })
            (o
              ∙ sym (append-nil (s.taken ++ pending s.mailbox))
              ∙ ap (λ x. (s.taken ++ pending s.mailbox) ++ x) (sym (pending-zero mb refl))) in
        (
          t,
          rw (m, take_mail_all calloc s.mailbox v g) e,
          record {
            valid = l.valid;
            in_order = l.in_order;
            looked = l.looked;
            unsent = l.unsent;
            same_pipe = l.same_pipe;
            emptied = λ _. l.emptied (inr refl);
            as_it_was = λ p. absurd (ground (arith, m, p));
          },
        )
    | inr n ↦
        let (t, e, l) = look-Looked bs s v o in
        (
          t,
          rw n e,
          record {
            valid = l.valid;
            in_order = l.in_order;
            looked = l.looked;
            unsent = l.unsent;
            same_pipe = l.same_pipe;
            emptied = λ p. l.emptied (ground (arith, n, p));
            as_it_was = λ p. l.as_it_was (ground (arith, n, p));
          },
        )
  ]

  -- The second look finds a wake-up byte, unless no message is left.
  second_empties :
      (t a : System)
      → IsSound t
      → Looked t.read t a
      → (has_mail a.mailbox.pipe ≡ true) ⊎ (a.mailbox.size ≡ 0)
  second_empties t a k l = elim (Bool-cases (has_mail t.read)) [
    | inl y ↦ inr (l.emptied (inl y))
    | inr n ↦ elim (Bool-cases (t.mailbox.size == 0)) [
      | inl z ↦ inr (l.emptied (inr (ground arith)))
      | inr z ↦
          let all : has_mail (t.read ++ t.mailbox.pipe) ≡ true = k.heard (k.awake (ground arith)) in
          inl (
            ap has_mail l.same_pipe ∙ ground (arith, n, all, has_mail-append t.read t.mailbox.pipe))
    ]
  ]

  -- From any state that the moves reach from a sound one, as long as no `realloc` was refused
  -- and no `write` of a wake-up byte failed, and where memory for the copies is granted: a
  -- worker that goes through the bytes it has read, then reads all of its pipe once and goes
  -- through that, has taken every message that was sent, and leaves the mailbox and the pipe
  -- empty.
  pub every_message_arrives :
      {s t : System}
      → IsSound s
      → Reach s t
      → t.intact ≡ true
      → (u : System) × (work_alone calloc t ≡ some u)
        × (u.taken ≡ t.sent_before)
        × (u.read ≡ [])
        × (u.mailbox.pipe ≡ [])
        × (u.mailbox.size ≡ 0)
  unfolding work_alone
  every_message_arrives {t = t} h r i =
      let k = Reach-IsSound h r i in
      let (a, e, l) = look-Looked t.read t k.valid k.in_order in
      let (u, e', l') =
        look-Looked a.mailbox.pipe (record a { mailbox = record (a.mailbox) { pipe = [] } })
          (record { stored = l.valid.stored; within = l.valid.within }) l.in_order in
      let none_left = l'.emptied (second_empties t a k l) in
      (
        u,
        rw (e, e') refl,
        sym (
              l'.in_order
              ∙ ap (λ x. u.taken ++ x) (pending-zero u.mailbox none_left)
              ∙ append-nil u.taken)
            ∙ l'.unsent
            ∙ l.unsent,
        l'.looked,
        l'.same_pipe,
        none_left,
      )
