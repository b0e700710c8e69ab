-- ===== src/Mailbox/Delivery/Sends.antt =====
-- src/80s/80s_common.c: `s80_mail` sends where memory is granted, and `resolve_mail` takes all.
use s.Common.{
  leb, Bool-cases, Option-cases, take, drop, ℕ, ◌+◌, ◌<◌, ◌≡◌, refl, ap, inl, inr, Bool, true,
  false, Option, none, some, List, [], ◌∷◌, ◌++◌, append-nil, append_assoc, arith,
}
use s.Mailbox.{
  Message, Mailbox, sent, Event, mail, store, wake, dispatch_all, take_mail, resolve_mail, dispatch,
  int_limit,
}
use s.Mailbox.Delivery.{IsValid, pending, pending-zero}

store_sends :
    (mb : Mailbox) (m : Message) (o : Option (List Message)) (ms : List Message)
    → mb.messages ≡ o
    → o ≡ some ms
    → (mb' : Mailbox) × (store mb m ≡ some (mb', sent))
unfolding store
store_sends mb m none ms e q = absurd (ground arith)
store_sends mb m (some xs) ms e q = (
  wake (record mb {
    messages = some (take mb.size xs ++ m ∷ drop (mb.size + 1) xs);
    size = mb.size + 1;
  }),
  rw e refl,
)

-- Memory is granted and no `int` overflows, so the message is sent.
pub mail_sends :
    (realloc : ℕ → Bool) (mb : Mailbox) (m : Message)
    → IsValid mb
    → ((n : ℕ) → realloc n ≡ true)
    → mb.reserved + 1000 < int_limit
    → (mb' : Mailbox) × (mail realloc mb m ≡ some (mb', sent))
unfolding mail
mail_sends realloc mb m v g h = elim (Bool-cases (leb mb.reserved mb.size)) [
  | inl full ↦
      let small : leb int_limit (mb.reserved + 1000) ≡ false = ground (arith, h) in
      let (r, e) =
        store_sends (record mb { reserved = mb.reserved + 1000 }) m mb.messages v.stored.0 refl
          v.stored.1 in
      (r, rw (full, small, g (mb.reserved + 1000)) e)
  | inr room ↦
      let (r, e) = store_sends mb m mb.messages v.stored.0 refl v.stored.1 in (r, rw room e)
]

pub take_mail_all :
    (calloc : ℕ → Bool) (mb : Mailbox)
    → IsValid mb
    → ((n : ℕ) → calloc n ≡ true)
    → take_mail calloc mb ≡ some (pending mb, record mb { size = 0; signaled = false })
unfolding take_mail
take_mail_all calloc mb v g =
    let (ms, em, fit) = v.stored in ground (arith, g mb.size, pending-zero mb)

dispatch_all-snoc :
    (ms : List Message) (m : Message) (before last : List Event)
    → dispatch_all ms ≡ some before
    → dispatch m ≡ some last
    → dispatch_all (ms ++ m ∷ []) ≡ some (before ++ last)
unfolding dispatch_all
dispatch_all-snoc [] m before last e d =
    let none_before : [] ≡ before = ground (arith, e) in
    rw (d, ← none_before) (ap some (append-nil last))
dispatch_all-snoc (x ∷ ms) m before last e d = elim (Option-cases (dispatch x)) [
  | inl n ↦ absurd (ground (arith, rw n at e))
  | inr (first, q) ↦ elim (Option-cases (dispatch_all ms)) [
    | inl n ↦ absurd (ground (arith, rw (q, n) at e))
    | inr (rest, qr) ↦
        let b : first ++ rest ≡ before = ground (arith, rw (q, qr) at e) in
        rw (q, dispatch_all-snoc ms m rest last qr d, ← b, append_assoc) refl
  ]
]

-- A worker that resolves its mail handles the message that was sent last after those that waited
-- before.
pub resolve_mail-last :
    (calloc : ℕ → Bool) (mb : Mailbox) (ms : List Message) (m : Message) (before last : List Event)
    → IsValid mb
    → ((n : ℕ) → calloc n ≡ true)
    → pending mb ≡ ms ++ m ∷ []
    → dispatch_all ms ≡ some before
    → dispatch m ≡ some last
    → resolve_mail calloc mb ≡ some (before ++ last, record mb { size = 0; signaled = false })
unfolding resolve_mail
resolve_mail-last calloc mb ms m before last v g p e d =
    rw (take_mail_all calloc mb v g, p, dispatch_all-snoc ms m before last e d) refl
