-- ===== src/Mailbox/Failure.antt =====
-- src/80s/80s_common.c: `s80_mail` when memory is refused.
use s.Common.{ℕ, ◌+◌, ◌<◌, ◌≡◌, refl, Bool, false, none, some, arith}
use s.Mailbox.{Message, Mailbox, refused, mail, store, int_limit}

-- After a refused `realloc` the mailbox keeps its count of messages but has lost them, and the next
-- `s80_mail` writes through a null pointer, whatever `realloc` answers then.
pub mail_after_refusal :
    (first second : ℕ → Bool) (mb : Mailbox) (m n : Message)
    → mb.reserved ≡ mb.size
    → mb.reserved + 1000 < int_limit
    → first (mb.reserved + 1000) ≡ false
    → (broken : Mailbox) × (mail first mb m ≡ some (broken, refused))
      × (broken.size ≡ mb.size)
      × (mail second broken n ≡ none)
unfolding mail store
mail_after_refusal first second mb m n full small denied =
    (record mb { reserved = mb.reserved + 1000; messages = none }, ground arith, refl, ground arith)
