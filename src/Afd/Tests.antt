-- ===== src/Afd/Tests.antt =====
-- src/90s/afd.cpp: writes on small inputs.
use s.Common.{◌>>=◌, ℕ, ◌≡◌, refl, true, false, none, some, List, [], ◌∷◌, ◌++◌, arith}
use s.Afd.{state_open, state_closing, BackBuffer, Afd, write, on_write, on_close}
use s.Afd.Settle.{Call, answered}
use s.Afd.Stream.{stream}
use s.Afd.Calls.{IsFresh, Run, starts, writes, writes_in_order}
use s.Afd.Failure.{Untaken, every_write_answered, on_write_drains}

abbrev fresh : Afd
fresh = record {
  state = state_open;
  write_back_buffer = [];
  write_back_offset = 0;
  write_back_buffer_info = [];
  wire = [];
  resolved = [];
}

fresh-IsFresh : IsFresh fresh
fresh-IsFresh = record {
  opened = refl;
  no_buffer = refl;
  no_offset = refl;
  no_info = refl;
  no_wire = refl;
  none_resolved = refl;
}

abbrev ab : List ℕ
ab = b'a' ∷ b'b' ∷ []

-- One of two bytes is taken, and a second write waits behind the first.
abbrev half : Afd
half = record fresh {
  write_back_buffer = b'a' ∷ b'b' ∷ [];
  write_back_offset = 1;
  write_back_buffer_info = record { promise = 1; length = 2; sent = 1 } ∷ [];
  wire = b'a' ∷ [];
}

abbrev two_wait : Afd
two_wait = record half {
  write_back_buffer = b'a' ∷ b'b' ∷ b'c' ∷ [];
  write_back_buffer_info =
      record { promise = 1; length = 2; sent = 1 }
      ∷ record { promise = 2; length = 1; sent = 0 }
      ∷ [];
}

abbrev both : List Call
both = (1, ab) ∷ (2, b'c' ∷ []) ∷ []

first_write : write 1 ab fresh (some 1) ≡ some half
unfolding write on_write s.Afd.account s.Afd.settle
first_write = refl

second_write : write 2 (b'c' ∷ []) half none ≡ some two_wait
unfolding write on_write s.Afd.account s.Afd.settle
second_write = refl

two_wait-Run : Run both two_wait
two_wait-Run =
    writes 2 (b'c' ∷ []) none (writes 1 ab (some 1) (starts fresh-IsFresh) refl first_write) refl
      second_write

writes_in_order_example :
    (finished left : List Call) × (sent_ahead : List ℕ) × (both ≡ finished ++ left)
    × ([] ≡ answered true finished)
    × (b'a' ∷ b'b' ∷ b'c' ∷ [] ≡ stream both)
    × (b'a' ∷ [] ≡ stream finished ++ sent_ahead)
writes_in_order_example = writes_in_order both two_wait two_wait-Run

every_write_answered_example :
    (finished left : List Call) × (ahead : List ℕ) × (both ≡ finished ++ left)
    × (b'a' ∷ [] ≡ stream finished ++ ahead)
    × Untaken ahead left
    × ((on_close two_wait).resolved ≡ answered true finished ++ answered false left)
    × ((on_close two_wait).write_back_buffer_info ≡ [])
every_write_answered_example = every_write_answered both two_wait two_wait-Run refl

on_write_drains_example :
    (t : Afd) × (on_write 0 two_wait (some 2 ∷ []) ≡ some t)
    × (t.resolved ≡ (1, true) ∷ (2, true) ∷ [])
    × (t.wire ≡ b'a' ∷ b'b' ∷ b'c' ∷ [])
    × (t.write_back_buffer_info ≡ [])
on_write_drains_example =
    on_write_drains both two_wait 2 two_wait-Run refl (omega arith) (omega arith)

-- A write of no bytes is not answered and waits for an event that `s80_write` did not ask for,
-- and the next write waits behind it.
abbrev nothing_written : Afd
nothing_written = record fresh {
  write_back_buffer_info = record { promise = 1; length = 0; sent = 0 } ∷ [];
}

empty_write : write 1 [] fresh (some 0) ≡ some nothing_written
unfolding write on_write s.Afd.account s.Afd.settle
empty_write = refl

held_up :
    write 2 (b'c' ∷ []) nothing_written (some 1)
    ≡ some (record nothing_written {
      write_back_buffer = b'c' ∷ [];
      write_back_buffer_info =
          record { promise = 1; length = 0; sent = 0 }
          ∷ record { promise = 2; length = 1; sent = 0 }
          ∷ [];
    })
unfolding write on_write s.Afd.account s.Afd.settle
held_up = refl

-- After an answer of -1 the promises wait for `on_close`, and `on_write` does nothing.
refused_write :
    (write 1 ab fresh none >>= λ s. on_write 0 s (some 2 ∷ []))
    ≡ some (record fresh {
      state = state_closing;
      write_back_buffer = ab;
      write_back_buffer_info = record { promise = 1; length = 2; sent = 0 } ∷ [];
    })
unfolding write on_write s.Afd.account s.Afd.settle
refused_write = refl
