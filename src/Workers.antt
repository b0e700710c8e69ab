-- ===== src/Workers.antt =====
-- src/80s/80s.c and 80s_common.c: `run`, in which the workers wait for each other before they serve
-- with a newly loaded library, and `s80_reload`, which makes them come back to it.
pub mod Count
pub mod Barrier
mod Tests
use s.Common.{ltb, leb, ◌==◌, if◌then◌else◌, ℕ, suc, ◌+◌, ◌<◌, ◌≡◌, Bool, true, false, not, ◌&&◌}
use s.Mailbox.Shutdown.{Reload}

-- Where a worker is: before the first critical section of `run`; in the loop behind it; behind
-- that loop, before `reload->serve` is read again; in `serve`; in `s80_reload`, called from
-- there, with so many STOP bytes written; or gone, as it called a null pointer.
pub data Where : Type 0 where
  arriving waiting passed serving crashed : Where
  reloading : ℕ → Where

-- All workers. `has_serve` tells that `reload->serve` is not null; `stopping` counts the STOP
-- bytes in the worker's pipe.
pub record Workers : Type 0 where
  pub reload : Reload
  pub has_serve : Bool
  pub place : ℕ → Where
  pub stopping : ℕ → ℕ

abbrev pub put {ℓ} : {A : Type ℓ} → (ℕ → A) → ℕ → A → ℕ → A
put f i a k = if k == i then a else f k

-- `reload->ready == reload->workers`, after the increment: the libraries are closed and opened
-- again.
abbrev pub is_last : Reload → Bool
is_last r = r.ready + 1 == r.workers

-- The first critical section of `run`. `ready` is an `int` that `s80_reload` writes without the
-- lock; that nothing comes between the increment and the comparison is an assumption.
unfoldable pub arrive : ℕ → Workers → Workers
arrive i s = record s {
  reload = record (s.reload) { ready = s.reload.ready + 1 };
  has_serve = is_last s.reload;
  place = put s.place i waiting;
}

-- The loop behind it finds `serve` set.
unfoldable pub pass : ℕ → Workers → Workers
pass i s = record s { place = put s.place i passed }

-- `fn_serve = reload->serve`, without the lock, and its call.
unfoldable pub call_serve : ℕ → Workers → Workers
call_serve i s = record s { place = put s.place i (if s.has_serve then serving else crashed) }

-- A worker reads STOP bytes, one or more of those in its pipe, and `serve` returns.
unfoldable pub leave_serve : ℕ → ℕ → Workers → Workers
leave_serve i rest s = record s { place = put s.place i arriving; stopping = put s.stopping i rest }

-- The test of `s80_reload`, built with S80_DYNAMIC or not.
abbrev pub can_reload : Bool → Reload → Bool
can_reload dynamic r = dynamic && not (ltb r.ready r.workers)

unfoldable pub begin_reload : ℕ → Workers → Workers
begin_reload i s = record s { place = put s.place i (reloading 0) }

-- `write(reload->mailboxes[j].pipes[1], buf, 1)`, under the lock of that mailbox.
unfoldable pub send_stop : ℕ → ℕ → Workers → Workers
send_stop i j s = record s {
  place = put s.place i (reloading (suc j));
  stopping = put s.stopping j (s.stopping j + 1);
}

-- `reload->ready = 0; reload->running++;`
unfoldable pub end_reload : ℕ → Workers → Workers
end_reload i s = record s {
  reload = record (s.reload) { ready = 0; running = s.reload.running + 1 };
  place = put s.place i serving;
}

-- What a worker does. Each move but `passes` and `arrives`, which hold `serve_lock`, is one
-- access to what the workers share without it, or touches what is the worker's own.
pub data Move (s : Workers) (i : ℕ) : Workers → Type 0 where
  arrives : s.place i ≡ arriving → Move s i (arrive i s)
  passes : s.place i ≡ waiting → s.has_serve ≡ true → Move s i (pass i s)
  calls : s.place i ≡ passed → Move s i (call_serve i s)
  leaves : (rest : ℕ) → s.place i ≡ serving → rest < s.stopping i → Move s i (leave_serve i rest s)
  -- a script calls `s80_reload`
  begins_reload :
      s.place i ≡ serving → can_reload true s.reload ≡ true → Move s i (begin_reload i s)
  sends_stop :
      (j : ℕ) → s.place i ≡ reloading j → ltb j s.reload.workers ≡ true → Move s i (send_stop i j s)
  ends_reload :
      (j : ℕ) → s.place i ≡ reloading j → ltb j s.reload.workers ≡ false → Move s i (end_reload i s)

pub data Reach (start : Workers) : Workers → Type 0 where
  here : Reach start start
  next :
      {s t : Workers} (i : ℕ)
      → Reach start s
      → i < start.reload.workers
      → Move s i t
      → Reach start t

-- `main` starts the workers.
pub record IsStart (s : Workers) : Type 0 where
  pub none_ready : s.reload.ready ≡ 0
  pub no_serve : s.has_serve ≡ false
  pub all_arriving : (k : ℕ) → s.place k ≡ arriving
