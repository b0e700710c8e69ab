-- ===== src/Workers/Tests.antt =====
-- src/80s/80s.c: two workers, and a worker that stops before the reload is over.
use s.Common.{ℕ, zero, suc, ◌<◌, ◌≡◌, refl, false, some, [], arith}
use s.Mailbox.{Mailbox}
use s.Workers.{
  arriving, waiting, Workers, arrive, pass, call_serve, leave_serve, begin_reload, send_stop,
  end_reload, Move, arrives, passes, calls, leaves, begins_reload, sends_stop, ends_reload, Reach,
  here, next, IsStart,
}
use s.Workers.Barrier.{reload_is_safe}

abbrev no_mail : Mailbox
no_mail = record { signaled = false; messages = some []; size = 0; reserved = 32; pipe = [] }

abbrev two : Workers
two = record {
  reload = record { running = 1; ready = 0; workers = 2; mailboxes = λ _. no_mail };
  has_serve = false;
  place = λ _. arriving;
  stopping = λ _. 0;
}

two-IsStart : IsStart two
two-IsStart = record { none_ready = refl; no_serve = refl; all_arriving = λ k. refl }

abbrev one_came : Workers
one_came = arrive 0 two

one_came-Reach : Reach two one_came
one_came-Reach = next 0 here (omega arith) (arrives refl)

reload_is_safe_example : one_came.place 0 ≡ waiting
unfolding arrive
reload_is_safe_example =
    reload_is_safe two one_came 1 0 two-IsStart one_came-Reach (omega arith) (omega arith) refl refl
      (λ e. omega arith)

-- Both serve.
abbrev both_serve : Workers
both_serve = call_serve 1 (call_serve 0 (pass 1 (pass 0 (arrive 1 one_came))))

both_serve-Reach : Reach two both_serve
unfolding arrive pass call_serve
both_serve-Reach =
    next 1
      (next 0
        (next 1
          (next 0 (next 1 one_came-Reach (omega arith) (arrives refl)) (omega arith)
            (passes refl refl))
          (omega arith) (passes refl refl))
        (omega arith) (calls refl))
      (omega arith) (calls refl)

-- Worker 0 has written both STOP bytes; worker 1 stops and comes to the barrier before `ready` is
-- reset.
abbrev too_early : Workers
too_early = arrive 1 (leave_serve 1 0 (send_stop 0 1 (send_stop 0 0 (begin_reload 0 both_serve))))

too_early-Reach : Reach two too_early
unfolding arrive pass call_serve begin_reload send_stop leave_serve
too_early-Reach =
    next 1
      (next 1
        (next 0
          (next 0 (next 0 both_serve-Reach (omega arith) (begins_reload refl refl)) (omega arith)
            (sends_stop 0 refl refl))
          (omega arith) (sends_stop 1 refl refl))
        (omega arith) (leaves 0 refl (omega arith)))
      (omega arith) (arrives refl)

-- Then worker 0 resets `ready`, stops, and comes too: only one of the two is counted.
abbrev hung : Workers
hung = arrive 0 (leave_serve 0 0 (end_reload 0 too_early))

hung-Reach : Reach two hung
unfolding arrive pass call_serve begin_reload send_stop leave_serve end_reload
hung-Reach =
    next 0
      (next 0 (next 0 too_early-Reach (omega arith) (ends_reload 2 refl refl)) (omega arith)
        (leaves 0 refl (omega arith)))
      (omega arith) (arrives refl)

waits_blocked :
    (s : Workers) (i : ℕ) (t : Workers) → s.place i ≡ waiting → s.has_serve ≡ false → ¬ Move s i t
waits_blocked s i t w n (arrives e) = absurd (ground (arith, w, e))
waits_blocked s i t w n (passes e h) = absurd (ground (arith, n, h))
waits_blocked s i t w n (calls e) = absurd (ground (arith, w, e))
waits_blocked s i t w n (leaves rest e h) = absurd (ground (arith, w, e))
waits_blocked s i t w n (begins_reload e h) = absurd (ground (arith, w, e))
waits_blocked s i t w n (sends_stop j e h) = absurd (ground (arith, w, e))
waits_blocked s i t w n (ends_reload j e h) = absurd (ground (arith, w, e))

-- Both wait, for ever.
hung_is_stuck : (t : Workers) (i : ℕ) → i < 2 → ¬ Move hung i t
unfolding arrive leave_serve end_reload send_stop begin_reload call_serve pass
hung_is_stuck t zero lt = waits_blocked hung 0 t refl refl
hung_is_stuck t (suc zero) lt = waits_blocked hung 1 t refl refl
hung_is_stuck t (suc (suc i)) lt = absurd (omega arith)
