-- ===== src/Process.antt =====
-- src/80s/80s_common.c: the descriptors of a child process, `s80_popen` and `cleanup_pipes`.
pub mod Calls
pub mod Closing
pub mod Descriptors
pub mod Tests
use s.Common.{if◌then◌else◌, ℕ, Option, none, some}
use s.Process.Calls.{Os}

module _ (O : Os) where
  open O use {State, pipe, close, epoll_add, epoll_del, fork}

  -- The two pipes: the parent reads `rd0` and writes `wr1`, the child reads `wr0` and writes `rd1`.
  -- `pipes` holds them as rd0, wr1, wr0, rd1.
  abbrev pub close_all : ℕ → ℕ → ℕ → ℕ → State → State
  close_all rd0 wr1 wr0 rd1 s = close rd1 (close wr0 (close wr1 (close rd0 s)))

  -- `cleanup_pipes(elfd, pipes, 2)`; with 0 or -1 it does nothing.
  abbrev pub cleanup_pipes : ℕ → ℕ → State → State
  cleanup_pipes rd0 wr1 s = epoll_del wr1 (epoll_del rd0 s)

  -- From the `fork` on, in the parent: `pipes_out`, or none where -1 is returned.
  unfoldable pub start_child : ℕ → ℕ → ℕ → ℕ → State → Option (ℕ × ℕ) × State
  start_child rd0 wr1 wr0 rd1 s =
      let forked = fork s in
      if forked.0
      then (some (rd0, wr1), close rd1 (close wr0 forked.1))
      else (none, close_all rd0 wr1 wr0 rd1 (cleanup_pipes rd0 wr1 forked.1))

  -- The loop over the parent's two ends, `i = 0` and `i = 1`, and what follows it.
  unfoldable pub watch : ℕ → ℕ → ℕ → ℕ → State → Option (ℕ × ℕ) × State
  watch rd0 wr1 wr0 rd1 s =
      let first = epoll_add rd0 s in
      let second = epoll_add wr1 first.1 in
      if first.0
      then (if second.0
          then start_child rd0 wr1 wr0 rd1 second.1
          else (none, close_all rd0 wr1 wr0 rd1 second.1))
      else (none, close_all rd0 wr1 wr0 rd1 first.1)

  unfoldable pub second_pipe : ℕ → ℕ → Option ((ℕ × ℕ) × State) → State → Option (ℕ × ℕ) × State
  second_pipe wr0 wr1 none s = (none, close wr1 (close wr0 s))
  second_pipe wr0 wr1 (some ((rd0, rd1), s')) s = watch rd0 wr1 wr0 rd1 s'

  unfoldable pub first_pipe : Option ((ℕ × ℕ) × State) → State → Option (ℕ × ℕ) × State
  first_pipe none s = (none, s)
  first_pipe (some ((wr0, wr1), s')) s = second_pipe wr0 wr1 (pipe s') s'

  -- `s80_popen`, in the parent.
  unfoldable pub popen : State → Option (ℕ × ℕ) × State
  popen s = first_pipe (pipe s) s
