-- ===== src/Process/Calls.antt =====
-- The system calls that `s80_popen` makes, as an interface: the kernel is not under src/.
use s.Common.{◌==◌, ℕ, ◌≡◌, ◌≢◌, Bool, false, not, ◌&&◌, ◌||◌, Option, some}

-- `opened` tells which descriptors the process has open, `watched` which are in the worker's epoll
-- set. A descriptor leaves the epoll set when it is closed.
pub record Os : Type 1 where
  pub State : Type 0
  pub opened : State → ℕ → Bool
  pub watched : State → ℕ → Bool
  -- the end to read and the end to write
  pub pipe : State → Option ((ℕ × ℕ) × State)
  pub close : ℕ → State → State
  pub epoll_add : ℕ → State → Bool × State
  pub epoll_del : ℕ → State → State
  -- in the parent: whether there is a child
  pub fork : State → Bool × State
  pub pipe_fresh :
      (s s' : State) (r w : ℕ)
      → pipe s ≡ some ((r, w), s')
      → (opened s r ≡ false) × (opened s w ≡ false) × (r ≢ w)
  pub opened-pipe :
      (s s' : State) (r w : ℕ)
      → pipe s ≡ some ((r, w), s')
      → (k : ℕ) → opened s' k ≡ (opened s k || (k == r || k == w))
  pub watched-pipe :
      (s s' : State) (r w : ℕ) → pipe s ≡ some ((r, w), s') → (k : ℕ) → watched s' k ≡ watched s k
  pub opened-close : (n k : ℕ) (s : State) → opened (close n s) k ≡ (opened s k && not (k == n))
  pub watched-close : (n k : ℕ) (s : State) → watched (close n s) k ≡ (watched s k && not (k == n))
  pub opened-epoll_add : (n k : ℕ) (s : State) → opened (epoll_add n s).1 k ≡ opened s k
  pub watched-epoll_add :
      (n k : ℕ) (s : State)
      → watched (epoll_add n s).1 k ≡ (watched s k || ((epoll_add n s).0 && k == n))
  pub opened-epoll_del : (n k : ℕ) (s : State) → opened (epoll_del n s) k ≡ opened s k
  pub watched-epoll_del :
      (n k : ℕ) (s : State) → watched (epoll_del n s) k ≡ (watched s k && not (k == n))
  pub opened-fork : (k : ℕ) (s : State) → opened (fork s).1 k ≡ opened s k
  pub watched-fork : (k : ℕ) (s : State) → watched (fork s).1 k ≡ watched s k
