-- ===== src/Process/Tests.antt =====
-- src/80s/80s_common.c: `s80_popen` with a kernel of its own, which hands out descriptors in turn.
use s.Common.{
  ltb, ◌==◌, ℕ, ◌+◌, ◌≤◌, ◌≡◌, refl, ap, Bool, true, false, not, ◌&&◌, ◌||◌, Option, none, some,
  arith,
}
use s.Process.Calls.{Os}
use s.Process.{popen}
use s.Process.Closing.{Outcome}
use s.Process.Descriptors.{popen_lem}

-- The open and the watched descriptors, and the next new one: none above it is open.
pub record Table : Type 0 where
  pub is_open : ℕ → Bool
  pub is_watched : ℕ → Bool
  pub next : ℕ
  pub above : (k : ℕ) → next ≤ k → is_open k ≡ false

abbrev with_pipe : Table → Table
with_pipe s = record {
  is_open = λ k. s.is_open k || (k == s.next || k == s.next + 1);
  is_watched = s.is_watched;
  next = s.next + 2;
  above = λ k le. ground (arith, s.above k);
}

abbrev pipe_of : Table → Option ((ℕ × ℕ) × Table)
pipe_of s = some ((s.next, s.next + 1), with_pipe s)

pub pipe_of_lem :
    (s s' : Table) (r w : ℕ)
    → pipe_of s ≡ some ((r, w), s')
    → (s.next ≡ r) × (s.next + 1 ≡ w) × (with_pipe s ≡ s')
pipe_of_lem s s' r w e =
    let q : ◌≡◌ {A = (ℕ × ℕ) × Table} ((s.next, s.next + 1), with_pipe s) ((r, w), s') = cc in
    (ap (λ x. x.0.0) q, ap (λ x. x.0.1) q, ap (λ x. x.1) q)

abbrev close_of : ℕ → Table → Table
close_of n s = record {
  is_open = λ k. s.is_open k && not (k == n);
  is_watched = λ k. s.is_watched k && not (k == n);
  next = s.next;
  above = λ k le. ground (arith, s.above k);
}

abbrev add_of : ℕ → Table → Bool × Table
add_of n s = (
  true,
  record {
    is_open = s.is_open;
    is_watched = λ k. s.is_watched k || k == n;
    next = s.next;
    above = s.above;
  },
)

abbrev del_of : ℕ → Table → Table
del_of n s = record {
  is_open = s.is_open;
  is_watched = λ k. s.is_watched k && not (k == n);
  next = s.next;
  above = s.above;
}

-- A kernel that grants every pipe and every place in the epoll set, and forks or does not.
abbrev pub kernel : Bool → Os
kernel forks = record {
  State = Table;
  opened = λ s. s.is_open;
  watched = λ s. s.is_watched;
  pipe = pipe_of;
  close = close_of;
  epoll_add = add_of;
  epoll_del = del_of;
  fork = λ s. (forks, s);
  pipe_fresh = λ s s' r w e.
      let q = pipe_of_lem s s' r w e in
      rw (← q.0, ← q.1)
        (s.above s.next (omega arith), s.above (s.next + 1) (omega arith), λ z. omega arith);
  opened-pipe = λ s s' r w e k. let q = pipe_of_lem s s' r w e in rw (← q.0, ← q.1, ← q.2) refl;
  watched-pipe = λ s s' r w e k. let q = pipe_of_lem s s' r w e in rw (← q.2) refl;
  opened-close = λ n k s. refl;
  watched-close = λ n k s. refl;
  opened-epoll_add = λ n k s. refl;
  watched-epoll_add = λ n k s. refl;
  opened-epoll_del = λ n k s. refl;
  watched-epoll_del = λ n k s. refl;
  opened-fork = λ k s. refl;
  watched-fork = λ k s. refl;
}

-- Standard input, output and error.
abbrev pub standard : Table
standard = record {
  is_open = λ k. ltb k 3;
  is_watched = λ k. false;
  next = 3;
  above = λ k le. ground arith;
}

parent_ends : (popen (kernel true) standard).0 ≡ some (5, 4)
unfolding popen s.Process.first_pipe s.Process.second_pipe s.Process.watch s.Process.start_child
parent_ends = refl

no_child : (popen (kernel false) standard).0 ≡ none
unfolding popen s.Process.first_pipe s.Process.second_pipe s.Process.watch s.Process.start_child
no_child = refl

closed_again : (popen (kernel false) standard).1.is_open 4 ≡ false
unfolding popen s.Process.first_pipe s.Process.second_pipe s.Process.watch s.Process.start_child
closed_again = refl

popen_lem_example : Outcome (kernel false) standard (popen (kernel false) standard)
popen_lem_example = popen_lem (kernel false) standard (λ k e. cc)
