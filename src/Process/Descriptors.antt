-- ===== src/Process/Descriptors.antt =====
-- src/80s/80s_common.c: which descriptors are open and watched after `s80_popen`, on every branch.
use s.Common.{◌==◌, Bool-cases, ℕ, ◌≡◌, refl, ◌∙◌, inl, inr, ◌||◌, Option, none, some, arith}
use s.Process.Calls.{Os}
use s.Process.{cleanup_pipes, start_child, watch, second_pipe, first_pipe, popen}
use s.Process.Closing.{IsConsistent, Outcome, HasPipes, still_pipes, unwatched, close_all-Outcome}

module _ (O : Os) where
  open O use {State, opened, watched, pipe, close, epoll_add, epoll_del, fork}

  start_child-Outcome :
      (s s' : State) (rd0 wr1 wr0 rd1 : ℕ)
      → HasPipes O s rd0 wr1 wr0 rd1 s'
      → ((k : ℕ) → watched s' k ≡ (watched s k || (k == rd0 || k == wr1)))
      → Outcome O s (start_child O rd0 wr1 wr0 rd1 s')
  unfolding start_child Outcome
  start_child-Outcome s s' rd0 wr1 wr0 rd1 h w = elim (Bool-cases (fork s').0) [
    | inl parent ↦ rw parent (
      h.new_rd0,
      h.new_wr1,
      ground (arith, h.apart),
      λ k. (
        ground (
          arith,
          h.apart,
          h.new_rd0,
          h.new_wr1,
          h.new_wr0,
          h.new_rd1,
          h.now_open k,
          O.opened-fork k s',
          O.opened-close wr0 k (fork s').1,
          O.opened-close rd1 k (close wr0 (fork s').1),
        ),
        ground (
          arith,
          h.apart,
          w k,
          unwatched O s h.consistent k wr0 h.new_wr0,
          unwatched O s h.consistent k rd1 h.new_rd1,
          O.watched-fork k s',
          O.watched-close wr0 k (fork s').1,
          O.watched-close rd1 k (close wr0 (fork s').1),
        ),
      ),
    )
    | inr refused ↦ rw refused (
        close_all-Outcome O s (cleanup_pipes O rd0 wr1 (fork s').1) rd0 wr1 wr0 rd1
          (still_pipes O s s' _ rd0 wr1 wr0 rd1 h (λ k.
            rw
              (
                O.opened-epoll_del wr1 k (epoll_del rd0 (fork s').1),
                O.opened-epoll_del rd0 k (fork s').1,
                O.opened-fork k s',
              )
              refl))
          (λ k a b. ground (
            arith,
            w k,
            O.watched-fork k s',
            O.watched-epoll_del rd0 k (fork s').1,
            O.watched-epoll_del wr1 k (epoll_del rd0 (fork s').1),
          )))
  ]

  watch-Outcome :
      (s s' : State) (rd0 wr1 wr0 rd1 : ℕ)
      → HasPipes O s rd0 wr1 wr0 rd1 s'
      → ((k : ℕ) → watched s' k ≡ watched s k)
      → Outcome O s (watch O rd0 wr1 wr0 rd1 s')
  unfolding watch
  watch-Outcome s s' rd0 wr1 wr0 rd1 h w = elim (Bool-cases (epoll_add rd0 s').0) [
    | inr refused ↦ rw refused (
        close_all-Outcome O s (epoll_add rd0 s').1 rd0 wr1 wr0 rd1
          (still_pipes O s s' _ rd0 wr1 wr0 rd1 h (λ k. rw (O.opened-epoll_add rd0 k s') refl))
          (λ k a b. rw (O.watched-epoll_add rd0 k s') (ground (arith, w k))))
    | inl added ↦
        let s1 = (epoll_add rd0 s').1 in
        elim (Bool-cases (epoll_add wr1 s1).0) [
          | inr refused ↦
              rw (added, refused)
                (close_all-Outcome O s (epoll_add wr1 s1).1 rd0 wr1 wr0 rd1
                  (still_pipes O s s' _ rd0 wr1 wr0 rd1 h
                    (λ k. rw (O.opened-epoll_add wr1 k s1, O.opened-epoll_add rd0 k s') refl))
                  (λ k a b.
                    rw (O.watched-epoll_add wr1 k s1, O.watched-epoll_add rd0 k s')
                      (ground (arith, w k))))
          | inl both ↦
              rw (added, both)
                (start_child-Outcome s (epoll_add wr1 s1).1 rd0 wr1 wr0 rd1
                  (still_pipes O s s' _ rd0 wr1 wr0 rd1 h
                    (λ k. rw (O.opened-epoll_add wr1 k s1, O.opened-epoll_add rd0 k s') refl))
                  (λ k.
                    rw (O.watched-epoll_add wr1 k s1, O.watched-epoll_add rd0 k s')
                      (ground (arith, w k))))
        ]
  ]

  second_pipe-Outcome :
      (s s1 : State) (wr0 wr1 : ℕ)
      → IsConsistent O s
      → pipe s ≡ some ((wr0, wr1), s1)
      → (o : Option ((ℕ × ℕ) × State)) → pipe s1 ≡ o
      → Outcome O s (second_pipe O wr0 wr1 o s1)
  unfolding second_pipe Outcome
  second_pipe-Outcome s s1 wr0 wr1 c e none q = λ k.
      let f = O.pipe_fresh s s1 wr0 wr1 e in
      (
        ground (
          arith,
          f,
          O.opened-pipe s s1 wr0 wr1 e k,
          O.opened-close wr0 k s1,
          O.opened-close wr1 k (close wr0 s1),
        ),
        ground (
          arith,
          O.watched-pipe s s1 wr0 wr1 e k,
          O.watched-close wr0 k s1,
          O.watched-close wr1 k (close wr0 s1),
          unwatched O s c k wr0 f.0,
          unwatched O s c k wr1 f.1,
        ),
      )
  second_pipe-Outcome s s1 wr0 wr1 c e (some ((rd0, rd1), s2)) q =
      let f = O.pipe_fresh s s1 wr0 wr1 e in
      let g = O.pipe_fresh s1 s2 rd0 rd1 q in
      watch-Outcome s s2 rd0 wr1 wr0 rd1
        (record {
          consistent = c;
          new_rd0 = ground (arith, g, O.opened-pipe s s1 wr0 wr1 e rd0);
          new_wr1 = f.1;
          new_wr0 = f.0;
          new_rd1 = ground (arith, g, O.opened-pipe s s1 wr0 wr1 e rd1);
          apart = (
            f.2,
            g.2,
            ground (arith, g, O.opened-pipe s s1 wr0 wr1 e rd0),
            ground (arith, g, O.opened-pipe s s1 wr0 wr1 e rd0),
            ground (arith, g, O.opened-pipe s s1 wr0 wr1 e rd1),
            ground (arith, g, O.opened-pipe s s1 wr0 wr1 e rd1),
          );
          now_open =
              λ k. ground (arith, O.opened-pipe s1 s2 rd0 rd1 q k, O.opened-pipe s s1 wr0 wr1 e k);
        })
        (λ k. O.watched-pipe s1 s2 rd0 rd1 q k ∙ O.watched-pipe s s1 wr0 wr1 e k)

  first_pipe-Outcome :
      (s : State) (o : Option ((ℕ × ℕ) × State))
      → IsConsistent O s
      → pipe s ≡ o
      → Outcome O s (first_pipe O o s)
  unfolding first_pipe Outcome
  first_pipe-Outcome s none c e = λ k. (refl, refl)
  first_pipe-Outcome s (some ((wr0, wr1), s1)) c e =
      second_pipe-Outcome s s1 wr0 wr1 c e (pipe s1) refl

  -- Where only open descriptors are watched, `s80_popen` that fails leaves the open and the
  -- watched descriptors as they were; one that succeeds leaves two new ones, open and watched,
  -- and no other.
  pub popen_lem : (s : State) → IsConsistent O s → Outcome O s (popen O s)
  unfolding popen
  popen_lem s c = first_pipe-Outcome s (pipe s) c refl
