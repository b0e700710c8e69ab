-- ===== src/Process/Closing.antt =====
-- src/80s/80s_common.c: what `s80_popen` may leave open, and how its failing branches close it
-- again.
use s.Common.{◌==◌, ℕ, ◌≡◌, ap, ◌∙◌, ◌≢◌, true, false, not, ◌&&◌, ◌||◌, Option, none, some, arith}
use s.Process.Calls.{Os}
use s.Process.{close_all}

module _ (O : Os) where
  open O use {State, opened, watched, pipe, close, epoll_add, epoll_del, fork}

  -- Nothing but an open descriptor is watched.
  abbrev pub IsConsistent : State → Type 0
  IsConsistent s = (k : ℕ) → watched s k ≡ true → opened s k ≡ true

  -- What `s80_popen` leaves: after a failure the descriptors as they were; else two new ones, both
  -- watched.
  unfoldable pub Outcome : State → Option (ℕ × ℕ) × State → Type 0
  Outcome s (none, s') = (k : ℕ) → (opened s' k ≡ opened s k) × (watched s' k ≡ watched s k)
  Outcome s (some (r, w), s') =
      (opened s r ≡ false)
      × (opened s w ≡ false)
      × (r ≢ w)
      × ((k : ℕ)
          → (opened s' k ≡ (opened s k || (k == r || k == w)))
            × (watched s' k ≡ (watched s k || (k == r || k == w))))

  -- Two pipes are open, and nothing else has changed.
  pub record HasPipes (s : State) (rd0 wr1 wr0 rd1 : ℕ) (s' : State) : Type 0 where
    pub consistent : IsConsistent s
    pub new_rd0 : opened s rd0 ≡ false
    pub new_wr1 : opened s wr1 ≡ false
    pub new_wr0 : opened s wr0 ≡ false
    pub new_rd1 : opened s rd1 ≡ false
    pub apart : (wr0 ≢ wr1) × (rd0 ≢ rd1) × (rd0 ≢ wr0) × (rd0 ≢ wr1) × (rd1 ≢ wr0) × (rd1 ≢ wr1)
    pub now_open :
        (k : ℕ) → opened s' k ≡ (opened s k || (k == rd0 || (k == wr1 || (k == wr0 || k == rd1))))

  pub still_pipes :
      (s s' s2 : State) (rd0 wr1 wr0 rd1 : ℕ)
      → HasPipes s rd0 wr1 wr0 rd1 s'
      → ((k : ℕ) → opened s2 k ≡ opened s' k)
      → HasPipes s rd0 wr1 wr0 rd1 s2
  still_pipes s s' s2 rd0 wr1 wr0 rd1 h same = record {
    consistent = h.consistent;
    new_rd0 = h.new_rd0;
    new_wr1 = h.new_wr1;
    new_wr0 = h.new_wr0;
    new_rd1 = h.new_rd1;
    apart = h.apart;
    now_open = λ k. same k ∙ h.now_open k;
  }

  opened-close_all :
      (a b c d k : ℕ) (s : State)
      → opened (close_all O a b c d s) k
        ≡ (opened s k && not (k == a || (k == b || (k == c || k == d))))
  opened-close_all a b c d k s = ground (
    arith,
    O.opened-close a k s,
    O.opened-close b k (close a s),
    O.opened-close c k (close b (close a s)),
    O.opened-close d k (close c (close b (close a s))),
  )

  watched-close_all :
      (a b c d k : ℕ) (s : State)
      → watched (close_all O a b c d s) k
        ≡ (watched s k && not (k == a || (k == b || (k == c || k == d))))
  watched-close_all a b c d k s = ground (
    arith,
    O.watched-close a k s,
    O.watched-close b k (close a s),
    O.watched-close c k (close b (close a s)),
    O.watched-close d k (close c (close b (close a s))),
  )

  pub unwatched :
      (s : State) → IsConsistent s → (k n : ℕ) → opened s n ≡ false → k ≡ n → watched s k ≡ false
  unwatched s c k n closed e = ground (arith, c k, ap (opened s) e)

  -- After the two pipes are closed again nothing has changed.
  pub close_all-Outcome :
      (s s' : State) (rd0 wr1 wr0 rd1 : ℕ)
      → HasPipes s rd0 wr1 wr0 rd1 s'
      → ((k : ℕ) → k ≢ rd0 → k ≢ wr1 → watched s' k ≡ watched s k)
      → Outcome s (none, close_all O rd0 wr1 wr0 rd1 s')
  unfolding Outcome
  close_all-Outcome s s' rd0 wr1 wr0 rd1 h w k = (
    rw (opened-close_all rd0 wr1 wr0 rd1 k s', h.now_open k)
        (ground (arith, h.new_rd0, h.new_wr1, h.new_wr0, h.new_rd1)),
    rw (watched-close_all rd0 wr1 wr0 rd1 k s') (
        ground (
          arith,
          w k,
          unwatched s h.consistent k rd0 h.new_rd0,
          unwatched s h.consistent k wr1 h.new_wr1,
          unwatched s h.consistent k wr0 h.new_wr0,
          unwatched s h.consistent k rd1 h.new_rd1,
        )),
  )
