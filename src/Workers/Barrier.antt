-- ===== src/Workers/Barrier.antt =====
-- src/80s/80s.c: the library is loaded again only while all other workers wait.
use s.Common.{
  ◌==◌, if◌then◌else◌, Bool-cases, ℕ, suc, ◌+◌, ◌≤◌, ◌<◌, ◌≡◌, refl, sym, ap, subst, ◌∙◌, ◌≢◌, ◌⊎◌,
  inl, inr, Bool, true, false, arith,
}
use s.Workers.{
  Where, arriving, waiting, passed, serving, crashed, reloading, Workers, put, is_last, arrive,
  pass, call_serve, leave_serve, begin_reload, send_stop, end_reload, Move, arrives, passes, calls,
  leaves, begins_reload, sends_stop, ends_reload, Reach, here, next, IsStart,
}
use s.Workers.Count.{count, count-le, count-ext, count-all, count-gain}

abbrev pub is_waiting : Where → Bool
is_waiting waiting = true
is_waiting _ = false

is_waiting_lem : (w : Where) → is_waiting w ≡ true → w ≡ waiting
is_waiting_lem waiting h = refl
is_waiting_lem arriving h = cc
is_waiting_lem passed h = cc
is_waiting_lem serving h = cc
is_waiting_lem crashed h = cc
is_waiting_lem (reloading j) h = cc

-- How many wait in the loop behind the barrier.
abbrev waiters : ℕ → (ℕ → Where) → ℕ
waiters n place = count n (λ k. is_waiting (place k))

put_self : (f : ℕ → Where) (i : ℕ) (w : Where) → put f i w i ≡ w
put_self f i w = let y : (i == i) ≡ true = ground arith in rw y refl

put_other : (f : ℕ → Where) (i : ℕ) (w : Where) (k : ℕ) → k ≢ i → put f i w k ≡ f k
put_other f i w k h = elim (Bool-cases (k == i)) [
  | inl y ↦ absurd (h (ground arith))
  | inr n ↦ rw n refl
]

-- One that did not wait goes where it does not wait.
waiters-same :
    (n : ℕ) (f : ℕ → Where) (i : ℕ) (w : Where)
    → is_waiting (f i) ≡ false
    → is_waiting w ≡ false
    → waiters n (put f i w) ≡ waiters n f
waiters-same n f i w before after =
    count-ext n (λ k. is_waiting (put f i w k)) (λ k. is_waiting (f k))
      (λ k lt. elim (Bool-cases (k == i)) [
        | inl y ↦
            let same : k ≡ i = ground arith in
            subst (λ x. is_waiting (put f i w x) ≡ is_waiting (f x)) (sym same)
              (ap is_waiting (put_self f i w) ∙ after ∙ sym before)
        | inr m ↦ rw m refl
      ])

waiters-more :
    (n : ℕ) (f : ℕ → Where) (i : ℕ)
    → i < n
    → is_waiting (f i) ≡ false
    → waiters n (put f i waiting) ≡ waiters n f + 1
waiters-more n f i lt before =
    count-gain n (λ k. is_waiting (f k)) (λ k. is_waiting (put f i waiting k)) i lt before
      (ap is_waiting (put_self f i waiting)) (λ k h. ap is_waiting (put_other f i waiting k h))

-- What holds in every reachable state of `n` workers: as long as `ready` is less than `n`, that
-- many wait, or more; and `serve` is set only where no worker has come since `ready` was reset,
-- or all had come before.
record IsSound (n : ℕ) (s : Workers) : Type 0 where
  many : s.reload.workers ≡ n
  counted : s.reload.ready < n → s.reload.ready ≤ waiters n s.place
  full_or_none : s.has_serve ≡ true → (s.reload.ready ≡ 0) ⊎ (n ≤ s.reload.ready)

start-IsSound : (s : Workers) → IsStart s → IsSound s.reload.workers s
start-IsSound s h = record {
  many = refl;
  counted = λ lt. omega (arith, h.none_ready);
  full_or_none = λ t. inl h.none_ready;
}

module _ (n : ℕ) (s : Workers) (i : ℕ) (lt : i < n) (v : IsSound n s) where
  -- A move of a worker that waits neither before nor after it, and leaves the rest alone.
  elsewhere-IsSound :
      (w : Where) (stopping : ℕ → ℕ)
      → is_waiting (s.place i) ≡ false
      → is_waiting w ≡ false
      → IsSound n (record s { place = put s.place i w; stopping = stopping })
  elsewhere-IsSound w stopping before after = record {
    many = v.many;
    counted = λ h. omega (arith, v.counted h, waiters-same n s.place i w before after);
    full_or_none = v.full_or_none;
  }

  arrive-IsSound : s.place i ≡ arriving → IsSound n (arrive i s)
  unfolding arrive
  arrive-IsSound e = record {
    many = v.many;
    counted = λ h.
        let more = waiters-more n s.place i lt (ap is_waiting e) in
        omega (arith, v.counted (omega arith), more);
    full_or_none = λ t. inr (ground (arith, v.many, t));
  }

  pass-IsSound : s.has_serve ≡ true → IsSound n (pass i s)
  unfolding pass
  pass-IsSound t = record {
    many = v.many;
    counted =
        λ h. elim (v.full_or_none t) [ inl z ↦ omega (arith, z) | inr f ↦ absurd (omega arith) ];
    full_or_none = v.full_or_none;
  }

  call-IsSound : s.place i ≡ passed → IsSound n (call_serve i s)
  unfolding call_serve
  call-IsSound e = elim (Bool-cases s.has_serve) [
    | inl y ↦
        subst (λ b. IsSound n (record s { place = put s.place i (if b then serving else crashed) }))
          (sym y) (elsewhere-IsSound serving s.stopping (ap is_waiting e) refl)
    | inr z ↦
        subst (λ b. IsSound n (record s { place = put s.place i (if b then serving else crashed) }))
          (sym z) (elsewhere-IsSound crashed s.stopping (ap is_waiting e) refl)
  ]

  end-IsSound : IsSound n (end_reload i s)
  unfolding end_reload
  end-IsSound = record { many = v.many; counted = λ h. omega arith; full_or_none = λ t. inl refl }

  Move-IsSound : (t : Workers) → Move s i t → IsSound n t
  unfolding leave_serve begin_reload send_stop
  Move-IsSound _ (arrives e) = arrive-IsSound e
  Move-IsSound _ (passes e t) = pass-IsSound t
  Move-IsSound _ (calls e) = call-IsSound e
  Move-IsSound _ (leaves rest e h) =
      elsewhere-IsSound arriving (put s.stopping i rest) (ap is_waiting e) refl
  Move-IsSound _ (begins_reload e h) =
      elsewhere-IsSound (reloading 0) s.stopping (ap is_waiting e) refl
  Move-IsSound _ (sends_stop j e h) =
      elsewhere-IsSound (reloading (suc j)) (put s.stopping j (s.stopping j + 1)) (ap is_waiting e)
        refl
  Move-IsSound _ (ends_reload j e h) = end-IsSound

Reach-IsSound : (start s : Workers) → IsStart start → Reach start s → IsSound start.reload.workers s
Reach-IsSound start s h here = start-IsSound start h
Reach-IsSound start s h (next {s = t} i r lt m) =
    Move-IsSound start.reload.workers t i lt (Reach-IsSound start t h r) s m

-- However the workers and the reloads come, the steps of several `s80_reload` in between each
-- other and others included: whenever a worker comes to the barrier as the last one, which
-- closes the library that `serve` is in, every other worker waits in the loop behind the
-- barrier; none is in `serve`, in `s80_reload`, or on its way there.
pub reload_is_safe :
    (start s : Workers) (i k : ℕ)
    → IsStart start
    → Reach start s
    → i < start.reload.workers
    → k < start.reload.workers
    → s.place i ≡ arriving
    → is_last s.reload ≡ true
    → k ≢ i
    → s.place k ≡ waiting
reload_is_safe start s i k h r lt kn e last other =
    let n = start.reload.workers in
    let v = Reach-IsSound start s h r in
    let more = waiters-more n s.place i lt (ap is_waiting e) in
    let one_short : s.reload.ready + 1 ≡ n = ground (arith, last, v.many) in
    let full : waiters n (put s.place i waiting) ≡ n = omega (
      arith,
      more,
      v.counted (omega (arith, one_short)),
      one_short,
      count-le n (λ j. is_waiting (put s.place i waiting j)),
    ) in
    is_waiting_lem (s.place k) (
      sym (ap is_waiting (put_other s.place i waiting k other))
      ∙ count-all n (λ j. is_waiting (put s.place i waiting j)) full k kn)
