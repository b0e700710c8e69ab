-- ===== src/Socket/Outcomes.antt =====
-- src/80s/80s_common.c: which descriptors are open and watched after `s80_connect` and `s80_close`.
use s.Common.{
  ◌==◌, Bool-cases, ℕ, ◌≡◌, refl, ◌∙◌, inl, inr, Bool, true, false, not, ◌&&◌, ◌||◌, Option, none,
  some, List, arith,
}
use s.Process.Calls.{Os}
use s.Socket.Calls.{Family, Address, Sockets}
use s.Socket.Connect.{connect_to, finish_connect, with_socket, with_address, close_socket}

module _ (O : Os) (N : Sockets O) where
  open O use {State, opened, watched, close, epoll_add, epoll_del}
  open N use {socket, connect, is_removed}

  -- Nothing has changed, or exactly one descriptor is new: it is returned and watched, or it is
  -- neither, and nothing closes it.
  pub data Connected (s : State) : Option ℕ × State → Type 0 where
    nothing : {s' : State} → s' ≡ s → Connected s (none, s')
    open_socket :
        {s' : State} (n : ℕ)
        → opened s n ≡ false
        → ((k : ℕ) → opened s' k ≡ (opened s k || k == n))
        → ((k : ℕ) → watched s' k ≡ (watched s k || k == n))
        → Connected s (some n, s')
    leaked :
        {s' : State} (n : ℕ)
        → opened s n ≡ false
        → ((k : ℕ) → opened s' k ≡ (opened s k || k == n))
        → ((k : ℕ) → watched s' k ≡ watched s k)
        → Connected s (none, s')

  finish-Connected :
      (s s' : State) (f : Family) (udp : Bool) (n : ℕ) (a : Address)
      → socket f udp s ≡ some (n, s')
      → Connected s (finish_connect O N n a s')
  unfolding finish_connect
  finish-Connected s s' f udp n a e =
      let s1 = (connect n a s').1 in
      let new = N.socket_fresh f udp s s' n e in
      let now : (k : ℕ) → opened s1 k ≡ (opened s k || k == n) =
        λ k. N.opened-connect n a s' k ∙ N.opened-socket f udp s s' n e k in
      let seen : (k : ℕ) → watched s1 k ≡ watched s k =
        λ k. N.watched-connect n a s' k ∙ N.watched-socket f udp s s' n e k in
      let added : (k : ℕ) → opened (epoll_add n s1).1 k ≡ (opened s k || k == n) =
        λ k. O.opened-epoll_add n k s1 ∙ now k in
      elim (Bool-cases (connect n a s').0) [
        | inr refused ↦ rw refused (leaked n new now seen)
        | inl connected ↦ elim (Bool-cases (epoll_add n s1).0) [
          | inl ok ↦
              rw (connected, ok)
                (open_socket n new added
                  (λ k. ground (arith, seen k, ok, O.watched-epoll_add n k s1)))
          | inr no' ↦
              rw (connected, no')
                (leaked n new added (λ k. ground (arith, seen k, no', O.watched-epoll_add n k s1)))
        ]
      ]

  with_socket-Connected :
      (s : State) (f : Family) (udp : Bool) (a : Address) (o : Option (ℕ × State))
      → socket f udp s ≡ o
      → Connected s (with_socket O N a o s)
  unfolding with_socket
  with_socket-Connected s f udp a none e = nothing refl
  with_socket-Connected s f udp a (some (n, s')) e = finish-Connected s s' f udp n a e

  with_address-Connected :
      (s : State) (udp : Bool) (o : Option (Family × Address))
      → Connected s (with_address O N udp o s)
  unfolding with_address
  with_address-Connected s udp none = nothing refl
  with_address-Connected s udp (some (f, a)) = with_socket-Connected s f udp a (socket f udp s) refl

  -- `s80_connect` changes nothing but for at most one new socket: it is returned, open and
  -- watched; or -1 is returned, and nothing has changed, or the socket is left open, watched by
  -- nobody.
  pub connect_to_lem :
      (addr : List ℕ) (portno : ℕ) (udp : Bool) (s : State)
      → Connected s (connect_to O N addr portno udp s)
  unfolding connect_to
  connect_to_lem addr portno udp s = with_address-Connected s udp _

  -- A refused `connect` leaks the socket: -1 is returned, and a descriptor is open that was not.
  pub refused_connect_leaks :
      (s s' : State) (f : Family) (udp : Bool) (n : ℕ) (a : Address)
      → socket f udp s ≡ some (n, s')
      → (connect n a s').0 ≡ false
      → ((with_address O N udp (some (f, a)) s).0 ≡ none)
        × (opened s n ≡ false)
        × (opened (with_address O N udp (some (f, a)) s).1 n ≡ true)
  unfolding with_address with_socket finish_connect
  refused_connect_leaks s s' f udp n a e r =
      rw (e, r)
        (
          refl,
          N.socket_fresh f udp s s' n e,
          (N.opened-connect n a s' n ∙ N.opened-socket f udp s s' n e n) ∙ ground arith,
        )

  -- The descriptor has left the epoll set and is closed, or it has not and stays open.
  pub data Closed (n : ℕ) (callback : Bool) (s : State) : (Bool × Bool) × State → Type 0 where
    closed :
        {answer : Bool} {s' : State}
        → is_removed n s ≡ true
        → ((k : ℕ) → opened s' k ≡ (opened s k && not (k == n)))
        → ((k : ℕ) → watched s' k ≡ (watched s k && not (k == n)))
        → Closed n callback s ((answer, callback), s')
    still_open :
        {s' : State}
        → is_removed n s ≡ false
        → ((k : ℕ) → opened s' k ≡ opened s k)
        → Closed n callback s ((false, false), s')

  -- `s80_close`, where the descriptor leaves the epoll set: afterwards it is neither open nor
  -- watched, no other descriptor has changed, and the handler has been called just if it was
  -- asked for. Where it does not leave the set, the answer is negative, no handler is called and
  -- the descriptor stays open.
  pub close_socket_lem :
      (n : ℕ) (callback : Bool) (s : State) → Closed n callback s (close_socket O N n callback s)
  unfolding close_socket
  close_socket_lem n callback s = elim (Bool-cases (is_removed n s)) [
    | inl y ↦ rw y (
        closed y (λ k. rw (O.opened-close n k (epoll_del n s), O.opened-epoll_del n k s) refl)
          (λ k. rw (O.watched-close n k (epoll_del n s), O.watched-epoll_del n k s) (ground arith)))
    | inr y ↦ rw y (still_open y (λ k. O.opened-epoll_del n k s))
  ]
