-- ===== src/Socket/ConnectTests.antt =====
-- src/80s/80s_common.c: runs of `s80_connect` and `s80_close` over a small kernel.
use s.Common.{
  ◌==◌, ℕ, ◌+◌, ◌≡◌, refl, sym, ap, subst, ◌∙◌, Bool, true, false, ◌||◌, Option, some, [], ◌∷◌,
  arith,
}
use s.Process.Tests.{Table, kernel, standard}
use s.Socket.Calls.{v4, Sockets}
use s.Socket.Connect.{connect_to, with_address, close_socket}
use s.Socket.Outcomes.{Connected, connect_to_lem}

abbrev with_socket_open : Table → Table
with_socket_open s = record {
  is_open = λ k. s.is_open k || k == s.next;
  is_watched = s.is_watched;
  next = s.next + 1;
  above = λ k le. ground (arith, s.above k);
}

pub socket_of_lem :
    (s s' : Table) (n : ℕ)
    → ◌≡◌ {A = Option (ℕ × Table)} (some (s.next, with_socket_open s)) (some (n, s'))
    → (s.next ≡ n) × (with_socket_open s ≡ s')
socket_of_lem s s' n e =
    let q : ◌≡◌ {A = ℕ × Table} (s.next, with_socket_open s) (n, s') = cc in
    (ap (λ x. x.0) q, ap (λ x. x.1) q)

-- Every name is the host 7; a connect is answered as given.
abbrev sockets : Bool → Sockets (kernel true)
sockets answers = record {
  gethostbyname = λ name. some (v4 (7 ∷ []));
  socket = λ f udp s. some (s.next, with_socket_open s);
  connect = λ n a s. (answers, s);
  is_removed = λ n s. s.is_watched n;
  is_closed = λ n s. true;
  socket_fresh = λ f udp s s' n e.
      subst (λ x. s.is_open x ≡ false) (socket_of_lem s s' n e).0 (s.above s.next (omega arith));
  opened-socket = λ f udp s s' n e k.
      let (p, q) = socket_of_lem s s' n e in
      ap (λ x. x.is_open k) (sym q) ∙ ap (λ x. s.is_open k || k == x) p;
  watched-socket = λ f udp s s' n e k. ap (λ x. x.is_watched k) (sym (socket_of_lem s s' n e).1);
  opened-connect = λ n a s k. refl;
  watched-connect = λ n a s k. refl;
}

connects :
    (connect_to (kernel true) (sockets true) (b'h' ∷ []) 80 false standard).0 ≡ some standard.next
unfolding connect_to with_address s.Socket.Connect.choose s.Socket.Connect.read_protocol
    s.Socket.Connect.with_socket s.Socket.Connect.finish_connect
connects = refl

connect_to_lem_example :
    Connected
      (kernel true)
      (sockets true)
      standard
      (connect_to (kernel true) (sockets true) (b'h' ∷ []) 80 false standard)
connect_to_lem_example = connect_to_lem (kernel true) (sockets true) (b'h' ∷ []) 80 false standard
