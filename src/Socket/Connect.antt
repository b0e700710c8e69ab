-- ===== src/Socket/Connect.antt =====
-- src/80s/80s_common.c: `s80_connect` and `s80_close`.
use s.Common.{
  ◌==◌, if◌then◌else◌, take, drop, ◌>>=◌, ℕ, ◌%◌, Bool, true, false, ◌&&◌, Option, none, some, List,
  [], ◌∷◌,
}
use s.Process.Calls.{Os}
use s.Socket.Calls.{
  Family, inet, inet6, unix, Host, v4, v6, Address, v4_address, v6_address, path_address, Sockets,
}

-- `strstr(text, prefix) == text`
abbrev pub starts_with : List ℕ → List ℕ → Bool
starts_with [] text = true
starts_with (p ∷ ps) [] = false
starts_with (p ∷ ps) (c ∷ cs) = p == c && starts_with ps cs

abbrev pub v6_prefix : List ℕ
v6_prefix = b'v' ∷ b'6' ∷ b':' ∷ []

abbrev pub unix_prefix : List ℕ
unix_prefix = b'u' ∷ b'n' ∷ b'i' ∷ b'x' ∷ b':' ∷ []

-- The protocol that the text asks for, and the name behind its prefix.
unfoldable pub read_protocol : List ℕ → Family × List ℕ
read_protocol addr =
    if starts_with v6_prefix addr
    then (inet6, drop 3 addr)
    else if starts_with unix_prefix addr
    then (unix, drop 5 addr)
    else (inet, addr)

abbrev first_of : List ℕ → Option ℕ
first_of [] = none
first_of (a ∷ as') = some a

-- `addr_v4` and `addr_v6`, if they are found.
abbrev pub find_v4 : Host → Option ℕ
find_v4 (v4 as') = first_of as'
find_v4 _ = none

abbrev pub find_v6 : Host → Option ℕ
find_v6 (v6 as') = first_of as'
find_v6 _ = none

-- `htons((unsigned short)portno)`
abbrev pub port : ℕ → ℕ
port portno = portno % 65536

abbrev on_v4 : ℕ → Host → Option (Family × Address)
on_v4 portno h = find_v4 h >>= λ a. some (inet, v4_address a (port portno))

abbrev on_v6 : ℕ → Host → Option ℕ → Option (Family × Address)
on_v6 portno h (some a) = some (inet6, v6_address a (port portno))
on_v6 portno h none = on_v4 portno h

-- `sun_path` has 108 bytes. The family of the socket and the address, none where nothing is
-- found: a host that was asked for by v6 may be reached by v4, not the other way round.
unfoldable pub choose : Family → List ℕ → Option Host → ℕ → Option (Family × Address)
choose unix name host portno = some (unix, path_address (take 108 name))
choose inet name host portno = host >>= on_v4 portno
choose inet6 name host portno = host >>= λ h. on_v6 portno h (find_v6 h)

module _ (O : Os) (N : Sockets O) where
  open O use {State, close, epoll_add, epoll_del}
  open N use {gethostbyname, socket, connect, is_removed, is_closed}

  -- From `connect` on: the socket, or none where -1 is returned.
  unfoldable pub finish_connect : ℕ → Address → State → Option ℕ × State
  finish_connect childfd final s =
      let connected = connect childfd final s in
      let added = epoll_add childfd connected.1 in
      if connected.0
      then (if added.0 then (some childfd, added.1) else (none, added.1))
      else (none, connected.1)

  unfoldable pub with_socket : Address → Option (ℕ × State) → State → Option ℕ × State
  with_socket final none s = (none, s)
  with_socket final (some (childfd, s')) s = finish_connect childfd final s'

  unfoldable pub with_address : Bool → Option (Family × Address) → State → Option ℕ × State
  with_address is_udp none s = (none, s)
  with_address is_udp (some (protocol, final)) s = with_socket final (socket protocol is_udp s) s

  -- `s80_connect`, with O_NONBLOCK left out.
  unfoldable pub connect_to : List ℕ → ℕ → Bool → State → Option ℕ × State
  connect_to addr portno is_udp s =
      let asked = read_protocol addr in
      with_address is_udp (choose asked.0 asked.1 (gethostbyname asked.1) portno) s

  -- `s80_close`: the answer's sign, whether `on_close` is called, and the state behind it.
  unfoldable pub close_socket : ℕ → Bool → State → (Bool × Bool) × State
  close_socket childfd callback s =
      let removed = epoll_del childfd s in
      if is_removed childfd s
      then ((is_closed childfd removed, callback), close childfd removed)
      else ((false, false), removed)
