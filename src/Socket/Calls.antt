-- ===== src/Socket/Calls.antt =====
-- The calls that `s80_connect` and `s80_close` make beside those of `s80_popen`, as an interface:
-- the kernel and the resolver are not under src/.
use s.Common.{◌==◌, ℕ, ◌≡◌, Bool, false, ◌||◌, Option, some, List}
use s.Process.Calls.{Os}

-- AF_INET, AF_INET6 and AF_UNIX.
pub data Family : Type 0 where
  inet inet6 unix : Family

-- What `gethostbyname` finds: the addresses of `h_addr_list`, by `h_addrtype`.
pub data Host : Type 0 where
  v4 v6 : List ℕ → Host
  unknown : Host

-- The address that is passed to `connect`: `sockaddr_in`, `sockaddr_in6` or `sockaddr_un`.
pub data Address : Type 0 where
  v4_address v6_address : ℕ → ℕ → Address
  path_address : List ℕ → Address

pub record Sockets (O : Os) : Type 1 where
  pub gethostbyname : List ℕ → Option Host
  -- the family, and whether it is a datagram socket
  pub socket : Family → Bool → Os.State O → Option (ℕ × Os.State O)
  -- whether it is connected or in progress
  pub connect : ℕ → Address → Os.State O → Bool × Os.State O
  -- whether EPOLL_CTL_DEL answers 0
  pub is_removed : ℕ → Os.State O → Bool
  -- whether `close` answers 0
  pub is_closed : ℕ → Os.State O → Bool
  pub socket_fresh :
      (f : Family) (udp : Bool) (s s' : Os.State O) (n : ℕ)
      → socket f udp s ≡ some (n, s')
      → Os.opened O s n ≡ false
  pub opened-socket :
      (f : Family) (udp : Bool) (s s' : Os.State O) (n : ℕ)
      → socket f udp s ≡ some (n, s')
      → (k : ℕ) → Os.opened O s' k ≡ (Os.opened O s k || k == n)
  pub watched-socket :
      (f : Family) (udp : Bool) (s s' : Os.State O) (n : ℕ)
      → socket f udp s ≡ some (n, s')
      → (k : ℕ) → Os.watched O s' k ≡ Os.watched O s k
  pub opened-connect :
      (n : ℕ) (a : Address) (s : Os.State O) (k : ℕ)
      → Os.opened O (connect n a s).1 k ≡ Os.opened O s k
  pub watched-connect :
      (n : ℕ) (a : Address) (s : Os.State O) (k : ℕ)
      → Os.watched O (connect n a s).1 k ≡ Os.watched O s k
