-- ===== src/Servers.antt =====
-- UdpServer/UdpServer.h and UdpServer.cpp, TcpServer.h and TcpServer.cpp: a socket with a pointer to
-- the address it is bound to. `CAddress` objects live in memory; each has the address of its
-- `CAddr`. The calls of the socket library are parameters.
pub mod Sharing
mod Tests
use boring.Prelude.{
  ℕ, ◌≡◌, Bool, true, false, List, [], ◌∷◌, Option, none, some, ◌==◌, if◌then◌else◌, length,
}
use boring.Prelude.Int.{ℤ, pos, negsuc}
use boring.Outcome.{Outcome, ok, ◌>>=◌}
use boring.Memory.{update, deref}
use boring.Address.{SockAddr, Addresses, get_sockaddr, write_sockaddr, release}

-- The socket of a family of two: stream or datagram.
pub data Kind : Type 0 where
  stream : Kind
  datagram : Kind

-- What the library answers; `recvfrom` gives the bytes and the sender, `none` is `SOCKET_ERROR` or
-- `INVALID_SOCKET`.
pub record Library : Type 0 where
  pub socket : Kind → Option ℕ
  pub bind : Option ℕ → SockAddr → ℤ
  pub recvfrom : Option ℕ → ℕ → Option (List ℕ × SockAddr)
  pub sendto : Option ℕ → SockAddr → List ℕ → Option ℕ
  pub recv : ℕ → ℕ → Option (List ℕ)
  pub send : ℕ → List ℕ → Option ℕ
  pub accept : Option ℕ → Option ℕ
  pub listen : Option ℕ → ℕ → ℤ

pub record Objects : Type 0 where
  pub addresses : Addresses
  pub objects : ℕ → Option ℕ

-- `CUdpServer` and `CTcpServer`.
pub record SocketServer : Type 0 where
  pub p_address : ℕ
  pub sock : Option ℕ

unfoldable pub set_address : ℕ → SocketServer → SocketServer
set_address p s = record s { p_address = p }

-- The destructors; the socket stays open.
unfoldable pub destroy : SocketServer → Objects → Outcome (SocketServer × Objects)
destroy s o = elim (s.p_address == 0) [
  | true ↦ ok (s, o)
  | false ↦ do
    a ← deref o.objects s.p_address
    ok (
      record s { p_address = 0 },
      record { addresses = release a o.addresses; objects = update o.objects s.p_address none },
    )
]

-- The bytes received, at most `len`, or `SOCKET_ERROR`.
abbrev pub received : Option (List ℕ) → ℤ × List ℕ
received none = (negsuc 0, [])
received (some bytes) = (pos (length bytes), bytes)

abbrev pub count_of : Option ℕ → ℤ
count_of none = negsuc 0
count_of (some n) = pos n

module _ (k : Library) where
  unfoldable pub new_udp : ℕ → SocketServer
  new_udp p = record { p_address = p; sock = k.socket datagram }

  unfoldable pub new_tcp : ℕ → SocketServer
  new_tcp p = record { p_address = p; sock = k.socket stream }

  unfoldable pub bind_server : SocketServer → Objects → Outcome ℤ
  bind_server s o = do
    a ← deref o.objects s.p_address
    addr ← get_sockaddr a o.addresses
    ok (k.bind s.sock addr)

  -- The sender is written into the address that the caller gives.
  unfoldable pub recv_from : ℕ → ℕ → SocketServer → Addresses → Outcome ((ℤ × List ℕ) × Addresses)
  recv_from address len s h = do
    _ ← get_sockaddr address h
    elim (k.recvfrom s.sock len) [
      | none ↦ ok ((negsuc 0, []), h)
      | some (bytes, sender) ↦ do
        h' ← write_sockaddr address sender h
        ok ((pos (length bytes), bytes), h')
    ]

  unfoldable pub send_to : ℕ → List ℕ → SocketServer → Addresses → Outcome ℤ
  send_to address bytes s h = do
    addr ← get_sockaddr address h
    ok (count_of (k.sendto s.sock addr bytes))

  unfoldable pub tcp_recv : ℕ → ℕ → ℤ × List ℕ
  tcp_recv fd len = received (k.recv fd len)

  unfoldable pub tcp_send : ℕ → List ℕ → ℤ
  tcp_send fd bytes = count_of (k.send fd bytes)

  unfoldable pub tcp_accept : SocketServer → Option ℕ
  tcp_accept s = k.accept s.sock

  unfoldable pub tcp_listen : ℕ → SocketServer → ℤ
  tcp_listen backlog s = k.listen s.sock backlog
