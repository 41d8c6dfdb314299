-- ===== src/Servers/Sharing.antt =====
-- The address of the servers of UdpServer/ belongs to the server that is destroyed first.
use boring.Prelude.{ℕ, ◌≡◌, ◌<◌, arith, some}
use boring.Outcome.{ok, fault, null_pointer, dangling_pointer, ◌>>=◌}
use boring.Memory.{deref}
use boring.Address.{SockAddr, get_sockaddr}
use boring.Servers.{Library, Objects, SocketServer, bind_server, destroy}

-- Two servers are given the same live address: each binds its socket to it. Once the first is
-- destroyed, its own pointer is null, and the other one, asked to bind or destroyed, reads the
-- address that was freed.
pub destroy-shared :
    (k : Library) (s t : SocketServer) (o : Objects) (p a : ℕ) (addr : SockAddr)
    → s.p_address ≡ p
    → t.p_address ≡ p
    → 0 < p
    → 0 < a
    → o.objects p ≡ some a
    → o.addresses.cells a ≡ some addr
    → (bind_server k s o ≡ ok (k.bind s.sock addr))
      × (bind_server k t o ≡ ok (k.bind t.sock addr))
      × ((do d ← destroy s o; bind_server k d.0 d.1) ≡ fault null_pointer)
      × ((do d ← destroy s o; bind_server k t d.1) ≡ fault dangling_pointer)
      × ((do d ← destroy s o; destroy t d.1) ≡ fault dangling_pointer)
unfolding bind_server destroy get_sockaddr deref
destroy-shared k s t o p a addr same_s same_t z z' e f = ground arith
