-- ===== src/Servers/Tests.antt =====
-- Two servers of UdpServer/ that share an address.
use boring.Prelude.{ℕ, ◌≡◌, refl, arith, none, some, ◌==◌, if◌then◌else◌}
use boring.Prelude.Int.{pos}
use boring.Outcome.{ok, fault, null_pointer, dangling_pointer, ◌>>=◌}
use boring.Address.{SockAddr}
use boring.Servers.{Library, Objects, SocketServer, bind_server, destroy}
use boring.Servers.Sharing.{destroy-shared}

abbrev a_library : Library
a_library = record {
  socket = λ k. some 5;
  bind = λ f a. pos 0;
  recvfrom = λ f n. none;
  sendto = λ f a b. none;
  recv = λ f n. none;
  send = λ f b. none;
  accept = λ f. none;
  listen = λ f b. pos 0;
}

abbrev local : SockAddr
local = record { sin_family = 2; sin_port = 80; s_addr = 7 }

abbrev shared : Objects
shared = record {
  addresses = record { cells = λ a. if a == 3 then some local else none; next = 4 };
  objects = λ p. if p == 2 then some 3 else none;
}

abbrev server : ℕ → SocketServer
server f = record { p_address = 2; sock = some f }

shared_applied :
    (bind_server a_library (server 5) shared ≡ ok (pos 0))
    × (bind_server a_library (server 6) shared ≡ ok (pos 0))
    × ((do d ← destroy (server 5) shared; bind_server a_library d.0 d.1) ≡ fault null_pointer)
    × ((do d ← destroy (server 5) shared; bind_server a_library (server 6) d.1)
        ≡ fault dangling_pointer)
    × ((do d ← destroy (server 5) shared; destroy (server 6) d.1) ≡ fault dangling_pointer)
shared_applied =
    destroy-shared a_library (server 5) (server 6) shared 2 3 local refl refl (omega arith)
      (omega arith) refl refl
