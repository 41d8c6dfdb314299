-- ===== src/NetAddress.antt =====
-- pthread/main.cpp: `net_address`, `net_socket` and `net_tcp_accepter`. A field that a constructor
-- leaves unset is `none`. The socket library is a parameter, its names of hosts and addresses those
-- of Address.
pub mod Agreement
mod Tests
use boring.Prelude.{
  ℕ, ◌≡◌, Bool, true, false, List, [], ◌∷◌, Option, none, some, ◌==◌, if◌then◌else◌,
}
use boring.Outcome.{Outcome, ok, fault, null_pointer, uninitialised, or_fault}
use boring.Address.{Str, Winsock, af_inet}

pub record NetAddress : Type 0 where
  pub ip : Str
  pub port : Option ℕ
  pub sin_family : ℕ
  pub sin_port : Option ℕ
  pub s_addr : ℕ

-- `bind`, `listen` and `accept` on a socket; `accept` gives a connection or `INVALID_SOCKET`.
pub record Calls : Type 0 where
  pub bind : ℕ → NetAddress → Bool
  pub listen : ℕ → ℕ → Bool
  pub accept : ℕ → Option ℕ

pub record Accepter : Type 0 where
  pub fd : Option ℕ
  pub addr : NetAddress

module _ (w : Winsock) where
  unfoldable pub new_default : NetAddress
  new_default = record {
    ip = w.inet_ntoa (w.htonl 0);
    port = none;
    sin_family = af_inet;
    sin_port = none;
    s_addr = w.htonl 0;
  }

  -- `_ip(ip)` makes a string of the pointer before it is compared with `NULL`.
  unfoldable pub new_ip : Option Str → ℕ → Outcome NetAddress
  new_ip none port = fault null_pointer
  new_ip (some ip) port = ok (record {
    ip = ip;
    port = some port;
    sin_family = af_inet;
    sin_port = some (w.htons port);
    s_addr = w.inet_addr ip;
  })

  unfoldable pub new_port : ℕ → NetAddress
  new_port port = record {
    ip = w.inet_ntoa (w.htonl 0);
    port = some port;
    sin_family = af_inet;
    sin_port = some (w.htons port);
    s_addr = w.htonl 0;
  }

  unfoldable pub set_ip : Option Str → NetAddress → NetAddress
  set_ip none a = a
  set_ip (some ip) a = record a { ip = ip; s_addr = w.inet_addr ip }

  unfoldable pub set_port : ℕ → NetAddress → NetAddress
  set_port port a = record a { port = some port; sin_port = some (w.htons port) }

unfoldable pub get_port : NetAddress → Outcome ℕ
get_port a = or_fault a.port uninitialised

-- `net_socket::is_create`.
unfoldable pub is_create : Option ℕ → Bool
is_create none = false
is_create (some fd) = true

-- `INVALID_SOCKET`, as the number that the calls get.
abbrev pub fd_number : Option ℕ → ℕ
fd_number none = 4294967295
fd_number (some fd) = fd

module _ (k : Calls) where
  unfoldable pub bind_addr : Accepter → Bool
  bind_addr s = k.bind (fd_number s.fd) s.addr

  -- The two that set the address first.
  unfoldable pub bind_to : NetAddress → Accepter → Accepter × Bool
  unfolding bind_addr
  bind_to addr s = let s' = record s { addr = addr } in (s', bind_addr s')

  unfoldable pub listen_on : ℕ → Accepter → Bool
  listen_on backlog s = k.listen (fd_number s.fd) backlog

  -- `accpet`: the connection is kept in a local variable, and `sock` is assigned a copy of itself.
  -- What is returned, the socket that the caller has, and the connection that nothing refers to.
  unfoldable pub accpet : Accepter → Option ℕ → (Bool × Option ℕ) × Option ℕ
  unfolding listen_on
  accpet s sock =
      if listen_on 100 s then ((true, sock), k.accept (fd_number s.fd)) else ((false, sock), none)
