-- ===== src/Address.antt =====
-- net/Address.h and net/Address.cpp: socket addresses. Each `CAddress` owns the `CAddr` that its
-- shared pointer holds: every copy and assignment makes another one, so it is named by the address
-- of that `CAddr`. The socket library is a parameter; texts are their bytes.
pub mod Laws
pub mod Startup
mod Tests
use boring.Prelude.{
  ℕ, zero, suc, ◌≡◌, ◌<◌, Bool, true, false, ◌&&◌, List, [], ◌∷◌, ◌++◌, Option, none, some, ◌==◌,
  if◌then◌else◌,
}
use boring.Prelude.Int.{ℤ, pos, negsuc}
use boring.Outcome.{Outcome, ok, fault, ◌>>=◌}
use boring.Memory.{update, deref}
use boring.Dict.{str_eq}

abbrev pub Str : Type 0
Str = List ℕ

-- `struct sockaddr_in`; the port and the address are in network order.
pub record SockAddr : Type 0 where
  pub sin_family : ℕ
  pub sin_port : ℕ
  pub s_addr : ℕ

-- `gethostbyname` gives the first address of the host; `decimal` is what `%d` prints.
pub record Winsock : Type 0 where
  pub htons : ℕ → ℕ
  pub ntohs : ℕ → ℕ
  pub htonl : ℕ → ℕ
  pub inet_addr : Str → ℕ
  pub inet_ntoa : ℕ → Str
  pub gethostbyname : Str → Option ℕ
  pub decimal : ℕ → Str

abbrev pub af_inet : ℕ
af_inet = 2

-- `INADDR_NONE`.
abbrev pub inaddr_none : ℕ
inaddr_none = 4294967295

-- The `CAddr` objects, and the address of the next one.
pub record Addresses : Type 0 where
  pub cells : ℕ → Option SockAddr
  pub next : ℕ

-- `ShardCAddr(new CAddr(addr))`, which the constructor from a `sockaddr_in` is.
unfoldable pub make : SockAddr → Addresses → ℕ × Addresses
make s h = (h.next, record { cells = update h.cells h.next (some s); next = suc h.next })

unfoldable pub make_default : Addresses → ℕ × Addresses
unfolding make
make_default h = make (record { sin_family = 0; sin_port = 0; s_addr = 0 }) h

-- The destructor releases the `CAddr`.
unfoldable pub release : ℕ → Addresses → Addresses
release a h = record h { cells = update h.cells a none }

-- Assignment to an address that held `a`: the new `CAddr`, then the old one is released.
unfoldable pub assign_sockaddr : ℕ → SockAddr → Addresses → ℕ × Addresses
unfolding make release
assign_sockaddr a s h = let made = make s h in (made.0, release a made.1)

unfoldable pub assign : ℕ → ℕ → Addresses → Outcome (ℕ × Addresses)
unfolding make release
assign a b h = do s ← deref h.cells b; let made = make s h; ok (made.0, release a made.1)

-- The copy constructor assigns to a null shared pointer.
unfoldable pub copy : ℕ → Addresses → Outcome (ℕ × Addresses)
unfolding make
copy b h = do s ← deref h.cells b; ok (make s h)

-- `GetSocketAddrIn` and the conversions, and a write through the reference or pointer they give.
unfoldable pub get_sockaddr : ℕ → Addresses → Outcome SockAddr
get_sockaddr a h = deref h.cells a

unfoldable pub write_sockaddr : ℕ → SockAddr → Addresses → Outcome Addresses
write_sockaddr a s h = do _ ← deref h.cells a; ok (record h { cells = update h.cells a (some s) })

module _ (w : Winsock) where
  unfoldable pub make_port : ℕ → Addresses → ℕ × Addresses
  unfolding make
  make_port port h =
      make (record { sin_family = af_inet; sin_port = w.htons port; s_addr = w.htonl 0 }) h

  unfoldable pub make_ip : Str → ℕ → Addresses → ℕ × Addresses
  unfolding make
  make_ip ip port h =
      make (record { sin_family = af_inet; sin_port = w.htons port; s_addr = w.inet_addr ip }) h

  unfoldable pub to_port : ℕ → Addresses → Outcome ℕ
  to_port a h = do s ← deref h.cells a; ok (w.ntohs s.sin_port)

  unfoldable pub tot_ip : ℕ → Addresses → Outcome Str
  tot_ip a h = do s ← deref h.cells a; ok (w.inet_ntoa s.s_addr)

  -- `operator==`.
  unfoldable pub equals : ℕ → ℕ → Addresses → Outcome Bool
  unfolding to_port tot_ip
  equals a b h = do
    p ← to_port a h
    q ← to_port b h
    i ← tot_ip a h
    j ← tot_ip b h
    ok (if p == q && str_eq i j then true else false)

  -- `CAddr::toString`, which `operator<<` prints: "%s:%d".
  unfoldable pub to_string : ℕ → Addresses → Outcome Str
  to_string a h = do
    s ← deref h.cells a
    ok (w.inet_ntoa s.s_addr ++ (b':' ∷ w.decimal (w.htons s.sin_port)))

  -- What is returned, and what is written to `*inaddr`, if anything.
  unfoldable pub tcp_gethost : Str → ℤ × Option ℕ
  tcp_gethost addr =
      let iadd = w.inet_addr addr in
      if iadd == inaddr_none
      then elim (w.gethostbyname addr) [ none ↦ (negsuc 0, none) | some a ↦ (pos 0, some a) ]
      else (pos 0, some iadd)

  unfoldable pub to_host : Str → Str
  to_host addr =
      if w.inet_addr addr == inaddr_none
      then elim (w.gethostbyname addr) [ none ↦ addr | some a ↦ w.inet_ntoa a ]
      else addr
