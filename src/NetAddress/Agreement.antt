-- ===== src/NetAddress/Agreement.antt =====
-- pthread/main.cpp: the two forms in which a `net_address` keeps its IP address and its port agree.
use boring.Prelude.{ℕ, ◌≡◌, refl, sym, Option, none, some}
use mathlib.Core.Path.{subst}
use boring.Outcome.{ok, After}
use boring.Address.{Str, Winsock}
use boring.NetAddress.{NetAddress, new_default, new_ip, new_port, set_ip, set_port}

-- `sin_port` for `_port`.
abbrev pub in_network_order : Winsock → Option ℕ → Option ℕ
in_network_order w none = none
in_network_order w (some port) = some (w.htons port)

-- `_addr_in` is what the library makes of `_ip` and `_port`; the port is set in both or in none.
pub record Agrees (w : Winsock) (a : NetAddress) : Type 0 where
  pub same_ip : a.s_addr ≡ w.inet_addr a.ip
  pub same_port : a.sin_port ≡ in_network_order w a.port

-- An address made by one of the constructors and changed by any setters.
pub data Built (w : Winsock) : NetAddress → Type 0 where
  by_default : Built w (new_default w)
  by_port : (port : ℕ) → Built w (new_port w port)
  by_ip : {a : NetAddress} (ip : Option Str) (port : ℕ) → new_ip w ip port ≡ ok a → Built w a
  then_ip : {a : NetAddress} → Built w a → (ip : Option Str) → Built w (set_ip w ip a)
  then_port : {a : NetAddress} → Built w a → (port : ℕ) → Built w (set_port w port a)

new_ip-Agrees : (w : Winsock) (ip : Option Str) (port : ℕ) → After (Agrees w) (new_ip w ip port)
unfolding new_ip
new_ip-Agrees w none port = tt
new_ip-Agrees w (some ip) port = record { same_ip = refl; same_port = refl }

set_ip-Agrees :
    (w : Winsock) (ip : Option Str) (a : NetAddress) → Agrees w a → Agrees w (set_ip w ip a)
unfolding set_ip
set_ip-Agrees w none a v = v
set_ip-Agrees w (some ip) a v = record { same_ip = refl; same_port = v.same_port }

-- When the library reads the text it prints for the unspecified address as that address: in every
-- address made by a constructor that returned and then changed by setters, the socket address is
-- that of the IP text, and the port in network order is that of the port, or both ports are unset.
pub Built-Agrees :
    {w : Winsock} {a : NetAddress}
    → w.inet_addr (w.inet_ntoa (w.htonl 0)) ≡ w.htonl 0
    → Built w a
    → Agrees w a
unfolding new_default new_port set_port
Built-Agrees u by_default = record { same_ip = sym u; same_port = refl }
Built-Agrees u (by_port port) = record { same_ip = sym u; same_port = refl }
Built-Agrees {w} u (by_ip {a} ip port e) = subst (After (Agrees w)) e (new_ip-Agrees w ip port)
Built-Agrees {w} u (then_ip {a} b ip) = set_ip-Agrees w ip a (Built-Agrees u b)
Built-Agrees u (then_port b port) = record {
  same_ip = (Built-Agrees u b).same_ip;
  same_port = refl;
}
