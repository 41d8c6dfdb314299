-- ===== src/Address/Tests.antt =====
-- The addresses of net/Address.cpp at fixed inputs.
use boring.Prelude.{
  ℕ, ◌+◌, ◌*◌, ◌/◌, ◌%◌, ◌≡◌, refl, true, false, ◌&&◌, [], ◌∷◌, none, some, ◌==◌, if◌then◌else◌,
  arith,
}
use boring.Prelude.Int.{negsuc}
use boring.Outcome.{ok}
use boring.Address.{SockAddr, Winsock, Addresses, equals, tcp_gethost}
use boring.Address.Laws.{IsWinsock, copy_then_write, equals_lem, copy-write}

-- A little-endian host; an IP address is printed as one byte that stands for it.
abbrev swap : ℕ → ℕ
swap p = p / 256 + p % 256 * 256

abbrev a_winsock : Winsock
a_winsock = record {
  htons = swap;
  ntohs = swap;
  htonl = λ a. a;
  inet_addr = λ s. elim s [ [] ↦ 4294967295 | c ∷ _ ↦ c ];
  inet_ntoa = λ a. a ∷ [];
  gethostbyname = λ s. none;
  decimal = λ n. n ∷ [];
}

a_winsock-IsWinsock : IsWinsock a_winsock
a_winsock-IsWinsock = record {
  port_back = λ p h. omega arith;
  port_apart = λ p q h k e. omega arith;
  ip_apart = λ a b h k e. cc;
}

abbrev here : SockAddr
here = record { sin_family = 2; sin_port = 8080; s_addr = 7 }

abbrev other_family : SockAddr
other_family = record here { sin_family = 0 }

abbrev two : Addresses
two = record {
  cells = λ a. if a == 1 then some here else if a == 2 then some other_family else none;
  next = 9;
}

equals_lem_example : equals a_winsock 1 2 two ≡ ok (8080 == 8080 && 7 == 7)
equals_lem_example =
    equals_lem a_winsock a_winsock-IsWinsock two 1 2 (omega arith) (omega arith) refl refl
      (omega arith) (omega arith)

copy-write_example :
    (copy_then_write false 1 other_family two ≡ ok (other_family, here))
    × (copy_then_write true 1 other_family two ≡ ok (here, other_family))
copy-write_example = copy-write two 1 other_family (omega arith) (omega arith) refl

-- The text "255.255.255.255" is a good address, and is looked up as the name of a host.
broadcast : tcp_gethost a_winsock [] ≡ (negsuc 0, none)
unfolding tcp_gethost
broadcast = refl
