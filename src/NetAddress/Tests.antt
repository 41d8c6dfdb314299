-- ===== src/NetAddress/Tests.antt =====
-- The addresses and sockets of pthread/main.cpp at fixed inputs.
use boring.Prelude.{◌≡◌, refl, true, [], ◌∷◌, none, some}
use boring.Outcome.{fault, null_pointer, uninitialised}
use boring.Address.{Winsock}
use boring.NetAddress.{new_default, new_port, new_ip, set_ip, get_port, accpet}
use boring.NetAddress.Agreement.{Agrees, by_port, then_ip, Built-Agrees}

abbrev a_winsock : Winsock
a_winsock = record {
  htons = λ p. p;
  ntohs = λ p. p;
  htonl = λ a. a;
  inet_addr = λ s. elim s [ [] ↦ 4294967295 | c ∷ _ ↦ c ];
  inet_ntoa = λ a. a ∷ [];
  gethostbyname = λ s. none;
  decimal = λ n. n ∷ [];
}

Built-Agrees_example : Agrees a_winsock (set_ip a_winsock (some (7 ∷ [])) (new_port a_winsock 80))
Built-Agrees_example = Built-Agrees refl (then_ip (by_port 80) (some (7 ∷ [])))

no_ip : new_ip a_winsock none 80 ≡ fault null_pointer
unfolding new_ip
no_ip = refl

no_port : get_port (new_default a_winsock) ≡ fault uninitialised
unfolding new_default get_port
no_port = refl

-- The connection that is accepted is lost.
lost :
    accpet
      (record { bind = λ f a. true; listen = λ f b. true; accept = λ f. some 9 })
      (record { fd = some 3; addr = new_default a_winsock })
      (some 4)
    ≡ ((true, some 4), some 9)
unfolding accpet
lost = refl
