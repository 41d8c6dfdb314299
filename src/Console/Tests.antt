-- ===== src/Console/Tests.antt =====
-- The callback proxy of IOCPServer/main.cpp at fixed inputs.
use boring.Prelude.{◌≡◌, refl, true, none, some}
use boring.Outcome.{ok, fault, uninitialised}
use boring.Iocp.{Windows}
use boring.Console.{ctrl_c, console_handler, new_proxy, set_proxy, exec_proxy}

exec_set : exec_proxy (record { object = some 3; method = some 4 }) ≡ ok (true, some (3, 4))
unfolding exec_proxy
exec_set = refl

exec_unset : exec_proxy new_proxy ≡ fault uninitialised
unfolding exec_proxy
exec_unset = refl

set_null : set_proxy 0 4 new_proxy ≡ none
unfolding set_proxy
set_null = refl

no_server : (w : Windows) → console_handler w ctrl_c none ≡ ok (none, true)
unfolding console_handler
no_server w = refl
