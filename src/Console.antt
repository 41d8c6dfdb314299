-- ===== src/Console.antt =====
-- IOCPServer/main.cpp: the handler of console events, which stops the server, and `CCallbackProxy`.
-- The text that the program prints is left out.
pub mod Stopping
mod Tests
use boring.Prelude.{ℕ, Bool, true, false, ◌||◌, Option, none, some, ◌==◌, if◌then◌else◌}
use boring.Outcome.{Outcome, ok, uninitialised, or_fault, ◌>>=◌}
use boring.Iocp.{Windows, Server}
use boring.Iocp.Lifecycle.{stop}

-- The events of `Handler` on Windows.
pub data ConsoleEvent : Type 0 where
  ctrl_c : ConsoleEvent
  ctrl_break : ConsoleEvent
  ctrl_close : ConsoleEvent
  ctrl_logoff : ConsoleEvent
  ctrl_shutdown : ConsoleEvent

-- `pIocpModel->Stop()`, where `pIocpModel` is `none` for `NULL`.
unfoldable pub stop_model : Windows → Option Server → Outcome (Option Server)
stop_model w none = ok none
stop_model w (some s) = do s' ← stop w s; ok (some s')

unfoldable pub console_handler :
    Windows → ConsoleEvent → Option Server → Outcome (Option Server × Bool)
unfolding stop_model
console_handler w ctrl_c p = do p' ← stop_model w p; ok (p', true)
console_handler w ctrl_close p = do p' ← stop_model w p; ok (p', true)
console_handler w ctrl_break p = ok (p, false)
console_handler w ctrl_logoff p = ok (p, false)
console_handler w ctrl_shutdown p = ok (p, false)

-- `CCallbackProxy`, which has no constructor: its members are unset until `Set` has returned.
pub record CallbackProxy : Type 0 where
  pub object : Option ℕ
  pub method : Option ℕ

abbrev pub new_proxy : CallbackProxy
new_proxy = record { object = none; method = none }

-- `none` where it throws.
unfoldable pub set_proxy : ℕ → ℕ → CallbackProxy → Option CallbackProxy
set_proxy object method x =
    if object == 0 || method == 0
    then none
    else some (record { object = some object; method = some method })

-- Whether it called, and the object and the method it called.
unfoldable pub exec_proxy : CallbackProxy → Outcome (Bool × Option (ℕ × ℕ))
exec_proxy x = do
  object ← or_fault x.object uninitialised
  method ← or_fault x.method uninitialised
  ok (if object == 0 || method == 0 then (false, none) else (true, some (object, method)))
