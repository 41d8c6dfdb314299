-- ===== src/Console/Stopping.antt =====
-- IOCPServer/main.cpp: closing the console of a running server.
use boring.Prelude.{ℕ, ◌≡◌, sym, Bool, true, false, List, none, some, ◌⊎◌, inl, inr}
use mathlib.Core.Path.{subst}
use boring.Outcome.{ok, bind-ok}
use boring.Iocp.{Windows, Server, SocketContext}
use boring.Iocp.Lifecycle.{wait_comes_back}
use boring.Iocp.Stopping.{Running, stop-Released}
use boring.Console.{ConsoleEvent, ctrl_c, ctrl_close, stop_model, console_handler}

-- The events that stop the server.
abbrev pub IsStopping : ConsoleEvent → Type 0
IsStopping e = (e ≡ ctrl_c) ⊎ (e ≡ ctrl_close)

stops :
    (w : Windows) (e : ConsoleEvent) (s s' : Server)
    → IsStopping e
    → stop_model w (some s) ≡ ok (some s')
    → console_handler w e (some s) ≡ ok (some s', true)
unfolding console_handler
stops w e s s' (inl c) r =
    subst (λ k. console_handler w k (some s) ≡ ok (some s', true)) (sym c) (bind-ok _ r)
stops w e s s' (inr c) r =
    subst (λ k. console_handler w k (some s) ≡ ok (some s', true)) (sym c) (bind-ok _ r)

-- On a running server with its event and its port, when the wait for the threads comes back: Ctrl-C
-- or the closing of the console stops the server, with event, port and threads released; a second
-- such event finds it stopped, changes nothing and does not fault.
pub console_handler_twice :
    (w : Windows) (e e' : ConsoleEvent) (l fd : ℕ) (hs : List Bool) (b : Bool) (c : SocketContext)
    (s : Server)
    → IsStopping e
    → IsStopping e'
    → Running l fd hs c s
    → s.shutdown_event ≡ some b
    → s.completion_port ≡ true
    → wait_comes_back w s ≡ true
    → (s' : Server) × (console_handler w e (some s) ≡ ok (some s', true))
      × (s'.shutdown_event ≡ none)
      × (s'.completion_port ≡ false)
      × (s'.worker_threads ≡ none)
      × (console_handler w e' (some s') ≡ ok (some s', true))
unfolding stop_model
console_handler_twice w e e' l fd hs b c s x x' r set made back =
    let (s', done, event, port, threads, trace, closed, sockets, io, again) =
      stop-Released w l fd hs b c s r set made back in
    (
      s',
      stops w e s s' x (bind-ok _ done),
      event,
      port,
      threads,
      stops w e' s' s' x' (bind-ok _ again),
    )
