-- ===== src/Wiocp.antt =====
-- io/net_wiocp_module.h and net_wiocp_module.cpp: the event loop on a completion port, its threads
-- and the extension functions of the socket library.
pub mod Loop
pub mod Laws
mod Tests
use boring.Prelude.{
  ℕ, suc, ◌+◌, ◌*◌, Bool, true, false, List, [], ◌∷◌, Option, none, some, if◌then◌else◌,
}
use boring.Outcome.{Outcome, ok, ◌>>=◌}
use boring.Handles.{Kernel, Host, close, close_threads, make_threads}

-- The socket library: a socket, or `INVALID_SOCKET`, and the pointers that `WSAIoctl` writes.
pub record Sockets : Type 0 where
  pub processors : ℕ
  pub open_socket : Option ℕ
  pub accept_ex : ℕ
  pub accept_ex_addresses : ℕ

-- `the_extension_fns` and `extension_fns_initialized`, with the sockets closed.
pub record Extensions : Type 0 where
  pub accept_fn : ℕ
  pub addresses_fn : ℕ
  pub initialized : Bool
  pub closed_sockets : List ℕ

pub record NetModule : Type 0 where
  pub handle_iocp : ℕ
  pub ithreads : ℕ
  pub handle_threads : Option (List ℕ)
  pub handle_shutdown : ℕ

unfoldable pub init_extension_functions : Sockets → Extensions → Extensions
init_extension_functions k x = elim k.open_socket [
  | none ↦ x
  | some s ↦ record x {
    accept_fn = k.accept_ex;
    addresses_fn = k.accept_ex_addresses;
    initialized = true;
    closed_sockets = s ∷ x.closed_sockets;
  }
]

-- The constructor.
unfoldable pub new_module : Sockets → Extensions → NetModule × Extensions
unfolding init_extension_functions
new_module k x = (
  record {
    handle_iocp = 0;
    ithreads = k.processors * 2 + 2;
    handle_threads = none;
    handle_shutdown = 0;
  },
  if x.initialized then x else init_extension_functions k x,
)

-- `start`, which always returns true.
unfoldable pub start : Kernel → NetModule → Host → NetModule × Host
start w m h = (
  record m {
    handle_shutdown = w.create_event h.calls;
    handle_iocp = w.create_port (h.calls + 1);
    handle_threads = some (make_threads w m.ithreads (h.calls + 2));
  },
  record h { calls = h.calls + 2 + m.ithreads },
)

unfoldable pub associate : Kernel → Host → Host × Bool
associate w h = (record h { calls = suc h.calls }, w.associates h.calls)

-- The destructor.
unfoldable pub destroy : NetModule → Host → Outcome Host
destroy m h = do
  closed ← close_threads m.ithreads m.handle_threads (close m.handle_iocp h.closed)
  ok (record h { closed = close m.handle_shutdown closed })
