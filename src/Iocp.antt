-- ===== src/Iocp.antt =====
-- IOCPServer/IocpModel.h and IocpModel.cpp: the completion-port server. What Windows answers is a
-- parameter, `Windows`: the answer of a call may depend on how many calls were made before it. An
-- address is a number, `NULL` is 0. The text of the page and of the log is left out.
pub mod Contexts
pub mod Posting
pub mod Worker
pub mod Lifecycle
pub mod Keeping
pub mod Accepts
pub mod Startup
pub mod Clients
pub mod Stopping
mod Tests
unfoldable pub use boring.Memory.{update, deref}
use boring.Prelude.{
  ℕ, zero, suc, ◌+◌, Bool, true, false, List, [], ◌∷◌, Option, none, some, ◌==◌, if◌then◌else◌,
}
use boring.Outcome.{Outcome, ok, fault, null_pointer, dangling_pointer}

-- `OPERATION_TYPE`.
pub data Operation : Type 0 where
  posted_accept : Operation
  posted_send : Operation
  posted_recv : Operation
  posted_null : Operation

-- `PER_IO_CONTEXT`; `INVALID_SOCKET` is `none`, and `len` is `m_wsaBuf.len`.
pub record IoContext : Type 0 where
  pub sock_accept : Option ℕ
  pub len : ℕ
  pub op_type : Operation
  pub busy : Bool

-- `PER_SOCKET_CONTEXT`.
pub record SocketContext : Type 0 where
  pub socket : Option ℕ
  pub ip : List ℕ
  pub port : ℕ
  pub io_contexts : List ℕ

-- How a call that starts an overlapped operation ends: at once, with `WSA_IO_PENDING`, or with
-- another error.
pub data PostResult : Type 0 where
  at_once : PostResult
  pending : PostResult
  refused : PostResult

-- `threads_end` says whether, once they were told to, all threads come to their end.
pub record Windows : Type 0 where
  pub processors : ℕ
  pub create_event : ℕ → Bool
  pub create_port : ℕ → Bool
  pub create_thread : ℕ → Bool
  pub wsa_socket : ℕ → Option ℕ
  pub bind : ℕ → Bool
  pub listen : ℕ → Bool
  pub extension : ℕ → Bool
  pub accept_ex : ℕ → PostResult
  pub wsa_recv : ℕ → PostResult
  pub wsa_send : ℕ → PostResult
  pub peer : ℕ → List ℕ × ℕ
  pub threads_end : Bool

-- What is done to the event, the port and the threads, a thread by its place in the array.
pub data Action : Type 0 where
  set_event : Action
  post_exit : Action
  wait_threads : Action
  close_event : Action
  close_thread : ℕ → Action
  close_port : Action

-- `CIocpModel` with the memory and the operations it has posted. `shutdown_event` is `none` for
-- `NULL` and says whether the event is set; `listen_context` is `none` before anything writes it.
-- `accepts`, `recvs` and `sends` are the operations posted so far, newest first: the address of the
-- context and the socket, for a send the number of bytes. `closed` are the sockets closed, the last
-- one first, `trace` is what has been done to the handles, the first action first.
pub record Server : Type 0 where
  pub shutdown_event : Option Bool
  pub completion_port : Bool
  pub worker_threads : Option (List Bool)
  pub threads : ℕ
  pub b_start : Bool
  pub accept_fn : Bool
  pub addresses_fn : Bool
  pub listen_context : Option ℕ
  pub io_contexts : ℕ → Option IoContext
  pub socket_contexts : ℕ → Option SocketContext
  pub next : ℕ
  pub calls : ℕ
  pub closed : List ℕ
  pub associated : List (Option ℕ × ℕ)
  pub accepts : List (ℕ × ℕ)
  pub recvs : List (ℕ × Option ℕ)
  pub sends : List (ℕ × Option ℕ × ℕ)
  pub trace : List Action

abbrev pub max_buffer_len : ℕ
max_buffer_len = 8192

abbrev pub max_post_accept : ℕ
max_post_accept = 10

-- `(sizeof(SOCKADDR_IN) + 16) * 2`.
abbrev pub addresses_len : ℕ
addresses_len = 64

abbrev pub tick : Server → Server
tick s = record s { calls = suc s.calls }

abbrev pub put_io : ℕ → IoContext → Server → Server
put_io a c s = record s { io_contexts = update s.io_contexts a (some c) }

abbrev pub put_socket : ℕ → SocketContext → Server → Server
put_socket a c s = record s { socket_contexts = update s.socket_contexts a (some c) }
