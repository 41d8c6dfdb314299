-- ===== src/Iocp/Contexts.antt =====
-- IOCPServer/IocpModel.h: the constructors and destructors of the two contexts, `GetNewIoContext` and
-- `RemoveContext`.
use boring.Prelude.{
  ℕ, suc, Bool, true, false, ◌||◌, List, [], ◌∷◌, ◌++◌, Option, none, some, ◌==◌, if◌then◌else◌,
}
use boring.Outcome.{Outcome, ok, ◌>>=◌}
use boring.Iocp.{
  posted_null, IoContext, SocketContext, Server, max_buffer_len, update, deref, put_io, put_socket,
}

abbrev pub new_io : IoContext
new_io = record { sock_accept = none; len = max_buffer_len; op_type = posted_null; busy = false }

abbrev pub new_socket : SocketContext
new_socket = record { socket = none; ip = []; port = 0; io_contexts = [] }

-- `new PER_SOCKET_CONTEXT`.
unfoldable pub make_socket_context : Server → Server × ℕ
make_socket_context s = (record (put_socket s.next new_socket s) { next = suc s.next }, s.next)

unfoldable pub get_new_io_context : ℕ → Server → Outcome (Server × ℕ)
get_new_io_context ctx s = do
  c ← deref s.socket_contexts ctx
  ok (
    record (put_socket ctx (record c { io_contexts = c.io_contexts ++ s.next ∷ [] })
        (put_io s.next new_io s)) { next = suc s.next },
    s.next,
  )

-- `closesocket`, unless the socket is `INVALID_SOCKET`.
abbrev pub close_socket : Option ℕ → Server → Server
close_socket none s = s
close_socket (some k) s = record s { closed = k ∷ s.closed }

-- `delete` of an I/O context.
unfoldable pub delete_io : ℕ → Server → Outcome Server
delete_io a s = do
  c ← deref s.io_contexts a
  ok (close_socket c.sock_accept (record s { io_contexts = update s.io_contexts a none }))

abbrev pub contains : ℕ → List ℕ → Bool
contains a [] = false
contains a (b ∷ bs) = b == a || contains a bs

abbrev pub remove_first : ℕ → List ℕ → List ℕ
remove_first a [] = []
remove_first a (b ∷ bs) = if b == a then bs else b ∷ remove_first a bs

unfoldable pub remove_context : ℕ → ℕ → Server → Outcome Server
remove_context ctx io s = elim (io == 0) [
  | true ↦ ok s
  | false ↦ do
    c ← deref s.socket_contexts ctx
    elim (contains io c.io_contexts) [
      | true ↦ do
        s' ← delete_io io s
        ok (put_socket ctx (record c { io_contexts = remove_first io c.io_contexts }) s')
      | false ↦ ok s
    ]
]

-- The loop of the destructor over the I/O contexts.
unfoldable pub delete_all : List ℕ → Server → Outcome Server
delete_all [] s = ok s
delete_all (a ∷ rest) s = elim (a == 0) [
  | true ↦ delete_all rest s
  | false ↦ delete_io a s >>= delete_all rest
]

-- `delete` of a socket context.
unfoldable pub delete_socket : ℕ → Server → Outcome Server
delete_socket a s = do
  c ← deref s.socket_contexts a
  s' ← delete_all c.io_contexts (close_socket c.socket s)
  ok (record s' { socket_contexts = update s'.socket_contexts a none })
