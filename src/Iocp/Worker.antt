-- ===== src/Iocp/Worker.antt =====
-- IOCPServer/IocpModel.cpp: `_DoAccpet`, `_DoRecv`, `_DoSend` and the loop of `_WorkerThread`, over the
-- packets that `GetQueuedCompletionStatus` hands to the thread.
use boring.Prelude.{ℕ, Bool, true, false, not, ◌&&◌, ◌||◌, List, [], ◌∷◌, Option, none, some, ◌==◌}
use boring.Outcome.{Outcome, ok, null_pointer, require, ◌>>=◌}
use boring.Iocp.{
  Operation, posted_accept, posted_send, posted_recv, posted_null, IoContext, Windows, Server,
  deref, tick, put_io, put_socket,
}
use boring.Iocp.Contexts.{make_socket_context, get_new_io_context, remove_context}
use boring.Iocp.Posting.{posting_result, post_accept, post_recv}

abbrev pub receives_or_sends : Operation → Bool
receives_or_sends posted_accept = false
receives_or_sends posted_send = true
receives_or_sends posted_recv = true
receives_or_sends posted_null = false

-- A packet of the completion port: `returned` is the result, `error` what `GetLastError` says when that is
-- false.
pub record Packet : Type 0 where
  pub returned : Bool
  pub error : ℕ
  pub bytes : ℕ
  pub key : ℕ
  pub overlapped : ℕ

abbrev pub wait_timeout : ℕ
wait_timeout = 258

abbrev pub error_netname_deleted : ℕ
error_netname_deleted = 64

abbrev pub is_set : Option Bool → Bool
is_set none = false
is_set (some b) = b

module _ (w : Windows) where
  -- The context for the client: the socket of the accept, its address, and the answer sent, of the
  -- length that `m_wsaBuf.len` says. What `WSASend` returns is not looked at.
  unfoldable pub greet : ℕ → IoContext → Server → Outcome (Server × ℕ)
  greet ctx c s = do
    let (address, port) = w.peer s.calls
    fresh ← deref s.socket_contexts ctx
    let s1 =
        tick (put_socket ctx (record fresh { socket = c.sock_accept; ip = address; port = port }) s)
    made ← get_new_io_context ctx s1
    out ← deref made.0.io_contexts made.1
    let out' = record out { op_type = posted_send; sock_accept = c.sock_accept }
    let s2 = put_io made.1 out' made.0
    let sent = record (tick s2) { sends = (made.1, out'.sock_accept, out'.len) ∷ s2.sends }
    ok ((posting_result (w.wsa_send s2.calls) sent (tick s2)).0, made.1)

  -- The first receive on the client's socket.
  unfoldable pub receive_first : ℕ → IoContext → Server → Outcome (Server × Bool)
  receive_first ctx c s = do
    made ← get_new_io_context ctx s
    fresh ← deref made.0.io_contexts made.1
    posted ←
        post_recv w made.1 (
          put_io made.1 (record fresh { op_type = posted_recv; sock_accept = c.sock_accept })
            made.0)
    elim posted.1 [
      | true ↦ ok (posted.0, true)
      | false ↦ do s' ← remove_context ctx made.1 posted.0; ok (s', false)
    ]

  unfoldable pub do_accept : ℕ → ℕ → Server → Outcome (Server × Bool)
  do_accept ctx io s = do
    _ ← require s.addresses_fn null_pointer
    c ← deref s.io_contexts io
    let made = make_socket_context s
    greeted ← greet made.1 c made.0
    received ← receive_first made.1 c greeted.0
    elim received.1 [ true ↦ post_accept w io received.0 | false ↦ ok (received.0, false) ]

  unfoldable pub do_recv : ℕ → ℕ → Server → Outcome (Server × Bool)
  do_recv ctx io s = ok (s, true)

  unfoldable pub do_send : ℕ → ℕ → Server → Outcome (Server × Bool)
  do_send ctx io s = ok (s, true)

  unfoldable pub dispatch : Operation → ℕ → ℕ → Server → Outcome Server
  dispatch posted_accept ctx io s = do_accept ctx io s >>= λ r. ok r.0
  dispatch posted_recv ctx io s = do_recv ctx io s >>= λ r. ok r.0
  dispatch posted_send ctx io s = do_send ctx io s >>= λ r. ok r.0
  dispatch posted_null ctx io s = ok s

  -- A packet of a completed operation. A client that has gone is only printed.
  unfoldable pub handle : Packet → Server → Outcome Server
  handle p s = do
    c ← deref s.io_contexts p.overlapped
    elim (p.bytes == 0 && receives_or_sends c.op_type) [
      | true ↦ do gone ← deref s.socket_contexts p.key; ok s
      | false ↦ dispatch c.op_type p.key p.overlapped s
    ]

  -- At the end of the packets the thread waits for the next one.
  unfoldable pub worker_thread : List Packet → Server → Outcome Server
  worker_thread [] s = ok s
  worker_thread (p ∷ ps) s = elim (is_set s.shutdown_event || p.key == 0) [
    | true ↦ ok s
    | false ↦ elim p.returned [
      | true ↦ handle p s >>= worker_thread ps
      | false ↦ elim (not (p.error == wait_timeout) && not (p.error == error_netname_deleted)) [
        | true ↦ ok s
        | false ↦ worker_thread ps s
      ]
    ]
  ]
