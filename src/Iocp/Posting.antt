-- ===== src/Iocp/Posting.antt =====
-- IOCPServer/IocpModel.cpp: `_PostAccept`, `_PostRecv`, `_PostSend` and `_AssociateWithIOCP`.
use boring.Prelude.{ℕ, ◌+◌, Bool, true, false, ◌∷◌, none, some, if◌then◌else◌}
use boring.Outcome.{Outcome, ok, null_pointer, uninitialised, require, or_fault, ◌>>=◌}
use boring.Iocp.{
  posted_accept, posted_recv, Windows, PostResult, at_once, pending, refused, Server, addresses_len,
  deref, tick, put_io,
}

-- What is returned for a call: it has not failed if the operation is pending.
abbrev pub posting_result : PostResult → Server → Server → Server × Bool
posting_result at_once posted s = (posted, true)
posting_result pending posted s = (posted, true)
posting_result refused posted s = (s, false)

module _ (w : Windows) where
  -- The call of `AcceptEx` for the context at `io`, on the new socket `k`.
  unfoldable pub call_accept_ex : ℕ → ℕ → Server → Outcome (Server × Bool)
  call_accept_ex io k s = do
    _ ← require s.accept_fn null_pointer
    l ← or_fault s.listen_context uninitialised
    listening ← deref s.socket_contexts l
    let posted = record (tick s) { accepts = (io, k) ∷ s.accepts }
    ok (posting_result (w.accept_ex s.calls) posted (tick s))

  unfoldable pub post_accept : ℕ → Server → Outcome (Server × Bool)
  post_accept io s = do
    c ← deref s.io_contexts io
    elim c.sock_accept [
      | some k ↦ ok (s, false)
      | none ↦ elim (w.wsa_socket s.calls) [
        | none ↦ ok (tick (put_io io (record c { op_type = posted_accept }) s), false)
        | some k ↦ call_accept_ex io k (
            tick (
              put_io io
                (record c {
                  op_type = posted_accept;
                  sock_accept = some k;
                  len = addresses_len + 1;
                })
                s))
      ]
    ]

  unfoldable pub post_recv : ℕ → Server → Outcome (Server × Bool)
  post_recv io s = do
    c ← deref s.io_contexts io
    let s' = tick (put_io io (record c { op_type = posted_recv }) s)
    let posted = record s' { recvs = (io, c.sock_accept) ∷ s.recvs }
    ok (posting_result (w.wsa_recv s.calls) posted s')

  unfoldable pub post_send : ℕ → Server → Outcome (Server × Bool)
  post_send io s = ok (s, true)

  -- Nothing in the program calls this one.
  unfoldable pub associate_with_iocp : ℕ → Server → Outcome (Server × Bool)
  associate_with_iocp ctx s = do
    c ← deref s.socket_contexts ctx
    ok (
        if w.create_port s.calls
        then (record (tick s) { associated = (c.socket, ctx) ∷ s.associated }, true)
        else (tick s, false))
