-- ===== src/Iocp/Clients.antt =====
-- What `_DoAccpet` of IOCPServer/IocpModel.cpp does for a client.
use boring.Prelude.{
  ℕ, suc, ◌<◌, ◌≡◌, refl, ◌∙◌, ap, arith, Bool, true, false, List, [], ◌∷◌, ◌++◌, Option, some,
  if◌then◌else◌,
}
use boring.Memory.{deref-found}
use boring.Outcome.{ok, require, null_pointer, ◌>>=◌, bind-ok}
use boring.Iocp.{
  posted_send, posted_recv, IoContext, SocketContext, Windows, Server, PostResult, at_once, pending,
  refused, max_buffer_len, update, deref, tick, put_io, put_socket,
}
use boring.Iocp.Contexts.{new_io, new_socket, make_socket_context, get_new_io_context}
use boring.Iocp.Posting.{posting_result, post_accept, post_recv}
use boring.Iocp.Worker.{greet, receive_first, do_accept}

deref-update {ℓ} :
    {A : Type ℓ} (cells : ℕ → Option A) (a : ℕ) (c : A)
    → 0 < a
    → deref (update cells a (some c)) a ≡ ok c
deref-update cells a c p = deref-found (update cells a (some c)) a p (ground arith)

update_same {ℓ} :
    {A : Type ℓ} (cells : ℕ → Option A) (a : ℕ) (c : A) → update cells a (some c) a ≡ some c
update_same cells a c = ground arith

post_accept-armed :
    (w : Windows) (io fd : ℕ) (c : IoContext) (s : Server)
    → 0 < io
    → s.io_contexts io ≡ some c
    → c.sock_accept ≡ some fd
    → post_accept w io s ≡ ok (s, false)
unfolding post_accept
post_accept-armed w io fd c s p e sock =
    rw (deref-found s.io_contexts io p e) (rw (sock, ◌>>=◌) refl)

-- A call that starts an operation has not failed.
abbrev pub is_posted : PostResult → Bool
is_posted at_once = true
is_posted pending = true
is_posted refused = false

-- Making an I/O context for the context at `ctx`.
abbrev with_io : ℕ → SocketContext → IoContext → Server → Server
with_io ctx c out s = record s {
  io_contexts = update (update s.io_contexts s.next (some new_io)) s.next (some out);
  socket_contexts =
      update s.socket_contexts ctx (some (record c { io_contexts = c.io_contexts ++ s.next ∷ [] }));
  next = suc s.next;
}

module _ (w : Windows) where
  abbrev client : IoContext → Server → SocketContext → SocketContext
  client c s fresh = record fresh {
    socket = c.sock_accept;
    ip = (w.peer s.calls).0;
    port = (w.peer s.calls).1;
  }

  abbrev out : IoContext → IoContext
  out c = record new_io { op_type = posted_send; sock_accept = c.sock_accept }

  abbrev received : IoContext → IoContext
  received c = record new_io { op_type = posted_recv; sock_accept = c.sock_accept }

  -- The sends posted, when `WSASend` answers `r`.
  abbrev sent : PostResult → IoContext → Server → List (ℕ × Option ℕ × ℕ)
  sent r c s = if is_posted r then (s.next, c.sock_accept, max_buffer_len) ∷ s.sends else s.sends

  abbrev made : ℕ → IoContext → Server → SocketContext → Server
  made ctx c s fresh =
      with_io ctx (client c s fresh) (out c) (tick (put_socket ctx (client c s fresh) s))

  abbrev greeted : ℕ → IoContext → Server → SocketContext → Server
  greeted ctx c s fresh = record (tick (made ctx c s fresh)) {
    sends = sent (w.wsa_send (suc s.calls)) c s;
  }

  answer :
      (r : PostResult) (ctx : ℕ) (c : IoContext) (s : Server) (fresh : SocketContext)
      → (posting_result r
          (record (tick (made ctx c s fresh)) { sends = sent pending c s })
          (tick (made ctx c s fresh))).0
        ≡ record (tick (made ctx c s fresh)) { sends = sent r c s }
  answer at_once ctx c s fresh = refl
  answer pending ctx c s fresh = refl
  answer refused ctx c s fresh = refl

  greet-eq :
      (ctx : ℕ) (c : IoContext) (s : Server) (fresh : SocketContext)
      → 0 < ctx
      → 0 < s.next
      → s.socket_contexts ctx ≡ some fresh
      → greet w ctx c s ≡ ok (greeted ctx c s fresh, s.next)
  unfolding greet get_new_io_context
  greet-eq ctx c s fresh p q e = rw (deref-found s.socket_contexts ctx p e) (
      rw (deref-update s.socket_contexts ctx (client c s fresh) p) (
        rw (deref-update s.io_contexts s.next new_io q)
          (ap (λ k. ok (k, s.next)) (answer (w.wsa_send (suc s.calls)) ctx c s fresh))))

  abbrev receiving : ℕ → IoContext → Server → SocketContext → Server
  receiving ctx c s fresh =
      let made = with_io ctx fresh (received c) s in
      record (tick (put_io s.next (received c) made)) { recvs = (s.next, c.sock_accept) ∷ s.recvs }

  receive_first-eq :
      (ctx : ℕ) (c : IoContext) (s : Server) (fresh : SocketContext)
      → 0 < ctx
      → 0 < s.next
      → s.socket_contexts ctx ≡ some fresh
      → w.wsa_recv s.calls ≡ pending
      → receive_first w ctx c s ≡ ok (receiving ctx c s fresh, true)
  unfolding receive_first get_new_io_context post_recv
  receive_first-eq ctx c s fresh p q e y = rw (deref-found s.socket_contexts ctx p e) (
      rw (deref-update s.io_contexts s.next new_io q) (
        rw (deref-update (update s.io_contexts s.next (some new_io)) s.next (received c) q)
          (rw y refl)))

  -- For an accept that completed, on a context with a socket, when `GetAcceptExSockaddrs` was found and
  -- `WSARecv` answers that its operation is pending: the client gets a new context with its socket, its
  -- address and two I/O contexts; a receive is posted, and, unless `WSASend` fails, a send of the
  -- whole buffer. But `_DoAccpet` returns false: the context of the accept still has its socket, so no
  -- accept is posted in its place, and the client's socket is not associated with the completion port.
  pub do_accept-Served :
      (ctx io fd : ℕ) (c : IoContext) (s : Server)
      → s.addresses_fn ≡ true
      → 0 < io
      → io < s.next
      → s.io_contexts io ≡ some c
      → c.sock_accept ≡ some fd
      → w.wsa_recv (suc (suc s.calls)) ≡ pending
      → (s' : Server) × (do_accept w ctx io s ≡ ok (s', false))
        × (s'.socket_contexts s.next
            ≡ some (record {
              socket = some fd;
              ip = (w.peer s.calls).0;
              port = (w.peer s.calls).1;
              io_contexts = suc s.next ∷ suc (suc s.next) ∷ [];
            }))
        × (s'.sends ≡ (
            if is_posted (w.wsa_send (suc s.calls))
            then (suc s.next, some fd, max_buffer_len) ∷ s.sends
            else s.sends))
        × (s'.recvs ≡ (suc (suc s.next), some fd) ∷ s.recvs)
        × (s'.accepts ≡ s.accepts)
        × (s'.associated ≡ s.associated)
  unfolding do_accept make_socket_context
  do_accept-Served ctx io fd c s a p below e sock y =
      let n = s.next in
      let s0 = (make_socket_context s).0 in
      let g = greeted n c s0 new_socket in
      let entered = record (client c s0 new_socket) { io_contexts = suc n ∷ [] } in
      let f = receiving n c g entered in
      let greets : greet w n c s0 ≡ ok (g, suc n) =
        greet-eq n c s0 new_socket (omega arith) (omega arith)
          (update_same s.socket_contexts n new_socket) in
      let receives : receive_first w n c g ≡ ok (f, true) =
        receive_first-eq n c g entered (omega arith) (omega arith)
          (update_same
            (update (update s.socket_contexts n (some new_socket)) n
              (some (client c s0 new_socket)))
            n entered)
          y in
      let kept : f.io_contexts io ≡ some c = ground (arith, e) in
      (
        f,
        bind-ok _ (let r : require s.addresses_fn null_pointer ≡ ok tt = rw a refl in r)
            ∙ bind-ok _ (deref-found s.io_contexts io p e)
            ∙ bind-ok _ greets
            ∙ bind-ok _ receives
            ∙ post_accept-armed w io fd c f p kept sock,
        update_same
              (update
                (update (update s.socket_contexts n (some new_socket)) n
                  (some (client c s0 new_socket)))
                n (some entered))
              n _
            ∙ rw sock refl,
        rw sock refl,
        rw sock refl,
        refl,
        refl,
      )
