-- ===== src/Iocp/Accepts.antt =====
-- What the worker threads of IOCPServer/IocpModel.cpp do with the accepts that `Start` has posted.
use boring.Prelude.{
  ℕ, ◌≡◌, refl, ◌∙◌, inl, inr, true, not, ◌&&◌, ◌||◌, List, [], ◌∷◌, some, ◌==◌, Bool-cases,
}
use boring.Outcome.{require, null_pointer, After, After-bind, After-any, After-map}
use boring.Iocp.{
  Operation, posted_accept, posted_send, posted_recv, posted_null, IoContext, Windows, Server,
  deref, tick, put_io, put_socket,
}
use boring.Iocp.Contexts.{make_socket_context, get_new_io_context, remove_context}
use boring.Iocp.Posting.{post_accept, post_recv}
use boring.Iocp.Worker.{
  Packet, greet, receive_first, do_accept, do_recv, do_send, dispatch, handle, worker_thread,
  is_set, wait_timeout, error_netname_deleted, receives_or_sends,
}
use boring.Iocp.Keeping.{
  has_socket, Armed, Kept, Kept-trans, deref-socket, Armed-put_io, post_accept-Kept, KeptBut,
  get_new-KeptBut, put_io-Kept, remove_context-Kept, result-Kept,
}

module _ (w : Windows) where
  post_recv-Kept : (io : ℕ) (s : Server) → Armed s → After (λ r. Kept s r.0) (post_recv w io s)
  unfolding post_recv
  post_recv-Kept io s h =
      After-bind (λ c. has_socket (some c) ≡ true) _ (deref s.io_contexts io) _
        (deref-socket s io h)
        λ c e.
          let a : Armed (put_io io (record c { op_type = posted_recv }) s) =
            Armed-put_io s io (record c { op_type = posted_recv }) e h in
          result-Kept s (w.wsa_recv s.calls) _ _ (record { armed = a; same = refl })
            (record { armed = a; same = refl })

  greet-Kept :
      (ctx : ℕ) (c : IoContext) (s : Server)
      → has_socket (some c) ≡ true
      → Armed s
      → After (λ r. Kept s r.0) (greet w ctx c s)
  unfolding greet
  greet-Kept ctx c s e h = After-any _ (deref s.socket_contexts ctx) _ λ fresh.
      let s1 = tick (
        put_socket ctx
          (record fresh {
            socket = c.sock_accept;
            ip = (w.peer s.calls).0;
            port = (w.peer s.calls).1;
          })
          s) in
      After-bind (λ r. KeptBut s1 r.1 r.0) _ (get_new_io_context ctx s1) _
        (get_new-KeptBut ctx s1 h)
        λ made k. After-any _ (deref made.0.io_contexts made.1) _ λ out.
          let p =
            put_io-Kept s1 made.0 made.1
              (record out { op_type = posted_send; sock_accept = c.sock_accept }) e k in
          result-Kept s (w.wsa_send made.0.calls) _ _ (record { armed = p.armed; same = p.same })
            (record { armed = p.armed; same = p.same })

  receive_first-Kept :
      (ctx : ℕ) (c : IoContext) (s : Server)
      → has_socket (some c) ≡ true
      → Armed s
      → After (λ r. Kept s r.0) (receive_first w ctx c s)
  unfolding receive_first
  receive_first-Kept ctx c s e h =
      After-bind (λ r. KeptBut s r.1 r.0) _ (get_new_io_context ctx s) _ (get_new-KeptBut ctx s h)
        λ made k. After-any _ (deref made.0.io_contexts made.1) _ λ fresh.
          let c' = record fresh { op_type = posted_recv; sock_accept = c.sock_accept } in
          let p = put_io-Kept s made.0 made.1 c' e k in
          After-bind (λ r. Kept (put_io made.1 c' made.0) r.0) _
            (post_recv w made.1 (put_io made.1 c' made.0)) _
            (post_recv-Kept made.1 (put_io made.1 c' made.0) p.armed)
            λ posted q. elim (Bool-cases posted.1) [
              | inl y ↦ rw (y, After) (record { armed = q.armed; same = q.same ∙ p.same })
              | inr n ↦
                  rw (n, After)
                    (After-bind (Kept posted.0) _ (remove_context ctx made.1 posted.0) _
                      (remove_context-Kept ctx made.1 posted.0 q.armed)
                      λ s' r. record { armed = r.armed; same = r.same ∙ q.same ∙ p.same })
            ]

  do_accept-Kept :
      (ctx io : ℕ) (s : Server) → Armed s → After (λ r. Kept s r.0) (do_accept w ctx io s)
  unfolding do_accept make_socket_context
  do_accept-Kept ctx io s h = After-any _ (require s.addresses_fn null_pointer) _ λ _.
      After-bind (λ c. has_socket (some c) ≡ true) _ (deref s.io_contexts io) _
        (deref-socket s io h)
        λ c e.
          let made = make_socket_context s in
          After-bind (λ r. Kept made.0 r.0) _ (greet w made.1 c made.0) _
            (greet-Kept made.1 c made.0 e h)
            λ greeted k.
              After-bind (λ r. Kept greeted.0 r.0) _ (receive_first w made.1 c greeted.0) _
                (receive_first-Kept made.1 c greeted.0 e k.armed)
                λ received l. elim (Bool-cases received.1) [
                  | inl y ↦
                      rw (y, After)
                        (After-map (λ r. Kept received.0 r.0) _ (post_accept w io received.0)
                          (post_accept-Kept w io received.0 l.armed)
                          λ r m. record { armed = m.armed; same = m.same ∙ l.same ∙ k.same })
                  | inr n ↦ rw (n, After) (record { armed = l.armed; same = l.same ∙ k.same })
                ]

  dispatch-Kept :
      (op : Operation) (ctx io : ℕ) (s : Server) → Armed s → After (Kept s) (dispatch w op ctx io s)
  unfolding dispatch do_recv do_send
  dispatch-Kept posted_accept ctx io s h =
      After-bind (λ r. Kept s r.0) _ (do_accept w ctx io s) _ (do_accept-Kept ctx io s h) λ r k. k
  dispatch-Kept posted_send ctx io s h = record { armed = h; same = refl }
  dispatch-Kept posted_recv ctx io s h = record { armed = h; same = refl }
  dispatch-Kept posted_null ctx io s h = record { armed = h; same = refl }

  handle-Kept : (p : Packet) (s : Server) → Armed s → After (Kept s) (handle w p s)
  unfolding handle
  handle-Kept p s h = After-any _ (deref s.io_contexts p.overlapped) _ λ c.
      elim (Bool-cases (p.bytes == 0 && receives_or_sends c.op_type)) [
        | inl gone ↦
            rw (gone, After)
              (After-any _ (deref s.socket_contexts p.key) _ λ _. record { armed = h; same = refl })
        | inr there ↦ rw (there, After) (dispatch-Kept c.op_type p.key p.overlapped s h)
      ]

  -- Whatever packets a worker thread gets, it posts no accept, and every I/O context still has a
  -- socket, as when it began.
  pub worker_thread-Kept :
      (ps : List Packet) (s : Server) → Armed s → After (Kept s) (worker_thread w ps s)
  unfolding worker_thread
  worker_thread-Kept [] s h = record { armed = h; same = refl }
  worker_thread-Kept (p ∷ ps) s h = elim (Bool-cases (is_set s.shutdown_event || p.key == 0)) [
    | inl out ↦ rw (out, After) (record { armed = h; same = refl })
    | inr on ↦ elim (Bool-cases p.returned) [
      | inl y ↦
          rw (on, After)
            (rw (y, After)
              (After-bind (Kept s) _ (handle w p s) _ (handle-Kept p s h) λ s' k.
                After-map (Kept s') _ (worker_thread w ps s') (worker_thread-Kept ps s' k.armed)
                  λ s'' l. Kept-trans s s' s'' k l))
      | inr n ↦
          elim (Bool-cases
            (not (p.error == wait_timeout) && not (p.error == error_netname_deleted))) [
              | inl dead ↦
                  rw (on, After)
                    (rw (n, After) (rw (dead, After) (record { armed = h; same = refl })))
              | inr live ↦
                  rw (on, After) (rw (n, After) (rw (live, After) (worker_thread-Kept ps s h)))
            ]
    ]
  ]
