-- ===== src/Iocp/Startup.antt =====
-- `Start` of IOCPServer/IocpModel.cpp when it returns true, and a worker thread after it.
use mathlib.Core.Path.{subst}
use boring.Prelude.{
  ℕ, zero, suc, ◌+◌, ◌*◌, ◌≡◌, refl, ◌∙◌, ap, arith, ◌⊎◌, inl, inr, Bool, true, false, List, ◌∷◌,
  none, some, if◌then◌else◌, length, Bool-cases, Option-cases,
}
use boring.Outcome.{
  ok, require, null_pointer, uninitialised, After, After-bind, After-any, After-map, or_fault,
}
use boring.Iocp.{
  posted_accept, Windows, Server, PostResult, at_once, pending, refused, addresses_len, deref, tick,
  put_io,
}
use boring.Iocp.Contexts.{make_socket_context, get_new_io_context, remove_context, delete_socket}
use boring.Iocp.Posting.{posting_result, call_accept_ex, post_accept}
use boring.Iocp.Worker.{Packet, worker_thread}
use boring.Iocp.Lifecycle.{
  new_server, create_threads, initialize_iocp, post_accepts, open_listening,
  initialize_listen_socket, deinitialize, start,
}
use boring.Iocp.Keeping.{Armed, Kept, KeptBut, get_new-KeptBut, put_io-Kept}
use boring.Iocp.Accepts.{worker_thread-Kept}

-- Either the step returned false, or every I/O context has a socket and `n` more accepts are posted.
abbrev Posted : ℕ → Server → Server × Bool → Type 0
Posted n s r = (r.1 ≡ false) ⊎ (Armed r.0 × (length r.0.accepts ≡ n + length s.accepts))

module _ (w : Windows) where
  call-Posted : (io k : ℕ) (s : Server) → Armed s → After (Posted 1 s) (call_accept_ex w io k s)
  unfolding call_accept_ex
  call-Posted io k s h = After-any _ (require s.accept_fn null_pointer) _ λ _.
      After-any _ (or_fault s.listen_context uninitialised) _
        λ l. After-any _ (deref s.socket_contexts l) _ λ listening. go (w.accept_ex s.calls)
    where
      go :
          (r : PostResult)
          → Posted 1 s
              (posting_result r (record (tick s) { accepts = (io, k) ∷ s.accepts }) (tick s))
      go at_once = inr (h, omega arith)
      go pending = inr (h, omega arith)
      go refused = inl refl

  post_accept-Posted :
      (io : ℕ) (s0 s : Server) → KeptBut s0 io s → After (Posted 1 s0) (post_accept w io s)
  unfolding post_accept
  post_accept-Posted io s0 s k = After-any _ (deref s.io_contexts io) _ λ c.
      elim (Option-cases c.sock_accept) [
        | inr (fd, e) ↦ rw (e, After) (inl refl)
        | inl e ↦ elim (Option-cases (w.wsa_socket s.calls)) [
          | inl n ↦ rw (e, After) (rw (n, After) (inl refl))
          | inr (fd, y) ↦
              let c' = record c {
                op_type = posted_accept;
                sock_accept = some fd;
                len = addresses_len + 1;
              } in
              let p = put_io-Kept s0 s io c' refl k in
              rw (e, After)
                (rw (y, After)
                  (After-map (Posted 1 (tick (put_io io c' s))) _
                    (call_accept_ex w io fd (tick (put_io io c' s)))
                    (call-Posted io fd (tick (put_io io c' s)) p.armed)
                    λ r q. elim q [
                      | inl f ↦ inl f
                      | inr (a, n) ↦ inr (
                        a,
                        (let same : length s.accepts ≡ length s0.accepts = ap length k.same in
                            omega arith),
                      )
                    ]))
        ]
      ]

  post_accepts-Posted : (n l : ℕ) (s : Server) → Armed s → After (Posted n s) (post_accepts w n l s)
  unfolding post_accepts
  post_accepts-Posted zero l s h = inr (h, omega arith)
  post_accepts-Posted (suc n) l s h =
      After-bind (λ r. KeptBut s r.1 r.0) _ (get_new_io_context l s) _ (get_new-KeptBut l s h)
        λ made k.
          After-bind (Posted 1 s) _ (post_accept w made.1 made.0) _
            (post_accept-Posted made.1 s made.0 k)
            λ posted p. elim (Bool-cases posted.1) [
              | inr f ↦
                  rw (f, After) (After-any _ (remove_context l made.1 posted.0) _ λ s'. inl refl)
              | inl y ↦
                  rw (y, After)
                    (elim p [
                      | inl f ↦ absurd cc
                      | inr (a, e) ↦
                          After-map (Posted n posted.0) _ (post_accepts w n l posted.0)
                            (post_accepts-Posted n l posted.0 a)
                            λ r q. elim q [ inl f ↦ inl f | inr (b, e') ↦ inr (b, omega arith) ]
                    ])
            ]

  open_listening-Posted :
      (l : ℕ) (s : Server) → Armed s → After (Posted 10 s) (open_listening w l s)
  unfolding open_listening
  open_listening-Posted l s h = elim (Bool-cases (w.bind s.calls)) [
    | inr n ↦ rw (n, After) (inl refl)
    | inl b ↦ elim (Bool-cases (w.listen (suc s.calls))) [
      | inr n ↦ rw (b, After) (rw (n, After) (inl refl))
      | inl k ↦ rw (b, After) (rw (k, After) (post_accepts-Posted 10 l _ h))
    ]
  ]

  listen-Posted : (s : Server) → Armed s → After (Posted 10 s) (initialize_listen_socket w s)
  unfolding initialize_listen_socket make_socket_context
  listen-Posted s h = After-any _ (deref _ s.next) _ λ c.
      elim (Option-cases (w.wsa_socket s.calls)) [
        | inl n ↦ rw (n, After) (inl refl)
        | inr (fd, y) ↦ elim (Bool-cases (w.create_port (suc s.calls))) [
          | inr n ↦
              rw (y, After) (rw (n, After) (After-any _ (delete_socket s.next _) _ λ s3. inl refl))
          | inl p ↦ rw (y, After) (rw (p, After) (open_listening-Posted s.next _ h))
        ]
      ]

  create_threads-same :
      (n : ℕ) (s : Server)
      → ((create_threads w n s).1.io_contexts ≡ s.io_contexts)
        × ((create_threads w n s).1.accepts ≡ s.accepts)
        × (length (create_threads w n s).0 ≡ n)
  unfolding create_threads
  create_threads-same zero s = (refl, refl, refl)
  create_threads-same (suc n) s = let (i, a, l) = create_threads-same n (tick s) in (i, a, ap suc l)

  iocp-same :
      (s : Server)
      → ((initialize_iocp w s).0.io_contexts ≡ s.io_contexts)
        × ((initialize_iocp w s).0.accepts ≡ s.accepts)
  unfolding initialize_iocp
  iocp-same s =
      let n = 2 * w.processors + 2 in
      let (i, a, l) =
        create_threads-same n (record (tick s) { completion_port = true; threads = n }) in
      elim (Bool-cases (w.create_port s.calls)) [ inl e ↦ rw e (i, a) | inr e ↦ rw e (refl, refl) ]

  start-Posted :
      (s : Server)
      → Armed s
      → After (λ r. (r.1 ≡ false) ⊎ (Posted 10 s r × (r.0.b_start ≡ true))) (start w s)
  unfolding start
  start-Posted s h =
      let s1 = record (tick s) {
        shutdown_event = (if w.create_event s.calls then some false else none);
      } in
      let (i, a) = iocp-same s1 in
      elim (Bool-cases (initialize_iocp w s1).1) [
        | inr f ↦ rw (f, After) (inl refl)
        | inl y ↦
            let armed : Armed (initialize_iocp w s1).0 = λ x. rw i (h x) in
            rw (y, After)
              (After-bind (Posted 10 (initialize_iocp w s1).0) _
                (initialize_listen_socket w (initialize_iocp w s1).0) _
                (listen-Posted (initialize_iocp w s1).0 armed)
                λ r p. elim (Bool-cases r.1) [
                  | inr f ↦ rw (f, After) (After-any _ (deinitialize r.0) _ λ s'. inl refl)
                  | inl t ↦
                      rw (t, After)
                        (elim p [
                          | inl f ↦ absurd cc
                          | inr (b, n) ↦
                              let same : length (initialize_iocp w s1).0.accepts
                                  ≡ length s.accepts =
                                ap length a in
                              inr (inr (b, n ∙ ap (λ k. 10 + k) same), refl)
                        ])
                ])
      ]

  -- A server that has started has posted ten accepts. However many of them complete, in whatever
  -- order and with whatever other packets between them, the worker threads post no other: it takes in
  -- at most ten clients.
  pub start-worker_thread :
      (ps : List Packet) (s s' : Server)
      → start w new_server ≡ ok (s, true)
      → worker_thread w ps s ≡ ok s'
      → length s'.accepts ≡ 10
  start-worker_thread ps s s' started ran =
      let p : (true ≡ false) ⊎ (Posted 10 new_server (s, true) × (s.b_start ≡ true)) =
        subst (After (λ r. (r.1 ≡ false) ⊎ (Posted 10 new_server r × (r.0.b_start ≡ true)))) started
          (start-Posted new_server (λ x. refl)) in
      elim p [
        | inl f ↦ absurd cc
        | inr (inl f, b) ↦ absurd cc
        | inr (inr (armed, n), b) ↦
            let k : Kept s s' = subst (After (Kept s)) ran (worker_thread-Kept w ps s armed) in
            ap length k.same ∙ n ∙ refl
      ]
