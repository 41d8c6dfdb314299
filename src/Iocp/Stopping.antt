-- ===== src/Iocp/Stopping.antt =====
-- What `Stop` of IOCPServer/IocpModel.cpp releases.
use boring.Prelude.{
  ℕ, ◌<◌, ◌≡◌, refl, ◌∙◌, sym, ap, ap₂, arith, Bool, true, false, ◌||◌, List, [], ◌∷◌, ◌++◌, Option,
  none, some, ◌==◌, if◌then◌else◌, length, replicate, suc,
}
use mathlib.Core.List.{append_assoc, append-nil}
use boring.Outcome.{ok, uninitialised, never_returns, require, or_fault, bind-ok}
use boring.Iocp.{
  Windows, Action, set_event, post_exit, wait_threads, close_event, close_thread, close_port,
  IoContext, SocketContext, Server, update,
}
use boring.Iocp.Contexts.{close_socket, delete_io, delete_all, delete_socket, contains}
use boring.Iocp.Lifecycle.{
  release, is_created, release_threads, deinitialize, wait_comes_back, signalled, stop,
}
use boring.Memory.{deref-found}

-- The I/O contexts of a socket context: live, and each there once.
abbrev pub Owned : (ℕ → Option IoContext) → List ℕ → Type 0
Owned cells [] = Unit
Owned cells (a ∷ rest) =
    (0 < a) × ((c : IoContext) × (cells a ≡ some c)) × (contains a rest ≡ false) × Owned cells rest

Owned-update :
    (cells : ℕ → Option IoContext) (a : ℕ) (rest : List ℕ)
    → contains a rest ≡ false
    → Owned cells rest
    → Owned (update cells a none) rest
Owned-update cells a [] h o = tt
Owned-update cells a (b ∷ rest) h (p, (c, e), once, o) =
    (p, (c, ground (arith, e)), once, Owned-update cells a rest (ground arith) o)

-- The state after contexts are deleted: `io` are the ones left.
abbrev emptied : Server → (ℕ → Option IoContext) → List ℕ → Server
emptied s io closed = record s { io_contexts = io; closed = closed }

-- The sockets closed, with those of a list of I/O contexts, in its order, put before `closed`.
abbrev pub add_socket : Option ℕ → List ℕ → List ℕ
add_socket none closed = closed
add_socket (some k) closed = k ∷ closed

abbrev pub socket_of : Option IoContext → Option ℕ
socket_of none = none
socket_of (some c) = c.sock_accept

abbrev pub add_sockets : (ℕ → Option IoContext) → List ℕ → List ℕ → List ℕ
add_sockets cells [] closed = closed
add_sockets cells (a ∷ rest) closed =
    add_sockets cells rest (add_socket (socket_of (cells a)) closed)

add_sockets-update :
    (cells : ℕ → Option IoContext) (a : ℕ) (rest closed : List ℕ)
    → contains a rest ≡ false
    → add_sockets (update cells a none) rest closed ≡ add_sockets cells rest closed
add_sockets-update cells a [] closed h = refl
add_sockets-update cells a (b ∷ rest) closed h =
    let n : (b == a) ≡ false = ground arith in
    rw n (add_sockets-update cells a rest _ (ground arith))

close_socket-emptied :
    (k : Option ℕ) (s : Server) → close_socket k s ≡ emptied s s.io_contexts (add_socket k s.closed)
close_socket-emptied none s = refl
close_socket-emptied (some k) s = refl

freed_one :
    (cells : ℕ → Option IoContext) (a x : ℕ) (b : Bool)
    → (if b then none else update cells a none x) ≡ (if a == x || b then none else cells x)
freed_one cells a x true = ground arith
freed_one cells a x false = ground arith

record Emptied (rest : List ℕ) (s : Server) : Type 0 where
  io : ℕ → Option IoContext
  returns : delete_all rest s ≡ ok (emptied s io (add_sockets s.io_contexts rest s.closed))
  left : (x : ℕ) → io x ≡ (if contains x rest then none else s.io_contexts x)

delete_all-Emptied : (rest : List ℕ) (s : Server) → Owned s.io_contexts rest → Emptied rest s
unfolding delete_all delete_io
delete_all-Emptied [] s o = record { io = s.io_contexts; returns = refl; left = λ x. refl }
delete_all-Emptied (a ∷ rest) s (p, (c, e), once, o) =
    let freed = update s.io_contexts a none in
    let closed = add_socket c.sock_accept s.closed in
    let e' = close_socket-emptied c.sock_accept (record s { io_contexts = freed }) in
    let r =
      delete_all-Emptied rest (emptied s freed closed) (Owned-update s.io_contexts a rest once o) in
    let n : (a == 0) ≡ false = ground arith in
    record {
      io = r.io;
      returns =
          rw (n, delete_all)
            (bind-ok (delete_all rest) (bind-ok _ (deref-found s.io_contexts a p e) ∙ ap ok e')
              ∙ r.returns
              ∙ ap (λ l. ok (emptied s r.io l))
                  (add_sockets-update s.io_contexts a rest closed once
                    ∙ ap (λ k. add_sockets s.io_contexts rest (add_socket (socket_of k) s.closed))
                        (sym e)));
      left = λ x. r.left x ∙ freed_one s.io_contexts a x (contains x rest);
    }

-- The closing of each thread that was created.
abbrev pub closings : ℕ → List Bool → List Action
closings i [] = []
closings i (h ∷ hs) = release h (close_thread i) [] ++ closings (suc i) hs

release-append : (h : Bool) (a : Action) (t : List Action) → release h a t ≡ t ++ release h a []
release-append true a t = refl
release-append false a t = sym (append-nil t)

release_threads-all :
    (i : ℕ) (hs : List Bool) (t : List Action)
    → release_threads (length hs) i (some hs) t ≡ ok (t ++ closings i hs)
unfolding release_threads
release_threads-all i [] t = ap ok (sym (append-nil t))
release_threads-all i (h ∷ hs) t =
    release_threads-all (suc i) hs (release h (close_thread i) t)
    ∙ ap (λ l. ok (l ++ closings (suc i) hs)) (release-append h (close_thread i) t)
    ∙ ap ok (append_assoc t (release h (close_thread i) []) (closings (suc i) hs))

-- A server that has started: its threads and its listening context, with the contexts of its accepts.
pub record Running (l fd : ℕ) (hs : List Bool) (c : SocketContext) (s : Server) : Type 0 where
  pub listens : s.listen_context ≡ some l
  pub l_set : 0 < l
  pub at_l : s.socket_contexts l ≡ some c
  pub socket : c.socket ≡ some fd
  pub owned : Owned s.io_contexts c.io_contexts
  pub array : s.worker_threads ≡ some hs
  pub count : s.threads ≡ length hs

-- The sockets that deleting the socket context `c` closes, the last one first.
abbrev pub closing_sockets : SocketContext → Server → List ℕ
closing_sockets c s = add_sockets s.io_contexts c.io_contexts (add_socket c.socket s.closed)

delete_socket-Emptied :
    (l : ℕ) (c : SocketContext) (s : Server)
    → 0 < l
    → s.socket_contexts l ≡ some c
    → Owned s.io_contexts c.io_contexts
    → (io : ℕ → Option IoContext) × (delete_socket l s
        ≡ ok (record (emptied s io (closing_sockets c s)) {
          socket_contexts = update s.socket_contexts l none;
        }))
      × ((x : ℕ) → io x ≡ (if contains x c.io_contexts then none else s.io_contexts x))
unfolding delete_socket
delete_socket-Emptied l c s p e o =
    let closed = add_socket c.socket s.closed in
    let e' = close_socket-emptied c.socket s in
    let r = delete_all-Emptied c.io_contexts (emptied s s.io_contexts closed) o in
    (
      r.io,
      bind-ok _ (deref-found s.socket_contexts l p e)
          ∙ bind-ok _ (ap (delete_all c.io_contexts) e' ∙ r.returns),
      r.left,
    )

stop-enters :
    (w : Windows) (l fd : ℕ) (hs : List Bool) (c : SocketContext) (s : Server)
    → Running l fd hs c s
    → wait_comes_back w s ≡ true
    → stop w s ≡ deinitialize (signalled s)
unfolding stop
stop-enters w l fd hs c s r back =
    let p : 0 < l = r.l_set in
    let n : (l == 0) ≡ false = ground arith in
    let waits : require (wait_comes_back w s) never_returns ≡ ok tt = rw back refl in
    bind-ok _ (let e : or_fault s.listen_context uninitialised ≡ ok l = rw r.listens refl in e)
    ∙ rw (n, stop)
        (bind-ok _ (deref-found s.socket_contexts l p r.at_l)
          ∙ rw (r.socket, stop) (bind-ok _ waits))

-- The closings of `_DeInitialize`: the event, the threads, the port.
abbrev pub handles_closed : Server → List Bool → List Action
handles_closed s hs =
    release s.completion_port close_port
      (release (is_created s.shutdown_event) close_event s.trace ++ closings 0 hs)

-- What `_DeInitialize` leaves.
abbrev released : Server → List Bool → SocketContext → ℕ → (ℕ → Option IoContext) → Server
released s hs c l io = record s {
  shutdown_event = none;
  worker_threads = none;
  completion_port = false;
  io_contexts = io;
  closed = closing_sockets c s;
  socket_contexts = update s.socket_contexts l none;
  listen_context = some 0;
  trace = handles_closed s hs;
}

deinitialize-Emptied :
    (l : ℕ) (hs : List Bool) (c : SocketContext) (s : Server)
    → s.listen_context ≡ some l
    → 0 < l
    → s.socket_contexts l ≡ some c
    → Owned s.io_contexts c.io_contexts
    → s.worker_threads ≡ some hs
    → s.threads ≡ length hs
    → (io : ℕ → Option IoContext) × (deinitialize s ≡ ok (released s hs c l io))
      × ((x : ℕ) → io x ≡ (if contains x c.io_contexts then none else s.io_contexts x))
unfolding deinitialize
deinitialize-Emptied l hs c s listens p at_l owned array count =
    let t = release (is_created s.shutdown_event) close_event s.trace in
    let s1 = record s {
      shutdown_event = none;
      worker_threads = none;
      completion_port = false;
      trace = handles_closed s hs;
    } in
    let (io, e, left) = delete_socket-Emptied l c s1 p at_l owned in
    let n : (l == 0) ≡ false = ground arith in
    let threads : release_threads s.threads 0 s.worker_threads t ≡ ok (t ++ closings 0 hs) =
      ap₂ (λ k a. release_threads k 0 a t) count array ∙ release_threads-all 0 hs t in
    let listening : or_fault s.listen_context uninitialised ≡ ok l = rw listens refl in
    (io, bind-ok _ threads ∙ bind-ok _ listening ∙ rw (n, deinitialize) (bind-ok _ e), left)

-- What `Stop` does to the handles of a running server, in this order: the event is set, one exit
-- packet a thread is posted, the threads are waited for, and the event, each thread that was created
-- and the port are closed.
abbrev pub stopping_actions : ℕ → List Bool → List Action
stopping_actions n hs =
    set_event
    ∷ (replicate n post_exit ++ wait_threads ∷ close_event ∷ (closings 0 hs ++ close_port ∷ []))

in_order :
    (t : List Action) (n : ℕ) (hs : List Bool)
    → (((t ++ set_event ∷ []) ++ replicate n post_exit ++ wait_threads ∷ []) ++ close_event ∷ [])
        ++ closings 0 hs
        ++ close_port ∷ []
      ≡ t ++ stopping_actions n hs
in_order t n hs = simp (append_assoc)

-- `Stop` on a running server with its event and its port, when the wait for the threads comes back:
-- it returns; the event is set, one exit packet a thread is posted, the threads are waited for, and
-- the event, each thread that was created and the port are closed, in this order; the sockets of the
-- listening context and of its I/O contexts are closed, these contexts are deleted and no other, and
-- the pointer to the listening context is null, so that stopping again changes nothing.
pub stop-Released :
    (w : Windows) (l fd : ℕ) (hs : List Bool) (b : Bool) (c : SocketContext) (s : Server)
    → Running l fd hs c s
    → s.shutdown_event ≡ some b
    → s.completion_port ≡ true
    → wait_comes_back w s ≡ true
    → (s' : Server) × (stop w s ≡ ok s')
      × (s'.shutdown_event ≡ none)
      × (s'.completion_port ≡ false)
      × (s'.worker_threads ≡ none)
      × (s'.trace ≡ s.trace ++ stopping_actions (length hs) hs)
      × (s'.closed ≡ add_sockets s.io_contexts c.io_contexts (fd ∷ s.closed))
      × (s'.socket_contexts ≡ update s.socket_contexts l none)
      × ((x : ℕ) → s'.io_contexts x ≡ (if contains x c.io_contexts then none else s.io_contexts x))
      × (stop w s' ≡ ok s')
unfolding stop
stop-Released w l fd hs b c s r event port back =
    let (io, e, left) =
      deinitialize-Emptied l hs c (signalled s) r.listens r.l_set r.at_l r.owned r.array r.count in
    (
      released (signalled s) hs c l io,
      stop-enters w l fd hs c s r back ∙ e,
      refl,
      refl,
      refl,
      rw (event, port, r.count) (in_order s.trace (length hs) hs),
      ap (λ k. add_sockets s.io_contexts c.io_contexts (add_socket k s.closed)) r.socket,
      refl,
      left,
      refl,
    )
