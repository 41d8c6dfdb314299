-- ===== src/Ciocp/Laws.antt =====
-- IOCPServer/Iocp.cpp: the worker against the loop of io/net_wiocp_module.cpp, and the life of the
-- port.
use boring.Prelude.{
  ℕ, ◌+◌, ◌<◌, ◌≡◌, ◌≢◌, refl, ap, ◌∙◌, ◌⊎◌, ◌↔◌, inl, inr, true, false, List, [], ◌∷◌, ◌++◌, All,
  replicate, some, ◌==◌, arith,
}
use native.Mathlib.Decide.{ℕ_discrete}
use boring.Outcome.{ok, fault, null_pointer, never_returns, require, bind-ok, bind-fault}
use boring.Handles.{Kernel, Host, is_valid, close, make_threads, cleared}
use boring.Handles.Laws.{valid, close_around, close_threads-none, close_threads_made}
use boring.Pool.{Packet, exit_packet}
use boring.Wiocp.Loop.{Round, taken, failed, loop}
use boring.Ciocp.{Ciocp, new_iocp, start, wait_comes_back, stop}
use boring.Ciocp.Worker.{worker}

-- A packet of the system: a completion, with a key of 32 bits that is not 0 and an overlapped, or
-- an exit packet, with neither.
abbrev pub IsRegular : Round → Type 0
IsRegular (is_set, taken p) = (p.key < 4294967296) × ((p.key ≡ 0) ↔ (p.overlapped ≡ 0))
IsRegular (is_set, failed) = ⊥

-- On packets of which each has both a key that is not 0 and below 2 ^ 32 and an overlapped, or
-- neither, and when no dequeuing fails, the worker does not fault, and calls back and ends just as
-- the loop of net_wiocp_module does.
pub worker-loop : (rs : List Round) (l : Packet) → All IsRegular rs → worker rs l ≡ ok (loop rs l)
unfolding worker loop
worker-loop [] l h = refl
worker-loop ((true, d) ∷ rs) l h = refl
worker-loop ((false, failed) ∷ rs) l h = absurd h.0
worker-loop ((false, taken p) ∷ rs) l h = ground (arith, worker-loop rs p h.1)

-- When dequeuing fails after a callback was made, the worker goes on with the key of the packet
-- before and a null overlapped, and faults; the loop of net_wiocp_module ends after the callback.
pub worker-failed :
    (p l : Packet) (rs : List Round)
    → 0 < p.key
    → p.key < 4294967296
    → p.overlapped ≢ 0
    → (worker ((false, taken p) ∷ (false, failed) ∷ rs) l ≡ fault null_pointer)
      × (loop ((false, taken p) ∷ (false, failed) ∷ rs) l ≡ (p ∷ [], true))
unfolding worker loop
worker-failed p l rs k b o = ground arith

-- `CreateEvent` and `CreateIoCompletionPort` answer `NULL` when they fail, not
-- `INVALID_HANDLE_VALUE`.
abbrev pub stopped : Kernel → ℕ → Host → Host
stopped w n h = record {
  calls = h.calls + 2 + n;
  closed =
      h.closed
      ++ valid (
          w.create_event h.calls
          ∷ (make_threads w n (h.calls + 2) ++ w.create_port (h.calls + 1) ∷ []));
}

cleared-valid : (h : ℕ) → h ≢ 4294967295 → cleared h ≡ 0
unfolding cleared
cleared-valid h e = ground arith

module _ (w : Kernel) (n : ℕ) where
  -- The object with its handles.
  abbrev running : ℕ → ℕ → ℕ → Ciocp
  running event port c = record {
    shutdown_event = event;
    completion_port = port;
    worker_threads = some (make_threads w n c);
    n_threads = n;
    mutex = true;
    b_start = true;
  }

  -- Threads that end are waited for.
  wait-ends :
      (event port c : ℕ) → w.threads_end ≡ true → wait_comes_back w (running event port c) ≡ true
  unfolding wait_comes_back
  wait-ends event port c ended = ground (arith, ended)

  stop-running :
      (event port c k : ℕ) (closed : List ℕ)
      → event ≢ 4294967295
      → port ≢ 4294967295
      → port ≢ 0
      → w.threads_end ≡ true
      → stop w (running event port c) (record { calls = k; closed = closed })
        ≡ ok (
          record { event_set = is_valid event; packets = replicate n exit_packet },
          record (new_iocp n) { b_start = true },
          record {
            calls = k;
            closed = closed ++ valid (event ∷ (make_threads w n c ++ port ∷ []));
          },
        )
  unfolding stop
  stop-running event port c k closed e p z ended =
      let f : (port == 0) ≡ false = ground arith in
      let waits : require (wait_comes_back w (running event port c)) never_returns ≡ ok tt =
        rw (wait-ends event port c ended) refl in
      bind-ok _ waits
      ∙ bind-ok _ (bind-ok _ (close_threads_made w n c (close event closed)))
      ∙ rw
          (
            f,
            cleared-valid event e,
            cleared-valid port p,
            close_around event port (make_threads w n c) closed,
          )
          refl

  module _ (h : Host) where
    created :
        w.create_port (h.calls + 1) ≢ 0
        → start w (new_iocp n) h ≡ (
          (
            running (w.create_event h.calls) (w.create_port (h.calls + 1)) (h.calls + 2),
            record h { calls = h.calls + 2 + n },
          ),
          true,
        )
    unfolding start
    created c =
        let f : (w.create_port (h.calls + 1) == 0) ≡ false = ground arith in
        let g : h.calls + 1 + 1 ≡ h.calls + 2 = omega arith in rw (f, g) refl

    not_created :
        0 < n
        → w.create_port (h.calls + 1) ≡ 0
        → let made = start w (new_iocp n) h in
          (made.1 ≡ false)
          × (made.0.0.shutdown_event ≡ w.create_event h.calls)
          × (stop w made.0.0 made.0.1 ≡ fault null_pointer)
    unfolding start stop
    not_created k c = rw c (
      refl,
      refl,
      bind-fault _
          (bind-fault _ (close_threads-none n (close (w.create_event h.calls) h.closed) k)),
    )

-- When `CreateEvent` and `CreateIoCompletionPort` do not answer `INVALID_HANDLE_VALUE`, there is at
-- least one thread, and threads that are told to end do. Where the port could be created, `Start`
-- succeeds, and `Stop` sets the event, if there is one, posts one exit packet for each thread, closes
-- the event, the threads and the port, each that could be created, once and in this order, and leaves
-- the object as the constructor made it, but for `m_bStart`. Where it could not, `Start` fails, with
-- the event kept, and `Stop` reads the array of threads through a null pointer.
pub stop-start :
    (w : Kernel) (n : ℕ) (h : Host)
    → 0 < n
    → w.create_event h.calls ≢ 4294967295
    → w.create_port (h.calls + 1) ≢ 4294967295
    → w.threads_end ≡ true
    → let made = start w (new_iocp n) h in
      ((w.create_port (h.calls + 1) ≢ 0)
        × (made.1 ≡ true)
        × (stop w made.0.0 made.0.1
            ≡ ok (
              record {
                event_set = is_valid (w.create_event h.calls);
                packets = replicate n exit_packet;
              },
              record (new_iocp n) { b_start = true },
              stopped w n h,
            )))
      ⊎ ((w.create_port (h.calls + 1) ≡ 0)
          × (made.1 ≡ false)
          × (made.0.0.shutdown_event ≡ w.create_event h.calls)
          × (stop w made.0.0 made.0.1 ≡ fault null_pointer))
stop-start w n h k e p ended = elim (ℕ_discrete (w.create_port (h.calls + 1)) 0) [
  | yes c ↦ let r = not_created w n h k c in inr (c, r.0, r.1, r.2)
  | no c ↦ inl (
    c,
    ap (λ m. m.1) (created w n h c),
    ap (λ m. stop w m.0.0 m.0.1) (created w n h c)
        ∙ stop-running w n (w.create_event h.calls) (w.create_port (h.calls + 1)) (h.calls + 2) _ _
            e p c ended,
  )
]
