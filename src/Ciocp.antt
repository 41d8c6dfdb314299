-- ===== src/Ciocp.antt =====
-- IOCPServer/Iocp.h and Iocp.cpp: the class `CIocp`, a completion port with its worker threads. The
-- number of threads is not negative: `new HANDLE[m_nThreads]` asks for that.
pub mod Worker
pub mod Laws
mod Tests
use boring.Prelude.{
  ℕ, zero, suc, ◌+◌, Bool, true, false, not, ◌&&◌, ◌||◌, List, [], ◌∷◌, Option, none, some,
  replicate, ltb, ◌==◌, if◌then◌else◌,
}
use boring.Outcome.{Outcome, ok, uninitialised, never_returns, require, ◌>>=◌}
use boring.Handles.{Kernel, Host, is_valid, close, cleared, close_threads, make_threads}
use boring.Pool.{Packet, exit_packet}

-- `mutex` says whether `m_csMutex` is initialised.
pub record Ciocp : Type 0 where
  pub shutdown_event : ℕ
  pub completion_port : ℕ
  pub worker_threads : Option (List ℕ)
  pub n_threads : ℕ
  pub mutex : Bool
  pub b_start : Bool

-- The constructor.
abbrev pub new_iocp : ℕ → Ciocp
new_iocp n = record {
  shutdown_event = 0;
  completion_port = 0;
  worker_threads = none;
  n_threads = n;
  mutex = false;
  b_start = false;
}

module _ (w : Kernel) where
  unfoldable pub initialize_iocp : Ciocp → Host → (Ciocp × Host) × Bool
  initialize_iocp s h =
      let port = w.create_port h.calls in
      let s' = record s { completion_port = port } in
      let hs = make_threads w s.n_threads (h.calls + 1) in
      if port == 0 then ((s', record h { calls = h.calls + 1 }), false) else (
        (record s' { worker_threads = some hs }, record h { calls = h.calls + 1 + s.n_threads }),
        true,
      )

  unfoldable pub start : Ciocp → Host → (Ciocp × Host) × Bool
  unfolding initialize_iocp
  start s h =
      let s1 = record s { mutex = true; shutdown_event = w.create_event h.calls } in
      let made = initialize_iocp s1 (record h { calls = h.calls + 1 }) in
      if made.1 then ((record made.0.0 { b_start = true }, made.0.1), true) else (made.0, false)

  unfoldable pub associate_with_iocp : Host → Host × Bool
  associate_with_iocp h = (record h { calls = suc h.calls }, w.associates h.calls)

unfoldable pub deinitialize : Ciocp → Host → Outcome (Ciocp × Host)
deinitialize s h = do
  _ ← require s.mutex uninitialised
  closed ← close_threads s.n_threads s.worker_threads (close s.shutdown_event h.closed)
  ok (
    record s {
      mutex = false;
      shutdown_event = cleared s.shutdown_event;
      worker_threads = none;
      completion_port = cleared s.completion_port;
    },
    record h { closed = close s.completion_port closed },
  )

abbrev pub all_created : List ℕ → Bool
all_created [] = true
all_created (h ∷ hs) = not (h == 0) && all_created hs

-- `WaitForMultipleObjects` comes back: at once, with an error, without an array, for no handle, for
-- more than 64 or for one that is `NULL`; else when all threads have ended.
unfoldable pub wait_comes_back : Kernel → Ciocp → Bool
wait_comes_back w s = elim s.worker_threads [
  | none ↦ true
  | some hs ↦ s.n_threads == 0 || ltb 64 s.n_threads || not (all_created hs) || w.threads_end
]

-- Whether the event has been set, and the exit packets that have reached the port.
pub record Notices : Type 0 where
  pub event_set : Bool
  pub packets : List Packet

abbrev pub notices : Ciocp → Notices
notices s = record {
  event_set = is_valid s.shutdown_event;
  packets = if s.completion_port == 0 then [] else replicate s.n_threads exit_packet;
}

-- `SetEvent` and the exit packets, the wait for the threads, then `_DeInitialize`.
unfoldable pub stop : Kernel → Ciocp → Host → Outcome (Notices × Ciocp × Host)
unfolding deinitialize wait_comes_back
stop w s h = do
  _ ← require (wait_comes_back w s) never_returns
  done ← deinitialize s h
  ok (notices s, done.0, done.1)
