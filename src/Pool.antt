-- ===== src/Pool.antt =====
-- Worker threads on one completion port, as io/net_wiocp_module.cpp and IOCPServer/Iocp.cpp both run
-- them: each thread tests the shutdown event, takes a packet, and leaves, tests again or calls back,
-- as `dispatch` says; the main thread shuts them down. The threads and the system interleave freely.
pub mod Laws
pub mod Sound
pub mod Shutdown
pub mod Serving
pub mod Joining
use boring.Prelude.{
  ℕ, zero, suc, ◌≡◌, ◌≢◌, Bool, true, false, ◌||◌, List, [], ◌∷◌, ◌++◌, length, replicate, ltb,
  ◌==◌, if◌then◌else◌,
}

-- What `GetQueuedCompletionStatus` delivers; `overlapped` is an address, 0 is `NULL`.
pub record Packet : Type 0 where
  pub bytes : ℕ
  pub key : ℕ
  pub overlapped : ℕ
  pub success : Bool

-- The packet that the shutdown posts for each thread.
abbrev pub exit_packet : Packet
exit_packet = record { bytes = 0; key = 0; overlapped = 0; success = true }

-- What the body of the loop does with a packet.
pub data Next : Type 0 where
  leave : Next
  again : Next
  call : Next

-- Where a thread stands: before `WaitForSingleObject` on the event, in
-- `GetQueuedCompletionStatus`, before the tests of a packet that this has delivered, in a callback,
-- or out of its loop.
pub data Phase : Type 0 where
  testing : Phase
  waiting : Phase
  holding : Packet → Phase
  calling : Packet → Phase
  finished : Phase

-- The main thread: before the shutdown, with so many packets to post, or past the wait for the
-- threads.
pub data Main : Type 0 where
  serving : Main
  posting : ℕ → Main
  joined : Main

-- `arrived` and `served` are the packets that came and those that went to a callback, oldest first:
-- the threads test the packets that they hold and start the callbacks in any order.
pub record Pool : Type 0 where
  pub queue : List Packet
  pub event : Bool
  pub workers : List Phase
  pub main : Main
  pub arrived : List Packet
  pub served : List Packet

abbrev pub landing : Next → Packet → Phase
landing leave p = finished
landing again p = testing
landing call p = calling p

abbrev pub called : Next → Packet → List Packet
called leave p = []
called again p = []
called call p = p ∷ []

abbrev pub is_finished : Phase → Bool
is_finished finished = true
is_finished _ = false

unfoldable pub all_finished : List Phase → Bool
all_finished [] = true
all_finished (p ∷ ps) = if is_finished p then all_finished ps else false

-- `WaitForMultipleObjects` on `n` handles comes back: at once, with an error, for no handle, for
-- more than 64 or for a thread that was not created; else when all threads have ended.
unfoldable pub wait_returns : ℕ → List Phase → Bool
unfolding all_finished
wait_returns n ps = n == 0 || ltb 64 n || ltb (length ps) n || all_finished ps

-- A completion comes in, of an operation that has an `OVERLAPPED`.
pub data Arrival (s : Pool) : Pool → Type 0 where
  arrives :
      (p : Packet)
      → p.overlapped ≢ 0
      → Arrival s (record s { queue = s.queue ++ p ∷ []; arrived = s.arrived ++ p ∷ [] })

module _ (dispatch : Packet → Next) where
  -- A step of the program, with `n` threads asked for: a round of a thread's loop has four, the
  -- shutdown sets the event, posts and waits.
  pub data Step (n : ℕ) (s : Pool) : Pool → Type 0 where
    tests :
        (xs ys : List Phase)
        → s.workers ≡ xs ++ testing ∷ ys
        → Step n s (record s { workers = xs ++ (if s.event then finished else waiting) ∷ ys })
    takes :
        (xs ys : List Phase) (p : Packet) (q : List Packet)
        → s.workers ≡ xs ++ waiting ∷ ys
        → s.queue ≡ p ∷ q
        → Step n s (record s { queue = q; workers = xs ++ holding p ∷ ys })
    dispatches :
        (xs ys : List Phase) (p : Packet)
        → s.workers ≡ xs ++ holding p ∷ ys
        → Step n s (record s {
          workers = xs ++ landing (dispatch p) p ∷ ys;
          served = s.served ++ called (dispatch p) p;
        })
    returns :
        (xs ys : List Phase) (p : Packet)
        → s.workers ≡ xs ++ calling p ∷ ys
        → Step n s (record s { workers = xs ++ testing ∷ ys })
    shuts : s.main ≡ serving → Step n s (record s { event = true; main = posting n })
    posts :
        (k : ℕ)
        → s.main ≡ posting (suc k)
        → Step n s (record s {
          queue = s.queue ++ exit_packet ∷ [];
          main = posting k;
          arrived = s.arrived ++ exit_packet ∷ [];
        })
    joins :
        s.main ≡ posting zero
        → wait_returns n s.workers ≡ true
        → Step n s (record s { main = joined })

  -- A run with `k` steps of the program and any number of completions between them.
  pub data Run (n : ℕ) (s : Pool) : ℕ → Pool → Type 0 where
    rest : Run n s zero s
    step : {k : ℕ} {t u : Pool} → Run n s k t → Step n t u → Run n s (suc k) u
    completion : {k : ℕ} {t u : Pool} → Run n s k t → Arrival t u → Run n s k u

-- The pool that `c` created threads start in.
abbrev pub started : ℕ → Pool
started c = record {
  queue = [];
  event = false;
  workers = replicate c testing;
  main = serving;
  arrived = [];
  served = [];
}
