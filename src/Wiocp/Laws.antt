-- ===== src/Wiocp/Laws.antt =====
-- io/net_wiocp_module.cpp: what one thread calls back, what all threads together call back, that a
-- shutdown ends, and what the destructor releases.
use boring.Prelude.{
  ℕ, ◌+◌, ◌*◌, ◌≤◌, ◌<◌, ◌≡◌, refl, ap, ◌∙◌, ◌⊎◌, Bool, true, false, List, [], ◌∷◌, ◌++◌, ◌==◌,
  if◌then◌else◌, arith,
}
use boring.Outcome.{ok, fault, null_pointer, bind-ok, ◌>>=◌}
use boring.Handles.{Kernel, Host, close, make_threads}
use boring.Handles.Laws.{valid, close_around, close_threads-none, close_threads_made}
use boring.Pool.{Packet, Pool, joined, started, Run, all_finished}
use boring.Pool.Sound.{Run-IsSound, started-IsSound}
use boring.Pool.Shutdown.{IsOver, CanStep, Run-ends}
use boring.Pool.Serving.{callable, held, count, served-callable}
use boring.Pool.Joining.{joined-all_finished}
use boring.Wiocp.{Sockets, Extensions, new_module, start, destroy}
use boring.Wiocp.Loop.{taken, failed, dispatch, Round, loop}

-- The packets dequeued before a round that finds the event set, dequeues nothing or a packet
-- without an overlapped; and whether there is such a round.
abbrev pub taken_before : List Round → List Packet
taken_before [] = []
taken_before ((true, d) ∷ rs) = []
taken_before ((false, failed) ∷ rs) = []
taken_before ((false, taken p) ∷ rs) = if p.overlapped == 0 then [] else p ∷ taken_before rs

abbrev pub ends : List Round → Bool
ends [] = false
ends ((true, d) ∷ rs) = true
ends ((false, failed) ∷ rs) = true
ends ((false, taken p) ∷ rs) = if p.overlapped == 0 then true else ends rs

abbrev pub with_key : List Packet → List Packet
with_key [] = []
with_key (p ∷ ps) = if p.key == 0 then with_key ps else p ∷ with_key ps

-- A thread gives to callbacks the packets with a key that it dequeues before its end, in order, and
-- its loop ends at the first round that finds the event set, or dequeues nothing or a packet without
-- an overlapped.
pub loop-with_key :
    (rs : List Round) (l : Packet) → loop rs l ≡ (with_key (taken_before rs), ends rs)
unfolding loop
loop-with_key [] l = refl
loop-with_key ((true, d) ∷ rs) l = refl
loop-with_key ((false, failed) ∷ rs) l = ground (arith)
loop-with_key ((false, taken p) ∷ rs) l = ground (arith, loop-with_key rs p)

-- The packets with a key and an overlapped.
abbrev pub wanted : List Packet → List Packet
wanted [] = []
wanted (p ∷ ps) =
    if p.key == 0 then wanted ps else if p.overlapped == 0 then wanted ps else p ∷ wanted ps

callable-wanted : (ps : List Packet) → callable dispatch ps ≡ wanted ps
unfolding dispatch
callable-wanted [] = refl
callable-wanted (p ∷ ps) = ground (arith, callable-wanted ps)

-- However the threads interleave, also during a shutdown, and in whatever order they start their
-- callbacks: for any test on packets, as many packets that pass it were given to callbacks, or have a
-- key and an overlapped and are held by a thread before its tests or are in the queue, as came with a
-- key and an overlapped. So each of these goes to one callback at most, and none is lost.
pub served-wanted :
    (n c k : ℕ) {t : Pool} (f : Packet → Bool)
    → Run dispatch n (started c) k t
    → count f t.served + count f (wanted (held t.workers)) + count f (wanted t.queue)
      ≡ count f (wanted t.arrived)
served-wanted n c k {t} f r = omega (
  arith,
  served-callable dispatch f c r,
  ap (count f) (callable-wanted (held t.workers)),
  ap (count f) (callable-wanted t.queue),
  ap (count f) (callable-wanted t.arrived),
)

-- Once `shutdown` has set the event, whatever the threads have done before and whatever completions
-- still come: of `n` threads, of which `c` could be created, and the main thread together at most
-- `5 * n + 1` more steps are made, and as long as `shutdown` has not come back or a thread has not
-- ended, some step can be made.
pub shutdown-ends :
    (n c j k : ℕ) {s t : Pool}
    → c ≤ n
    → Run dispatch n (started c) j s
    → s.event ≡ true
    → Run dispatch n s k t
    → (k ≤ 5 * n + 1) × (IsOver t ⊎ CanStep dispatch n t)
shutdown-ends n c j k few r h r' =
    Run-ends dispatch (Run-IsSound dispatch r (started-IsSound n c few)) h r'

-- When all of 1 to 64 threads were created, `shutdown` comes back only after every thread has
-- ended.
pub shutdown-all_finished :
    (n k : ℕ) {t : Pool}
    → 0 < n
    → n ≤ 64
    → Run dispatch n (started n) k t
    → t.main ≡ joined
    → all_finished t.workers ≡ true
shutdown-all_finished n k some_threads few r = joined-all_finished dispatch some_threads few r

-- The destructor of a module that was started once closes the port, the threads and the event, each
-- that could be created, once and in this order; of a module that was never started it reads the
-- array of threads through a null pointer.
pub destroy-start :
    (w : Kernel) (k : Sockets) (x : Extensions) (h : Host)
    → let m = (new_module k x).0 in
      let n = k.processors * 2 + 2 in
      (destroy (start w m h).0 (start w m h).1
        ≡ ok (record {
          calls = h.calls + 2 + n;
          closed =
              h.closed
              ++ valid (
                  w.create_port (h.calls + 1)
                  ∷ (make_threads w n (h.calls + 2) ++ w.create_event h.calls ∷ []));
        }))
      × (destroy m h ≡ fault null_pointer)
unfolding new_module start destroy
destroy-start w k x h =
    let n = k.processors * 2 + 2 in
    let port = w.create_port (h.calls + 1) in
    let event = w.create_event h.calls in
    (
      bind-ok _ (close_threads_made w n (h.calls + 2) (close port h.closed))
          ∙ ap (λ l. ok (record { calls = h.calls + 2 + n; closed = l }))
              (close_around port event (make_threads w n (h.calls + 2)) h.closed),
      ap (λ o. o >>= λ closed. ok (record h { closed = close 0 closed }))
          (close_threads-none n (close 0 h.closed) (omega arith)),
    )
