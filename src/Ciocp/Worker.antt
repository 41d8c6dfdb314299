-- ===== src/Ciocp/Worker.antt =====
-- `CIocp::_WorkerThread` of IOCPServer/Iocp.cpp.
use boring.Prelude.{◌%◌, Bool, true, false, not, List, [], ◌∷◌, ◌==◌, if◌then◌else◌}
use boring.Outcome.{Outcome, ok, null_pointer, require, ◌>>=◌}
use boring.Pool.{Packet, Next, leave, again, call}
use boring.Wiocp.Loop.{Round, receive}

-- The test on the key, as a DWORD; a callback is found through the overlapped, with no test of it.
unfoldable pub handle_packet : Packet → Outcome Next
handle_packet p =
    if p.key % 4294967296 == 0
    then ok leave
    else (do _ ← require (not (p.overlapped == 0)) null_pointer; ok call)

-- The packets given to callbacks, and whether the thread has ended.
unfoldable pub worker : List Round → Packet → Outcome (List Packet × Bool)
unfolding receive handle_packet
worker [] l = ok ([], false)
worker ((is_set, d) ∷ rs) l =
    let l' = receive d l in
    let rest = worker rs l' in
    if is_set then ok ([], true) else (do
      next ← handle_packet l'
      elim next [ leave ↦ ok ([], true) | again ↦ rest | call ↦ do r ← rest; ok (l' ∷ r.0, r.1) ])
