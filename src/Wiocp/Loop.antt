-- ===== src/Wiocp/Loop.antt =====
-- `net_wiocp_module::loop` of io/net_wiocp_module.cpp, for one thread.
use boring.Prelude.{Bool, true, false, not, ◌&&◌, List, [], ◌∷◌, ◌==◌, if◌then◌else◌}
use boring.Pool.{Packet, Next, leave, again, call}

-- What `GetQueuedCompletionStatus` does: it delivers a packet, or it fails and sets only
-- `overlapped`, to `NULL`.
pub data Dequeued : Type 0 where
  taken : Packet → Dequeued
  failed : Dequeued

-- The local variables `key`, `bytes`, `overlapped` and `ok` after the call.
unfoldable pub receive : Dequeued → Packet → Packet
receive (taken p) l = p
receive failed l = record l { overlapped = 0; success = false }

-- The two tests on the packet.
unfoldable pub dispatch : Packet → Next
dispatch p =
    if not (p.key == 0) && not (p.overlapped == 0)
    then call
    else if p.overlapped == 0
    then leave
    else again

-- A round: whether the event is set, and what is dequeued.
abbrev pub Round : Type 0
Round = Bool × Dequeued

-- The packets given to callbacks, and whether the loop has ended, not just run out of rounds.
unfoldable pub loop : List Round → Packet → List Packet × Bool
unfolding receive dispatch
loop [] l = ([], false)
loop ((is_set, d) ∷ rs) l =
    let l' = receive d l in
    let rest = loop rs l' in
    if is_set
    then ([], true)
    else elim (dispatch l') [ leave ↦ ([], true) | again ↦ rest | call ↦ (l' ∷ rest.0, rest.1) ]

abbrev pub no_packet : Packet
no_packet = record { bytes = 0; key = 0; overlapped = 0; success = false }
