-- ===== src/Ciocp/Tests.antt =====
-- `CIocp` of IOCPServer/Iocp.cpp at fixed inputs.
use boring.Prelude.{◌+◌, ◌≡◌, ◌≢◌, refl, ◌⊎◌, true, false, List, [], ◌∷◌, replicate, arith}
use boring.Outcome.{ok, fault, null_pointer, uninitialised}
use boring.Handles.{Kernel, Host, is_valid}
use boring.Pool.{Packet, exit_packet}
use boring.Wiocp.Loop.{Round, taken, failed, loop, no_packet}
use boring.Ciocp.{new_iocp, start, stop}
use boring.Ciocp.Worker.{worker}
use boring.Ciocp.Laws.{worker-loop, worker-failed, stop-start, stopped}

abbrev a_completion : Packet
a_completion = record { bytes = 12; key = 7; overlapped = 500; success = true }

abbrev rounds : List Round
rounds = (false, taken a_completion) ∷ (false, taken exit_packet) ∷ []

worker-loop_example : worker rounds no_packet ≡ ok (loop rounds no_packet)
worker-loop_example = worker-loop rounds no_packet (omega arith)

worker_stale_key :
    (worker ((false, taken a_completion) ∷ (false, failed) ∷ []) no_packet ≡ fault null_pointer)
    × (loop ((false, taken a_completion) ∷ (false, failed) ∷ []) no_packet
        ≡ (a_completion ∷ [], true))
worker_stale_key = worker-failed a_completion no_packet [] (omega arith) (omega arith) (omega arith)

abbrev a_kernel : Kernel
a_kernel = record {
  create_event = λ c. c + 10;
  create_port = λ c. c + 20;
  create_thread = λ c. c + 30;
  associates = λ _. true;
  threads_end = true;
}

abbrev no_calls : Host
no_calls = record { calls = 0; closed = [] }

stop-start_example :
    ((a_kernel.create_port 1 ≢ 0)
      × ((start a_kernel (new_iocp 2) no_calls).1 ≡ true)
      × (stop a_kernel
            (start a_kernel (new_iocp 2) no_calls).0.0
            (start a_kernel (new_iocp 2) no_calls).0.1
          ≡ ok (
            record { event_set = true; packets = replicate 2 exit_packet },
            record (new_iocp 2) { b_start = true },
            stopped a_kernel 2 no_calls,
          )))
    ⊎ ((a_kernel.create_port 1 ≡ 0)
        × ((start a_kernel (new_iocp 2) no_calls).1 ≡ false)
        × ((start a_kernel (new_iocp 2) no_calls).0.0.shutdown_event ≡ 10)
        × (stop a_kernel
              (start a_kernel (new_iocp 2) no_calls).0.0
              (start a_kernel (new_iocp 2) no_calls).0.1
            ≡ fault null_pointer))
unfolding is_valid
stop-start_example = stop-start a_kernel 2 no_calls (omega arith) (omega arith) (omega arith) refl

-- Stopping what was never started deletes a critical section that was never initialised.
stop_unstarted : stop a_kernel (new_iocp 2) no_calls ≡ fault uninitialised
unfolding stop
stop_unstarted = refl
