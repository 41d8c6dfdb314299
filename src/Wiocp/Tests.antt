-- ===== src/Wiocp/Tests.antt =====
-- The event loop of io/net_wiocp_module.cpp at fixed inputs.
use boring.Prelude.{◌+◌, ◌*◌, ◌≤◌, ◌≡◌, refl, ◌⊎◌, true, false, List, [], ◌∷◌, ◌++◌, some, arith}
use boring.Outcome.{ok, fault, null_pointer}
use boring.Handles.{Kernel, Host, make_threads, close_threads, close}
use boring.Handles.Laws.{valid}
use boring.Pool.{
  Packet, exit_packet, Pool, finished, calling, Main, joined, posting, Run, rest, step, completion,
  arrives, tests, takes, dispatches, returns, shuts, posts, joins, started, all_finished,
  wait_returns,
}
use boring.Pool.Serving.{held, count}
use boring.Pool.Shutdown.{IsOver, CanStep}
use boring.Wiocp.{Sockets, Extensions, new_module, start, destroy}
use boring.Wiocp.Loop.{Round, taken, failed, dispatch, loop, no_packet}
use boring.Wiocp.Laws.{
  taken_before, ends, with_key, wanted, loop-with_key, served-wanted, shutdown-ends,
  shutdown-all_finished, destroy-start,
}

abbrev a_completion : Packet
a_completion = record { bytes = 12; key = 7; overlapped = 500; success = true }

abbrev no_key : Packet
no_key = record { bytes = 1; key = 0; overlapped = 500; success = true }

abbrev rounds : List Round
rounds = (false, taken no_key) ∷ (false, taken a_completion) ∷ (false, failed) ∷ (true, failed) ∷ []

-- A packet without a key is passed over, a dequeuing that fails ends the loop.
loop_runs : loop rounds no_packet ≡ (a_completion ∷ [], true)
unfolding loop
loop_runs = refl

loop-with_key_example : loop rounds no_packet ≡ (with_key (taken_before rounds), ends rounds)
loop-with_key_example = loop-with_key rounds no_packet

-- One thread: a completion comes and is called back, then the module is shut down.
abbrev called_back : Pool
called_back = record {
  queue = [];
  event = false;
  workers = calling a_completion ∷ [];
  main = Main.serving;
  arrived = a_completion ∷ [];
  served = a_completion ∷ [];
}

abbrev shut_down : Pool
shut_down = record called_back { event = true; main = posting 1 }

abbrev one_posted : Pool
one_posted = record shut_down {
  queue = exit_packet ∷ [];
  main = posting 0;
  arrived = a_completion ∷ exit_packet ∷ [];
}

abbrev returned : Pool
returned = record one_posted { workers = finished ∷ []; main = joined }

calls_back : Run dispatch 1 (started 1) 3 called_back
unfolding dispatch
calls_back =
    step
      (step
        (step (completion rest (arrives a_completion (λ h. absurd (omega arith))))
          (tests [] [] refl))
        (takes [] [] a_completion [] refl refl))
      (dispatches [] [] a_completion refl)

shuts_down : Run dispatch 1 (started 1) 4 shut_down
shuts_down = step calls_back (shuts refl)

posts_one : Run dispatch 1 shut_down 1 one_posted
posts_one = step rest (posts 0 refl)

comes_back : Run dispatch 1 (started 1) 8 returned
unfolding all_finished wait_returns
comes_back =
    step
      (step (step (step shuts_down (posts 0 refl)) (returns [] [] a_completion refl))
        (tests [] [] refl))
      (joins refl refl)

served-wanted_example :
    count (λ p. p.success) one_posted.served
      + count (λ p. p.success) (wanted (held one_posted.workers))
      + count (λ p. p.success) (wanted one_posted.queue)
    ≡ count (λ p. p.success) (wanted one_posted.arrived)
served-wanted_example =
    served-wanted 1 1 5 {t = one_posted} (λ p. p.success) (step shuts_down (posts 0 refl))

shutdown-ends_example : (1 ≤ 5 * 1 + 1) × (IsOver one_posted ⊎ CanStep dispatch 1 one_posted)
shutdown-ends_example = shutdown-ends 1 1 4 1 (omega arith) shuts_down refl posts_one

shutdown-all_finished_example : all_finished returned.workers ≡ true
shutdown-all_finished_example =
    shutdown-all_finished 1 8 (omega arith) (omega arith) comes_back refl

abbrev a_kernel : Kernel
a_kernel = record {
  create_event = λ c. c + 10;
  create_port = λ c. c + 20;
  create_thread = λ c. c + 30;
  associates = λ _. true;
  threads_end = true;
}

abbrev one_cpu : Sockets
one_cpu = record { processors = 1; open_socket = some 3; accept_ex = 40; accept_ex_addresses = 41 }

abbrev unset : Extensions
unset = record { accept_fn = 0; addresses_fn = 0; initialized = false; closed_sockets = [] }

abbrev no_calls : Host
no_calls = record { calls = 0; closed = [] }

destroy-start_example :
    (destroy
        (start a_kernel (new_module one_cpu unset).0 no_calls).0
        (start a_kernel (new_module one_cpu unset).0 no_calls).1
      ≡ ok (record { calls = 6; closed = valid (21 ∷ (make_threads a_kernel 4 2 ++ 10 ∷ [])) }))
    × (destroy (new_module one_cpu unset).0 no_calls ≡ fault null_pointer)
destroy-start_example = destroy-start a_kernel one_cpu unset no_calls

closes :
    destroy
      (start a_kernel (new_module one_cpu unset).0 no_calls).0
      (start a_kernel (new_module one_cpu unset).0 no_calls).1
    ≡ ok (record { calls = 6; closed = 21 ∷ 32 ∷ 33 ∷ 34 ∷ 35 ∷ 10 ∷ [] })
unfolding new_module start destroy make_threads close_threads close
closes = refl
