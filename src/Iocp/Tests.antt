-- ===== src/Iocp/Tests.antt =====
-- The server of IOCPServer/IocpModel.cpp on a Windows where every call goes well.
use boring.Prelude.{
  ℕ, ◌+◌, ◌≡◌, refl, arith, Bool, true, false, List, [], ◌∷◌, none, some, if◌then◌else◌, length,
}
use boring.Outcome.{Outcome, ok, fault, uninitialised, After}
use boring.Iocp.{
  posted_accept, set_event, post_exit, wait_threads, close_event, close_thread, close_port,
  IoContext, SocketContext, Windows, Server, pending, max_buffer_len, update, deref,
}
use boring.Iocp.Contexts.{new_io, contains, get_new_io_context, make_socket_context}
use boring.Iocp.Worker.{Packet, worker_thread, do_accept, handle, dispatch, greet, receive_first}
use boring.Iocp.Lifecycle.{
  new_server, start, stop, wait_comes_back, initialize_iocp, create_threads,
  initialize_listen_socket, open_listening, post_accepts,
}
use boring.Iocp.Posting.{post_accept, call_accept_ex, post_recv}
use boring.Iocp.Keeping.{Armed, Kept}
use boring.Iocp.Accepts.{worker_thread-Kept}
use boring.Iocp.Startup.{start-worker_thread}
use boring.Iocp.Clients.{do_accept-Served}
use boring.Iocp.Stopping.{Running, stop-Released}

abbrev windows : Windows
windows = record {
  processors = 0;
  create_event = λ _. true;
  create_port = λ _. true;
  create_thread = λ _. true;
  wsa_socket = λ n. some (n + 100);
  bind = λ _. true;
  listen = λ _. true;
  extension = λ _. true;
  accept_ex = λ _. pending;
  wsa_recv = λ _. pending;
  wsa_send = λ _. pending;
  peer = λ _. (b'1' ∷ [], 80);
  threads_end = true;
}

-- The destructor of a server that was never started reads `m_pListenContext`, which nothing has set.
stop_unset : stop windows new_server ≡ fault uninitialised
unfolding stop
stop_unset = refl

abbrev accepting : IoContext
accepting = record new_io { op_type = posted_accept; sock_accept = some 7 }

-- Listening with the context at 1 for the accept at 2.
abbrev listening : SocketContext
listening = record { socket = some 5; ip = []; port = 0; io_contexts = 2 ∷ [] }

abbrev running : Server
running = record new_server {
  addresses_fn = true;
  accept_fn = true;
  shutdown_event = some false;
  completion_port = true;
  worker_threads = some (true ∷ true ∷ []);
  threads = 2;
  listen_context = some 1;
  io_contexts = update (λ _. none) 2 (some accepting);
  socket_contexts = update (λ _. none) 1 (some listening);
  next = 3;
  accepts = (2, 7) ∷ [];
}

do_accept-Served_example :
    (s' : Server) × (do_accept windows 1 2 running ≡ ok (s', false))
    × (s'.socket_contexts 3
        ≡ some (record { socket = some 7; ip = b'1' ∷ []; port = 80; io_contexts = 4 ∷ 5 ∷ [] }))
    × (s'.sends ≡ (4, some 7, max_buffer_len) ∷ [])
    × (s'.recvs ≡ (5, some 7) ∷ [])
    × (s'.accepts ≡ (2, 7) ∷ [])
    × (s'.associated ≡ [])
do_accept-Served_example =
    do_accept-Served windows 1 2 7 accepting running refl (omega arith) (omega arith) refl refl refl

running-Running : Running 1 5 (true ∷ true ∷ []) listening running
running-Running = record {
  listens = refl;
  l_set = omega arith;
  at_l = refl;
  socket = refl;
  owned = (omega arith, (accepting, refl), refl, tt);
  array = refl;
  count = refl;
}

comes_back : wait_comes_back windows running ≡ true
unfolding wait_comes_back
comes_back = refl

stop-Released_example :
    (s' : Server) × (stop windows running ≡ ok s')
    × (s'.shutdown_event ≡ none)
    × (s'.completion_port ≡ false)
    × (s'.worker_threads ≡ none)
    × (s'.trace
        ≡ set_event
          ∷ post_exit
          ∷ post_exit
          ∷ wait_threads
          ∷ close_event
          ∷ close_thread 0
          ∷ close_thread 1
          ∷ close_port
          ∷ [])
    × (s'.closed ≡ 7 ∷ 5 ∷ [])
    × (s'.socket_contexts ≡ update running.socket_contexts 1 none)
    × ((x : ℕ) → s'.io_contexts x ≡ (if contains x (2 ∷ []) then none else running.io_contexts x))
    × (stop windows s' ≡ ok s')
stop-Released_example =
    stop-Released windows 1 5 (true ∷ true ∷ []) false listening running running-Running refl refl
      comes_back

-- The accept at 2 completes.
abbrev packets : List Packet
packets = record { returned = true; error = 0; bytes = 1; key = 1; overlapped = 2 } ∷ []

running-Armed : Armed running
running-Armed x = ground arith

worker_thread-Kept_example : After (Kept running) (worker_thread windows packets running)
worker_thread-Kept_example = worker_thread-Kept windows packets running running-Armed

abbrev the_server : Outcome (Server × Bool) → Server
the_server (ok r) = r.0
the_server (fault e) = new_server

abbrev after : Outcome Server → Server
after (ok s) = s
after (fault e) = new_server

-- The server that `Start` makes there, and what the packets of its first client make of it.
abbrev started : Server
started = the_server (start windows new_server)

start-started : start windows new_server ≡ ok (started, true)
unfolding start initialize_iocp create_threads initialize_listen_socket open_listening post_accepts
    post_accept call_accept_ex get_new_io_context make_socket_context deref
start-started = refl

abbrev served : Server
served = after (worker_thread windows packets started)

worker_thread-served : worker_thread windows packets started ≡ ok served
unfolding start initialize_iocp create_threads initialize_listen_socket open_listening post_accepts
    post_accept call_accept_ex get_new_io_context make_socket_context deref worker_thread handle
    dispatch do_accept greet receive_first post_recv
worker_thread-served = refl

start-worker_thread_example : length served.accepts ≡ 10
start-worker_thread_example =
    start-worker_thread windows packets started served start-started worker_thread-served
