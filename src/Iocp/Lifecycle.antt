-- ===== src/Iocp/Lifecycle.antt =====
-- IOCPServer/IocpModel.cpp: the constructor, `Start`, `_InitializeIOCP`, `_InitializeListenSocket`,
-- `_DeInitialize`, `Stop` and the destructor.
use boring.Prelude.{
  ℕ, zero, suc, ◌+◌, ◌*◌, Bool, true, false, not, ◌&&◌, ◌||◌, List, [], ◌∷◌, ◌++◌, Option, none,
  some, replicate, ltb, ◌==◌, if◌then◌else◌,
}
use boring.Outcome.{
  Outcome, ok, fault, null_pointer, out_of_bounds, uninitialised, never_returns, require, or_fault,
  ◌>>=◌,
}
use boring.Iocp.{
  Windows, Action, set_event, post_exit, wait_threads, close_event, close_thread, close_port,
  Server, max_post_accept, deref, tick, put_socket,
}
use boring.Iocp.Contexts.{make_socket_context, get_new_io_context, remove_context, delete_socket}
use boring.Iocp.Posting.{post_accept}

-- The constructor does not set `m_pListenContext`.
abbrev pub new_server : Server
new_server = record {
  shutdown_event = none;
  completion_port = false;
  worker_threads = none;
  threads = 0;
  b_start = false;
  accept_fn = false;
  addresses_fn = false;
  listen_context = none;
  io_contexts = λ _. none;
  socket_contexts = λ _. none;
  next = 1;
  calls = 0;
  closed = [];
  associated = [];
  accepts = [];
  recvs = [];
  sends = [];
  trace = [];
}

-- `RELEASE_HANDLE`, of a handle that is `NULL` or not.
abbrev pub release : Bool → Action → List Action → List Action
release false a t = t
release true a t = t ++ a ∷ []

-- `RELEASE_HANDLE` of each entry of the array from the `i`-th on; an entry past its end is read out
-- of bounds.
unfoldable pub release_threads : ℕ → ℕ → Option (List Bool) → List Action → Outcome (List Action)
release_threads zero i hs t = ok t
release_threads (suc n) i none t = fault null_pointer
release_threads (suc n) i (some []) t = fault out_of_bounds
release_threads (suc n) i (some (h ∷ hs)) t =
    release_threads n (suc i) (some hs) (release h (close_thread i) t)

abbrev pub is_created : Option Bool → Bool
is_created none = false
is_created (some b) = true

unfoldable pub deinitialize : Server → Outcome Server
deinitialize s = do
  t ←
      release_threads s.threads 0 s.worker_threads
        (release (is_created s.shutdown_event) close_event s.trace)
  let s' = record s {
    shutdown_event = none;
    worker_threads = none;
    completion_port = false;
    trace = release s.completion_port close_port t;
  }
  l ← or_fault s'.listen_context uninitialised
  elim (l == 0) [
    | true ↦ ok s'
    | false ↦ do s'' ← delete_socket l s'; ok (record s'' { listen_context = some 0 })
  ]

module _ (w : Windows) where
  -- `CreateThread` for each thread.
  unfoldable pub create_threads : ℕ → Server → List Bool × Server
  create_threads zero s = ([], s)
  create_threads (suc n) s =
      let rest = create_threads n (tick s) in (w.create_thread s.calls ∷ rest.0, rest.1)

  unfoldable pub initialize_iocp : Server → Server × Bool
  initialize_iocp s =
      let n = 2 * w.processors + 2 in
      let made = create_threads n (record (tick s) { completion_port = true; threads = n }) in
      if w.create_port s.calls
      then (record made.1 { worker_threads = some made.0 }, true)
      else (record (tick s) { completion_port = false }, false)

  -- The loop that posts the accepts.
  unfoldable pub post_accepts : ℕ → ℕ → Server → Outcome (Server × Bool)
  post_accepts zero l s = ok (s, true)
  post_accepts (suc n) l s = do
    made ← get_new_io_context l s
    posted ← post_accept w made.1 made.0
    elim posted.1 [
      | true ↦ post_accepts n l posted.0
      | false ↦ do s' ← remove_context l made.1 posted.0; ok (s', false)
    ]

  -- From `bind` on.
  unfoldable pub open_listening : ℕ → Server → Outcome (Server × Bool)
  open_listening l s = elim (w.bind s.calls) [
    | false ↦ ok (tick s, false)
    | true ↦ elim (w.listen (suc s.calls)) [
      | false ↦ ok (tick (tick s), false)
      | true ↦ post_accepts max_post_accept l (record s {
        calls = s.calls + 4;
        accept_fn = w.extension (s.calls + 2);
        addresses_fn = w.extension (s.calls + 3);
      })
    ]
  ]

  unfoldable pub initialize_listen_socket : Server → Outcome (Server × Bool)
  initialize_listen_socket s = do
    let made = make_socket_context s
    let l = made.1
    let s1 = record made.0 { listen_context = some l }
    c ← deref s1.socket_contexts l
    let k = w.wsa_socket s1.calls
    let s2 = tick (put_socket l (record c { socket = k }) s1)
    elim k [
      | none ↦ ok (s2, false)
      | some fd ↦ elim (w.create_port s2.calls) [
        | false ↦ do
          s3 ← delete_socket l (tick s2)
          ok (record s3 { listen_context = some 0 }, false)
        | true ↦ open_listening l (record (tick s2) { associated = (some fd, l) ∷ s2.associated })
      ]
    ]

  unfoldable pub start : Server → Outcome (Server × Bool)
  start s =
      let s1 = record (tick s) {
        shutdown_event = (if w.create_event s.calls then some false else none);
      } in
      let ported = initialize_iocp s1 in
      elim ported.1 [
        | false ↦ ok (ported.0, false)
        | true ↦ do
          listening ← initialize_listen_socket ported.0
          elim listening.1 [
            | false ↦ do s' ← deinitialize listening.0; ok (s', false)
            | true ↦ ok (record listening.0 { b_start = true }, true)
          ]
      ]

abbrev pub all_created : List Bool → Bool
all_created [] = true
all_created (h ∷ hs) = h && all_created hs

-- `WaitForMultipleObjects` comes back: at once, with an error, without an array, for no handle, for
-- more than 64 or for one that is `NULL`; else when all threads have ended.
unfoldable pub wait_comes_back : Windows → Server → Bool
wait_comes_back w s = elim s.worker_threads [
  | none ↦ true
  | some hs ↦ s.threads == 0 || ltb 64 s.threads || not (all_created hs) || w.threads_end
]

-- `SetEvent`, one exit packet a thread, and the wait.
abbrev pub signalled : Server → Server
signalled s = record s {
  shutdown_event = elim s.shutdown_event [ none ↦ none | some _ ↦ some true ];
  trace =
      release (is_created s.shutdown_event) set_event s.trace
      ++ replicate s.threads post_exit
      ++ wait_threads ∷ [];
}

unfoldable pub stop : Windows → Server → Outcome Server
unfolding wait_comes_back
stop w s = do
  l ← or_fault s.listen_context uninitialised
  elim (l == 0) [
    | true ↦ ok s
    | false ↦ do
      c ← deref s.socket_contexts l
      elim c.socket [
        | none ↦ ok s
        | some _ ↦ do _ ← require (wait_comes_back w s) never_returns; deinitialize (signalled s)
      ]
  ]

-- `~CIocpModel`.
abbrev pub destroy : Windows → Server → Outcome Server
destroy = stop
