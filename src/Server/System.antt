-- ===== src/Server/System.antt =====
-- The threads of a running server: the polling loop of src/networkevent/SocketEventHandler.cpp on
-- the server of src/socket/server/TcpServerSocket.cpp, and the pool's threads of
-- src/threadpool/ThreadPool.cpp with the tasks they run.
use eventplus.Prelude.{ℕ, Option, none, some, Result, ok, ◌>>=◌, get_elem?, set}
use eventplus.Common.Details.{
  Ptr, incoming_data, HandlerClass, Poller, listener, Dispatcher, server_socket, io_worker,
  tcp_client, tls_client_socket, RemovalHandler, server_removal,
}
use eventplus.Common.Os.{Os}
use eventplus.Common.Handler.{BaseSocketHandler}
use eventplus.ThreadPool.{TaskFunction, IoTask, execute, Worker, running, ThreadPool, worker_step}
use eventplus.ThreadPool
use eventplus.NetworkEvent.SocketEventHandler.{SocketEventHandler, max_events}
use eventplus.NetworkEvent.Polling.{Callbacks, start_polling}
use eventplus.IoWorker.{queue_io_event}
use eventplus.Server.State.{Server, deref, write, poller}
use eventplus.Server.Connections.{
  Uninit, queue_event, handle_call_back_event, handle_io_event, remove_socket,
}

module _ {W : Type 0} where
  -- `eventStorePointer->m_eventType = EventTypeIncomingData`.
  unfoldable pub mark_incoming : Ptr → Server W → Result (Server W)
  mark_incoming p s = do
    (q, store) ← deref (some p) s
    ok (write q (record store { event_type = incoming_data }) s)

  -- The object that polls.
  unfoldable pub own_handler : Poller → Server W → SocketEventHandler
  own_handler who s = elim (poller who s) [ none ↦ s.socket_event_handler | some h ↦ h ]

  -- `task.execute()`.
  unfoldable pub run_task : Option (TaskFunction × Option Ptr) → Server W → Result (Server W)
  run_task none s = ok s
  run_task (some (ThreadPool.handle_io_event, p)) s =
      ok (record s { io_worker = queue_io_event s.io_worker p })
  run_task (some (ThreadPool.handle_call_back_event, p)) s = handle_call_back_event p s

  unfoldable pub after_step : Worker → Server W → Result (Server W)
  after_step (running t) s = run_task (execute t) s
  after_step w s = ok s

  -- One step of thread `i` of the pool; the step out of `running` is the run of the task.
  unfoldable pub worker_turn : ℕ → Server W → Result (Server W)
  unfolding after_step run_task execute worker_step
  worker_turn i s =
      let pool = s.io_worker.thread_pool in
      elim (get_elem? pool.workers i) [
        | none ↦ ok s
        | some w ↦
            let (w', tasks') = worker_step pool.stop pool.tasks w in
            let pool' = record pool { workers = set pool.workers i w'; tasks = tasks' } in
            after_step w (record s { io_worker = record s.io_worker { thread_pool = pool' } })
      ]

module _ {W : Type 0} (os : Os W) (table : HandlerClass → BaseSocketHandler W)
    (uninit : Uninit) where
  -- The virtual `handleIOEvent`; the client classes are not part of the server.
  unfoldable pub call_dispatcher : Dispatcher → Ptr → Server W → Result (Server W)
  call_dispatcher server_socket p s = handle_io_event os table uninit p s
  call_dispatcher io_worker p s = ok (queue_event p s)
  call_dispatcher tcp_client p s = ok s
  call_dispatcher tls_client_socket p s = ok s

  unfoldable pub call_removal : RemovalHandler → Option Ptr → Server W → Result (Server W)
  call_removal server_removal p s = remove_socket os table p s

  -- What the loop of a thread calls, and its `epoll_wait`.
  abbrev pub callbacks : Poller → Callbacks (Server W)
  callbacks who = record {
    self = own_handler who;
    wait = λ s.
        let fd = (own_handler who s).epoll_file_descriptor in
        let (count, events, w) = os.epoll_wait fd max_events 500 s.world in
        (count, events, record s { world = w });
    mark_incoming = mark_incoming;
    handle_io_event = call_dispatcher;
    remove_socket = call_removal;
  }

  -- `startReceivingEvent`, which an event thread runs, and `socketAcceptThread`.
  unfoldable pub start_receiving_event : Poller → ℕ → Server W → Result (Server W)
  start_receiving_event who fuel s = start_polling (callbacks who) fuel s

  unfoldable pub socket_accept_thread : ℕ → Server W → Result (Server W)
  socket_accept_thread fuel s = start_polling (callbacks listener) fuel s
