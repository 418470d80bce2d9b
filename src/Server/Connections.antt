-- ===== src/Server/Connections.antt =====
-- The events of src/socket/server/TcpServerSocket.cpp: a client connects, a client is gone, a task
-- of the pool calls the receiver. What a mutex protects is one step.
use eventplus.Prelude.{
  ◌+◌, ℤ, pos, [], ◌∷◌, ◌++◌, Option, none, some, Result, ok, err, ◌>>=◌, dangling, if◌then◌else◌,
}
use eventplus.Common.Details.{
  Bytes, Ptr, SocketAddress, SocketDetails, EventStore, store_of_details, set_socket_handler,
  EventType, blank, new_connection, closed_connection, HandlerClass,
}
use eventplus.Common.Os.{Os}
use eventplus.Common.Handler.{BaseSocketHandler}
use eventplus.Common.Handler
use eventplus.TcpHandler.{is_negative}
use eventplus.SocketHandler.{swap_bytes, set_non_blocking}
use eventplus.NetworkEvent.SocketEventHandler
use eventplus.NetworkEvent.EventScheduler
use eventplus.IoWorker.{queue_io_event}
use eventplus.Server.State.{Server, lookup, erase, insert, delete, deref, write, poller}

-- What the memory of a new store holds: the constructors leave some of it as it was. A run of the
-- threads has one such value, any one, for all its connections.
pub record Uninit : Type 0 where
  pub details : SocketDetails
  pub ssl : Option Ptr

-- The store of a new client, before its connection is initialised.
unfoldable pub client_store : Uninit → ℤ → SocketAddress → Bytes → Option HandlerClass → EventStore
unfolding store_of_details set_socket_handler swap_bytes
client_store uninit fd address ip handler =
    let made =
      store_of_details (record uninit.details { event_source_address = address }) none uninit.ssl in
    record (set_socket_handler
      (record made {
        details = record made.details {
          socket_id = fd;
          str_client_socket_address = ip;
          event_source_port = pos (swap_bytes address.sin_port);
        };
      })
      handler) { event_type = new_connection }

module _ {W : Type 0} where
  -- `ioWorkerThreadHandler->handleIOEvent`.
  unfoldable pub queue_event : Ptr → Server W → Server W
  queue_event p s = record s { io_worker = queue_io_event s.io_worker (some p) }

  -- `clientEventStores[fd] = std::move(clientEventStore)`: a store that was there is deleted.
  unfoldable pub own_client : ℤ → Ptr → Server W → Server W
  own_client fd p s = record s {
    client_event_stores = insert fd p s.client_event_stores;
    cell = delete s.cell (lookup fd s.client_event_stores);
  }

  unfoldable pub disown_client : ℤ → Server W → Server W
  disown_client fd s = record s {
    client_event_stores = erase fd s.client_event_stores;
    cell = delete s.cell (lookup fd s.client_event_stores);
  }

  unfoldable pub deliver : EventType → Ptr → Server W → Server W
  deliver blank q s = s
  deliver kind q s =
      if s.event_receiver
      then record s { deliveries = s.deliveries ++ record { kind = kind; store = q } ∷ [] }
      else s

  -- `handleCallBackEvent`: what the pool's tasks run.
  unfoldable pub handle_call_back_event : Option Ptr → Server W → Result (Server W)
  unfolding deliver
  handle_call_back_event p s = do (q, store) ← deref p s; ok (deliver store.event_type q s)

module _ {W : Type 0} (os : Os W) (table : HandlerClass → BaseSocketHandler W) where
  -- From the store's `initConnection` on: both its result and that of `addSocket` are ignored.
  unfoldable pub register_client : ℤ → Ptr → EventStore → Server W → Result (Server W)
  register_client fd p store s = do
    (started, store1, w1) ← Handler.init_connection table store s.world
    let w2 = set_non_blocking os fd w1
    (added, scheduler, store2, w3) ← EventScheduler.add_socket os s.event_scheduler p store1 w2
    let s1 = record s { event_scheduler = scheduler; next_ptr = p + 1; world = w3 }
    ok (queue_event p (own_client fd p (write p store2 s1)))

  -- `handleIOEvent`, for the store of the listening socket.
  unfoldable pub handle_io_event : Uninit → Ptr → Server W → Result (Server W)
  handle_io_event uninit p s = do
    (q, listening) ← deref (some p) s
    let (fd, address, w1) = os.accept listening.socket_id s.world
    let (ip, w2) = os.inet_ntop address.sin_addr w1
    if is_negative fd then ok (record s { world = w1 }) else elim ip [
      | none ↦ ok (record s { world = w2 })
      | some text ↦
          register_client fd s.next_ptr
            (client_store uninit fd address text s.socket_operation_handler)
            (record s { world = w2 })
    ]

  -- `removeSocket` of the thread that watches the store, and the store's `closeConnection`.
  unfoldable pub unwatch : Ptr → EventStore → Server W → Result (Server W)
  unwatch p store s = elim store.socket_event_handler [
    | none ↦ ok s
    | some who ↦ elim (poller who s) [
      | none ↦ err dangling
      | some h ↦
          (let (removed, w1) = SocketEventHandler.remove_socket os h store s.world in
            Handler.close_connection table store w1 >>= λ (store', w2).
            ok (write p store' (record s { world = w2 })))
    ]
  ]

  unfoldable pub remove_socket : Option Ptr → Server W → Result (Server W)
  remove_socket p s = do
    (q, store) ← deref p s
    let closing = record store { event_type = closed_connection }
    s1 ← unwatch q closing (write q closing s)
    ok (disown_client store.socket_id (queue_event q s1))
