-- ===== src/Server/Lifecycle.antt =====
-- src/socket/server/TcpServerSocket.cpp: how a server is made, started and stopped.
use eventplus.Prelude.{
  ◌+◌, ℤ, Bool, true, false, List, [], ◌∷◌, Option, none, some, Result, ok, ◌>>=◌, minus_one,
  int_eq, if◌then◌else◌, length,
}
use eventplus.Common.Details.{
  Bytes, Ptr, SocketDetails, store_of_details, set_socket_handler, HandlerClass, listener,
  server_socket, io_worker, server_removal, EventStore,
}
use eventplus.Common.Text.{to_string}
use eventplus.Common.Os.{Os}
use eventplus.Common.Handler.{BaseSocketHandler}
use eventplus.Common.Handler
use eventplus.TcpHandler.{is_negative}
use eventplus.SocketHandler.{is_socket_closed, create_server_socket}
use eventplus.ThreadPool.{handle_call_back_event}
use eventplus.NetworkEvent.SocketEventHandler
use eventplus.NetworkEvent.SocketEventHandler.{SocketEventHandler, Leftover}
use eventplus.NetworkEvent.EventScheduler
use eventplus.IoWorker.{create_io_worker, set_task_function}
use eventplus.Server.State.{Server, delete, deref, write}

-- What the memory of a new server holds in the fields that no constructor sets.
pub record Unset : Type 0 where
  pub server_socket_id : ℤ
  pub socket_details : SocketDetails
  pub socket_operation_handler : Option HandlerClass
  pub event_receiver : Bool
  pub listener : Leftover

unfoldable pub delete_all : List (ℤ × Ptr) → (Ptr → Option EventStore) → Ptr → Option EventStore
delete_all [] cell = cell
delete_all ((fd, p) ∷ m) cell = delete_all m (delete cell (some p))

module _ {W : Type 0} where
  unfoldable pub set_server_ip : Bytes → Server W → Server W
  set_server_ip ip s = record s { server_ip = ip }

  unfoldable pub set_server_port : ℤ → Server W → Server W
  set_server_port port s = record s { server_port = port }

  unfoldable pub set_socket_operation_handler : Option HandlerClass → Server W → Server W
  set_socket_operation_handler h s = record s { socket_operation_handler = h }

  unfoldable pub set_event_receiver : Bool → Server W → Server W
  set_event_receiver r s = record s { event_receiver = r }

  -- `startReceivingConnection`.
  unfoldable pub start_receiving_connection : Server W → Result (Server W)
  start_receiving_connection s = do
    told ← EventScheduler.set_event_dispatcher_ptr (some io_worker) s.event_scheduler
    started ← EventScheduler.start_all_event_handler told
    ok (record s { event_scheduler = started })

  -- `clientEventStores.clear()`.
  unfoldable pub clear_clients : Server W → Server W
  clear_clients s = record s {
    client_event_stores = [];
    cell = delete_all s.client_event_stores s.cell;
  }

module _ {W : Type 0} (os : Os W) where
  -- The constructor; `left` has an entry for each of the `numCoresInProcessor` event threads.
  unfoldable pub create_server : Unset → List Leftover → Bytes → ℤ → W → Result (Server W)
  create_server unset left ip port w = do
    let (own, w1) = SocketEventHandler.create_handler os unset.listener w
    let (scheduler, w2) = EventScheduler.create_scheduler os left w1
    told ← EventScheduler.set_socket_removal_handler (some server_removal) scheduler
    let worker = set_task_function (create_io_worker (length left)) handle_call_back_event
    ok (record {
      server_ip = ip;
      server_port = port;
      server_socket_id = unset.server_socket_id;
      socket_details = unset.socket_details;
      event_store = none;
      socket_event_handler = SocketEventHandler.set_event_dispatcher_ptr own (some server_socket);
      event_scheduler = told;
      client_event_stores = [];
      socket_operation_handler = unset.socket_operation_handler;
      event_receiver = unset.event_receiver;
      io_worker = worker;
      cell = λ p. none;
      next_ptr = 0;
      deliveries = [];
      world = w2;
    })

  -- The store of the listening socket is made, and an older one deleted; `addSocket` may fail.
  unfoldable pub listen_on : Option Ptr → SocketDetails → Server W → Result (Server W)
  unfolding store_of_details set_socket_handler
  listen_on uninit_ssl d s =
      let p = s.next_ptr in
      let made =
        set_socket_handler (store_of_details d none uninit_ssl) s.socket_operation_handler in
      let (added, store, w) =
        SocketEventHandler.add_socket os listener s.socket_event_handler p made s.world in
      SocketEventHandler.start_event_receiver_thread s.socket_event_handler >>= λ own.
      let s' = record s {
        event_store = some p;
        socket_details = d;
        next_ptr = p + 1;
        cell = delete s.cell s.event_store;
        socket_event_handler = own;
        world = w;
      } in
      ok (write p store s')

  -- `createServerSocketAndStartReceiving`; what `createServerSocket` throws goes through it.
  unfoldable pub create_server_socket_and_start_receiving :
      Option Ptr → Server W → Result (Bool × Server W)
  create_server_socket_and_start_receiving uninit_ssl s =
      let (made, d, w) =
        create_server_socket os s.server_ip (to_string s.server_port) s.socket_details s.world in
      made >>= λ fd.
      if is_negative fd
      then ok (false, record s { socket_details = d; world = w })
      else (listen_on uninit_ssl d (record s { world = w }) >>= λ s'. ok (true, s'))

module _ {W : Type 0} (os : Os W) (table : HandlerClass → BaseSocketHandler W) where
  unfoldable pub close_server_socket : Server W → Result (Server W)
  close_server_socket s =
      let (closed, w1) = is_socket_closed os s.server_socket_id s.world in
      let removal = do
        (p, store) ← deref s.event_store s
        let (removed, w2) = SocketEventHandler.remove_socket os s.socket_event_handler store w1
        (store', w3) ← Handler.close_connection table store w2
        ok (write p store' (record s { world = w3 }))
      in if int_eq s.server_socket_id minus_one
        then ok s
        else if closed
        then ok (record s { world = w1 })
        else removal

  -- The `for` over the clients.
  unfoldable pub close_clients : List (ℤ × Ptr) → Server W → Result (Server W)
  close_clients [] s = ok s
  close_clients ((fd, p) ∷ m) s = do
    (q, store) ← deref (some p) s
    (store', w) ← Handler.close_connection table store s.world
    close_clients m (write q store' (record s { world = w }))

  unfoldable pub close_all_client_socket : Server W → Result (Server W)
  close_all_client_socket s = close_clients s.client_event_stores s >>= λ s'. ok (clear_clients s')

  -- `stopPolling`, which is also the body of the destructor.
  unfoldable pub stop_polling : Server W → Result (Server W)
  stop_polling s = do
    s1 ← close_server_socket s
    let (own, w1) = SocketEventHandler.stop_event_thread os s1.socket_event_handler s1.world
    let (scheduler, w2) = EventScheduler.stop_all_polling_and_thread os s1.event_scheduler w1
    close_all_client_socket
        (record s1 { socket_event_handler = own; event_scheduler = scheduler; world = w2 })
