-- ===== src/TcpClient.antt =====
-- src/socket/client/TcpClientSocket.{h,cpp}: a client with one connection and one epoll thread.
pub mod Opening
pub mod Closing
use eventplus.Prelude.{
  ℕ, ◌+◌, ℤ, pos, Bool, true, false, List, [], ◌∷◌, Option, none, some, Result, ok, err, ◌>>=◌,
  dangling, null_pointer, if◌then◌else◌,
}
use eventplus.Common.Details.{
  Bytes, Ptr, SocketDetails, EventStore, default_store, store_of_details, HandlerClass,
  client_poller, Dispatcher, server_socket, io_worker, tcp_client, tls_client_socket, incoming_data,
}
use eventplus.Common.Text.{to_string}
use eventplus.Common.Os.{Os}
use eventplus.Common.Handler.{BaseSocketHandler}
use eventplus.Common.Handler
use eventplus.TcpHandler.{is_negative}
use eventplus.SocketHandler.{create_client_socket}
use eventplus.NetworkEvent.SocketEventHandler
use eventplus.NetworkEvent.SocketEventHandler.{SocketEventHandler, Leftover, max_events}
use eventplus.NetworkEvent.Polling.{Callbacks, start_polling}
use eventplus.Server.State.{update, delete}

-- `client_socket` and `socket_event_handler` are unique pointers; the epoll instance keeps the
-- address of the store too, so that stores live in a memory.
pub record TcpClient (W : Type 0) : Type 0 where
  pub server_ip : Bytes
  pub server_port : ℤ
  pub socket_details : SocketDetails
  pub client_socket : Option Ptr
  pub socket_event_handler : Option SocketEventHandler
  pub cell : Ptr → Option EventStore
  pub next_ptr : Ptr
  pub world : W

-- "test data 1 2 3 45"
abbrev pub test_data : Bytes
test_data =
    b't' ∷ b'e' ∷ b's' ∷ b't' ∷ b' ' ∷ b'd' ∷ b'a' ∷ b't' ∷ b'a' ∷ b' ' ∷ b'1' ∷ b' ' ∷ b'2' ∷ b' '
    ∷ b'3' ∷ b' ' ∷ b'4' ∷ b'5' ∷ []

module _ {W : Type 0} where
  unfoldable pub create_tcp_client : SocketDetails → Option Ptr → Bytes → ℤ → W → TcpClient W
  unfolding default_store
  create_tcp_client uninit uninit_ssl ip port w = record {
    server_ip = ip;
    server_port = port;
    socket_details = uninit;
    client_socket = some 0;
    socket_event_handler = none;
    cell = update (λ p. none) 0 (some (default_store uninit uninit_ssl));
    next_ptr = 1;
    world = w;
  }

  unfoldable pub set_server_ip : Bytes → TcpClient W → TcpClient W
  set_server_ip ip c = record c { server_ip = ip }

module _ {W : Type 0} (os : Os W) where
  unfoldable pub event_thread : Leftover → TcpClient W → SocketEventHandler × W
  event_thread left c = elim c.socket_event_handler [
    | none ↦ SocketEventHandler.create_handler os left c.world
    | some h ↦ (h, c.world)
  ]

  -- From the assignment of the new socket on; the result of `addSocket` is ignored.
  unfoldable pub watch : Leftover → Option Ptr → ℤ → TcpClient W → Result (TcpClient W)
  unfolding store_of_details
  watch left uninit_ssl fd c =
      let d = record c.socket_details { socket_id = fd } in
      let (h, w1) = event_thread left c in
      let (added, store, w2) =
        SocketEventHandler.add_socket os client_poller h c.next_ptr
          (store_of_details d none uninit_ssl) w1 in
      SocketEventHandler.start_event_receiver_thread h >>= λ running. ok (record c {
        socket_details = d;
        client_socket = some c.next_ptr;
        socket_event_handler = some running;
        cell = update (delete c.cell c.client_socket) c.next_ptr (some store);
        next_ptr = c.next_ptr + 1;
        world = w2;
      })

  -- A successful call ends without a `return`: it has no value.
  unfoldable pub create_client_socket_and_start_receiving :
      Leftover → Option Ptr → TcpClient W → Result (Option Bool × TcpClient W)
  create_client_socket_and_start_receiving left uninit_ssl c =
      let (fd, w) = create_client_socket os c.server_ip (to_string c.server_port) c.world in
      if is_negative fd
      then ok (some false, record c { world = w })
      else (watch left uninit_ssl fd (record c { world = w }) >>= λ c'. ok (none, c'))

  unfoldable pub send_data : TcpClient W → Bool × TcpClient W
  send_data c =
      let (sent, w) = os.send c.socket_details.socket_id test_data c.world in
      (if is_negative sent then false else true, record c { world = w })

  unfoldable pub close_socket : TcpClient W → Result (Bool × TcpClient W)
  close_socket c = elim c.socket_event_handler [
    | none ↦ err null_pointer
    | some h ↦ ok (
      true,
      record c {
        socket_event_handler = some (SocketEventHandler.stop_polling h);
        world = (os.close c.socket_details.socket_id c.world).1;
      },
    )
  ]

module _ {W : Type 0} (table : HandlerClass → BaseSocketHandler W) where
  -- The text that it prints.
  unfoldable pub handle_io_event : Ptr → TcpClient W → Result (Bytes × TcpClient W)
  handle_io_event p c = elim (c.cell p) [
    | none ↦ err dangling
    | some store ↦
        (Handler.receive_data table store [] c.world >>= λ (n, text, w).
        ok (text, record c { world = w }))
  ]

abbrev pub client_handler : SocketEventHandler → Option SocketEventHandler → SocketEventHandler
client_handler made none = made
client_handler made (some h) = h

module _ {W : Type 0} (os : Os W) (table : HandlerClass → BaseSocketHandler W) where
  -- The client is its thread's dispatcher, if it has one. No other object is part of the model
  -- here.
  abbrev client_dispatch : Dispatcher → Ptr → TcpClient W → Result (TcpClient W)
  client_dispatch tcp_client p c = handle_io_event table p c >>= λ (text, c'). ok c'
  client_dispatch server_socket p c = ok c
  client_dispatch io_worker p c = ok c
  client_dispatch tls_client_socket p c = ok c

  -- `eventStorePointer->m_eventType = EventTypeIncomingData`.
  abbrev mark_store : Ptr → TcpClient W → Result (TcpClient W)
  mark_store p c = elim (c.cell p) [
    | none ↦ err dangling
    | some store ↦
        ok
          (record c { cell = update c.cell p (some (record store { event_type = incoming_data })) })
  ]

  -- Nothing sets the removal handler of the client's thread: if what the memory held is not null, the
  -- call of it is undefined.
  abbrev pub client_callbacks : SocketEventHandler → Callbacks (TcpClient W)
  client_callbacks made = record {
    self = λ c. client_handler made c.socket_event_handler;
    wait = λ c.
        let (count, events, w) = os.epoll_wait made.epoll_file_descriptor max_events 500 c.world in
        (count, events, record c { world = w });
    mark_incoming = mark_store;
    handle_io_event = client_dispatch;
    remove_socket = λ r p c. err dangling;
  }

  unfoldable pub socket_accept_thread : ℕ → TcpClient W → Result (TcpClient W)
  socket_accept_thread fuel c = elim c.socket_event_handler [
    | none ↦ err null_pointer
    | some h ↦ start_polling (client_callbacks h) fuel c
  ]
