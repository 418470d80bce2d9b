-- ===== src/Program/Main.antt =====
-- `main` of src/main.cpp, from the start of its server on, with `stopPolling` of
-- src/socket/server/TcpServerSocket.cpp call by call.
use eventplus.Prelude.{Option, Result, ok, ◌>>=◌}
use eventplus.Common.Details.{Ptr, SocketDetails, HandlerClass}
use eventplus.Common.Os.{Os}
use eventplus.Common.Ssl.{Ssl}
use eventplus.Common.Handler.{BaseSocketHandler}
use eventplus.NetworkEvent.SocketEventHandler.{stop_event_thread}
use eventplus.NetworkEvent.EventScheduler.{stop_all_polling_and_thread}
use eventplus.Server.State.{Server}
use eventplus.Server.Lifecycle.{close_server_socket, close_all_client_socket}
use eventplus.Program.{send_data_using_tls}

-- Where `main` stands: before the call of its client; before each of the four calls of
-- `stopPolling`, which no lock holds together; and past them, where it waits for ever.
pub data Phase : Type 0 where
  serving called door_closed accepting_stopped polling_stopped stopped : Phase

module _ {W : Type 0} (os : Os W) (ssl : Ssl W) (table : HandlerClass → BaseSocketHandler W) where
  -- What `main` does next. The threads of the server run all the time.
  unfoldable pub main_turn :
      SocketDetails → Option Ptr → Phase → Server W → Result (Phase × Server W)
  main_turn uninit uninit_ssl serving s =
      send_data_using_tls os ssl uninit uninit_ssl s.world >>= λ (r, w).
      ok (called, record s { world = w })
  main_turn uninit uninit_ssl called s =
      close_server_socket os table s >>= λ s'. ok (door_closed, s')
  main_turn uninit uninit_ssl door_closed s =
      let (own, w) = stop_event_thread os s.socket_event_handler s.world in
      ok (accepting_stopped, record s { socket_event_handler = own; world = w })
  main_turn uninit uninit_ssl accepting_stopped s =
      let (scheduler, w) = stop_all_polling_and_thread os s.event_scheduler s.world in
      ok (polling_stopped, record s { event_scheduler = scheduler; world = w })
  main_turn uninit uninit_ssl polling_stopped s =
      close_all_client_socket os table s >>= λ s'. ok (stopped, s')
  main_turn uninit uninit_ssl stopped s = ok (stopped, s)
