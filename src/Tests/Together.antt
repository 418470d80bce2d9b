-- ===== src/Tests/Together.antt =====
-- src/main.cpp with all its threads on the simulated system.
use eventplus.Prelude.{
  ℤ, ◌≡◌, ap, ◌∙◌, refl, [], ◌∷◌, none, some, Option, Result, ok, Returns, replicate,
  length-replicate, List,
}
use eventplus.Common.Details.{HandlerClass, listener}
use eventplus.NetworkEvent.SocketEventHandler.{
  create_handler, create_epoll, start_event_receiver_thread, set_event_dispatcher_ptr,
}
use eventplus.NetworkEvent.SocketEventHandler
use eventplus.NetworkEvent.EventScheduler
use eventplus.NetworkEvent.EventScheduler.{
  create_scheduler, create_handlers, for_handlers, start_all_event_handler,
}
use eventplus.SocketHandler.{
  create_server_socket, bind_and_listen, start_listening, set_non_blocking, server_details,
}
use eventplus.Certificate
use eventplus.Certificate.{
  set_certificate_and_key_file_name, init_certification_manager, create_certificate_context,
  load_certificate_from_file, load_certificate, load_private_key, load_file, configure_ssl_context,
  CertificateHandler,
}
use eventplus.TlsHandler
use eventplus.Common.Os.{EpollEvent}
use eventplus.Common.Handler.{BaseSocketHandler}
use eventplus.Server.State.{Server}
use eventplus.Server.Lifecycle.{
  create_server, set_socket_operation_handler, set_event_receiver, listen_on,
  create_server_socket_and_start_receiving, start_receiving_connection,
}
use eventplus.Program.{start_program, num_cores, send_data_using_tls, exchange, finish}
use eventplus.TlsClient
use eventplus.TlsClient.{
  create_tls_client, create_socket, try_addresses, open_session, session, free_session,
  free_context,
}
use eventplus.Tests.Simulated.{Wire, simulated}
use eventplus.Tests.Tls.{library}
use eventplus.Tests.Scheduler.{left}
use eventplus.Tests.Server.{unset, uninit, the-P, the-ok}
use eventplus.NetworkEvent.Turns.{at_test, polling_turn}
use eventplus.Server.Threads.{move, stays}
use eventplus.Server.Threads.Steady.{IsSteady}
use eventplus.Server.System.{callbacks}
use eventplus.Program.Together.{all_at_test, start_program-threads}
use eventplus.Tests.TcpHandler.{connection}
use eventplus.Program.Runs.{handlers}
use eventplus.Tests.Program.{reachable}

-- A client waits at the door.
abbrev at_door : List EpollEvent
at_door = record { events = 1; ptr = some 0 } ∷ []

abbrev visited : Wire
visited = record reachable { deliveries = at_door ∷ [] }

abbrev begins : Result (Option (Server Wire))
begins =
    start_program simulated library 2 (b'c' ∷ []) (b'k' ∷ []) unset (λ n. replicate n left) none
      visited

abbrev certificates : CertificateHandler
certificates = set_certificate_and_key_file_name [] [] Certificate.create_handler

abbrev table : HandlerClass → BaseSocketHandler Wire
table = handlers simulated library 9 certificates

-- Of what the call gives nothing is asked.
abbrev HasCalled : ℤ × Wire → Type 0
HasCalled r = Unit {0}

abbrev HasServer : Option (Server Wire) → Type 0
HasServer o =
    (s : Server Wire) × (o ≡ some s)
    × (s.event_store ≡ some 0)
    × (s.world.deliveries ≡ at_door ∷ [])
    × Returns HasCalled (send_data_using_tls simulated library connection.details none s.world)

begins-HasServer : Returns HasServer begins
unfolding start_program num_cores TlsHandler.load_certificate set_certificate_and_key_file_name
    init_certification_manager create_certificate_context configure_ssl_context
    load_certificate_from_file load_certificate load_private_key load_file
    Certificate.create_handler create_server set_socket_operation_handler set_event_receiver
    create_handler create_epoll create_scheduler create_handlers
    EventScheduler.set_socket_removal_handler EventScheduler.set_event_dispatcher_ptr for_handlers
    create_server_socket_and_start_receiving create_server_socket listen_on
    start_receiving_connection start_all_event_handler start_event_receiver_thread
    set_event_dispatcher_ptr SocketEventHandler.set_socket_removal_handler
    SocketEventHandler.add_socket bind_and_listen start_listening set_non_blocking server_details
    send_data_using_tls TlsClient.init create_tls_client TlsClient.connect create_socket
    try_addresses open_session exchange finish TlsClient.send_data TlsClient.receive_data session
    free_session free_context TlsClient.close
begins-HasServer = (_, refl, refl, refl, tt)

abbrev begun : Server Wire
begun = (the-P HasServer begins begins-HasServer).0

begun-begins : begins ≡ ok (some begun)
begun-begins =
    the-ok HasServer begins begins-HasServer ∙ ap ok (the-P HasServer begins begins-HasServer).1

start_program-threads_example :
    Returns
      (λ (place, s').
        IsSteady (record { server = s'; place = move (λ who. at_test) listener place }))
      (polling_turn (callbacks simulated table uninit listener) at_test begun)
start_program-threads_example =
    start_program-threads simulated library 2 (b'c' ∷ []) (b'k' ∷ []) unset (λ n. replicate n left)
      (λ n. length-replicate n left) none visited begun begun-begins 9 certificates uninit
      (all_at_test begun) stays listener
      (rw ((the-P HasServer begins begins-HasServer).3)
        ((0, refl, (the-P HasServer begins begins-HasServer).2, refl), tt))
