-- ===== src/Tests/Server.antt =====
-- src/socket/server/TcpServerSocket.cpp on the simulated system: a server is made and started, and
-- a client comes and goes.
use eventplus.Prelude.{
  pos, ◌≡◌, refl, arith, true, false, List, [], ◌∷◌, minus_one, none, some, Result, ok, Bool, inl,
  inr, err, Returns,
}
use eventplus.Common.Details.{HandlerClass, tcp_server}
use eventplus.Common.Handler.{BaseSocketHandler, HandlerLaws}
use eventplus.TcpHandler.{tcp_server_handler}
use eventplus.TcpHandler.Laws.{tcp_server_handler-HandlerLaws}
use eventplus.Server.State.{Server}
use eventplus.Server.Connections.{Uninit}
use eventplus.Server.Lifecycle.{
  Unset, create_server, set_socket_operation_handler, set_event_receiver,
  create_server_socket_and_start_receiving, start_receiving_connection, listen_on,
}
use eventplus.Server.Boot.{
  create_server-IsWorking, create_server_socket_and_start_receiving-Started,
  start_receiving_connection-IsWorking, IsIdle,
}
use eventplus.Server.Total.{IsWorking}
use eventplus.Tests.Simulated.{Wire, simulated, quiet_wire}
use eventplus.Tests.TcpHandler.{connection}
use eventplus.NetworkEvent.SocketEventHandler.{
  Leftover, create_handler, create_epoll, start_event_receiver_thread, set_socket_removal_handler,
  set_event_dispatcher_ptr,
}
use eventplus.NetworkEvent.EventScheduler
use eventplus.NetworkEvent.EventScheduler.{create_scheduler, create_handlers, for_handlers}
use eventplus.NetworkEvent.EventScheduler.Loops.{AllIdle}
use eventplus.SocketHandler.{create_server_socket}
use eventplus.Tests.Scheduler.{left}

abbrev pub table : HandlerClass → BaseSocketHandler Wire
table c = tcp_server_handler simulated 9 0

pub table-laws : (c : HandlerClass) → HandlerLaws (table c)
table-laws c = tcp_server_handler-HandlerLaws simulated 9 0

abbrev pub unset : Unset
unset = record {
  server_socket_id = minus_one;
  socket_details = connection.details;
  socket_operation_handler = none;
  event_receiver = false;
  listener = left;
}

abbrev pub uninit : Uninit
uninit = record { details = connection.details; ssl = none }

abbrev lefts : List Leftover
lefts = left ∷ left ∷ []

abbrev IsReadyFor : Server Wire → Type 0
IsReadyFor s = IsWorking (set_socket_operation_handler (some tcp_server) s) × IsIdle s

-- A result that is known to be one.
abbrev pub the : {A : Type 0} (P : A → Type 0) (m : Result A) → Returns P m → A
the P (ok a) h = a
the P (err e) h = absurd h

pub the-P : {A : Type 0} (P : A → Type 0) (m : Result A) (h : Returns P m) → P (the P m h)
the-P P (ok a) h = h
the-P P (err e) h = absurd h

pub the-ok : {A : Type 0} (P : A → Type 0) (m : Result A) (h : Returns P m) → m ≡ ok (the P m h)
the-ok P (ok a) h = refl
the-ok P (err e) h = absurd h

pub create_server-Returns :
    Returns IsReadyFor (create_server simulated unset lefts [] (pos 80) (quiet_wire [] []))
create_server-Returns =
    create_server-IsWorking simulated unset lefts [] (pos 80) (quiet_wire [] []) tcp_server
      (omega arith)

abbrev made : Server Wire
made =
    set_event_receiver true
      (set_socket_operation_handler (some tcp_server) (the IsReadyFor _ create_server-Returns))

made-IsWorking : IsWorking made
unfolding set_event_receiver
made-IsWorking =
    let (v, idle) = the-P IsReadyFor _ create_server-Returns in
    record { owners = v.owners; threads = v.threads; handler = v.handler }

made-idle : made.socket_event_handler.started ≡ false
unfolding set_event_receiver set_socket_operation_handler
made-idle = let (v, (own, idle)) = the-P IsReadyFor _ create_server-Returns in own

abbrev listening : Result (Bool × Server Wire)
listening = create_server_socket_and_start_receiving simulated none made

pub listening-IsWorking : Returns (λ r. IsWorking r.1) listening
unfolding create_server set_socket_operation_handler set_event_receiver create_handler create_epoll
    create_scheduler create_handlers EventScheduler.set_socket_removal_handler for_handlers
    create_server_socket_and_start_receiving create_server_socket listen_on
    start_event_receiver_thread set_event_dispatcher_ptr
listening-IsWorking =
    elim (create_server_socket_and_start_receiving-Started simulated none made made-IsWorking) [
      | inl h ↦ h
      | inr (inl e) ↦ cc
      | inr (inr (again, e)) ↦ absurd (cc (again, made-idle))
    ]

abbrev asked : Server Wire
asked = (the (λ r. IsWorking r.1) listening listening-IsWorking).1

asked-IsWorking : IsWorking asked
asked-IsWorking = the-P (λ r. IsWorking r.1) listening listening-IsWorking

asked-AllIdle : AllIdle asked.event_scheduler.socket_event_handlers
unfolding create_server set_socket_operation_handler set_event_receiver create_handler create_epoll
    create_scheduler create_handlers EventScheduler.set_socket_removal_handler for_handlers
    create_server_socket_and_start_receiving create_server_socket listen_on
    start_event_receiver_thread set_socket_removal_handler set_event_dispatcher_ptr
asked-AllIdle = (refl, (refl, tt))

abbrev StartedFrom : Server Wire → Server Wire → Type 0
StartedFrom s s' = IsWorking s' × (s'.socket_event_handler ≡ s.socket_event_handler)

pub start_receiving_connection-Returns :
    Returns (StartedFrom asked) (start_receiving_connection asked)
start_receiving_connection-Returns =
    start_receiving_connection-IsWorking simulated asked asked-IsWorking asked-AllIdle

-- The server runs, and its listening socket's store is at 0.
abbrev pub started : Server Wire
started =
    the (StartedFrom asked) (start_receiving_connection asked) start_receiving_connection-Returns

pub started-IsWorking : IsWorking started
started-IsWorking =
    (the-P (StartedFrom asked) (start_receiving_connection asked)
      start_receiving_connection-Returns).0
