-- ===== src/Tests/Clients.antt =====
-- src/socket/server/TcpServerSocket.cpp on the simulated system: a client comes and goes.
use eventplus.Prelude.{
  inr, ℕ, ℤ, true, ◌↔◌, pos, ◌≡◌, refl, some, err, dangling, Returns, [], ◌∷◌, ◌++◌, ◌>>=◌,
}
use eventplus.Server.Stopping.{Stopped, stop_polling-Stopped}
use eventplus.Common.Details.{
  EventStore, Ptr, Poller, incoming_data, io_worker, server_socket, server_removal, scheduled,
  listener,
}
use eventplus.NetworkEvent.SocketEventHandler
use eventplus.NetworkEvent.SocketEventHandler.{
  create_handler, create_epoll, start_event_receiver_thread, set_event_dispatcher_ptr,
}
use eventplus.NetworkEvent.EventScheduler
use eventplus.NetworkEvent.EventScheduler.{
  create_scheduler, create_handlers, for_handlers, start_all_event_handler,
}
use eventplus.NetworkEvent.Polling.{process_event, dispatch, handle_event}
use eventplus.Server.State.{Server, Delivery, lookup, insert, erase, delete, deref, poller}
use eventplus.Server.Lifecycle.{
  stop_polling, create_server, set_socket_operation_handler, set_event_receiver, listen_on,
  create_server_socket_and_start_receiving, start_receiving_connection,
}
use eventplus.Server.System.{own_handler, mark_incoming, call_dispatcher, callbacks}
use eventplus.SocketHandler.{create_server_socket, set_non_blocking}
use eventplus.Server.Total.{IsWorking, Live}
use eventplus.Server.Polled.{process_event-IsWorking}
use eventplus.Tests.Simulated.{Wire, simulated}
use eventplus.Server.Reachable.{polls, stays, followed_by, reached_server-handles, Reaches}
use eventplus.Server.Roster.{roster}
use eventplus.Server.Trace.{after, Connected, reached_server-refines}
use eventplus.Server.Races.{task_for, tasks_of, remove_socket-dangles, process_event-conflates}
use eventplus.Server.Connections.{
  register_client, client_store, queue_event, own_client, handle_call_back_event, handle_io_event,
  remove_socket,
}
use eventplus.Common.Handler
use eventplus.TcpHandler
use eventplus.IoWorker.{queue_io_event, create_io_worker, set_task_function}
use eventplus.ThreadPool.{create_pool, enqueue_task}
use eventplus.Server.Tasks.{TasksLive}
use eventplus.Tests.Server.{
  the, the-P, the-ok, table, table-laws, uninit, started, started-IsWorking,
}

started-listens : started.event_store ≡ some 0
unfolding create_server set_socket_operation_handler set_event_receiver create_handler create_epoll
    create_scheduler create_handlers EventScheduler.set_socket_removal_handler
    EventScheduler.set_event_dispatcher_ptr for_handlers create_server_socket_and_start_receiving
    create_server_socket listen_on start_receiving_connection start_all_event_handler
    start_event_receiver_thread set_event_dispatcher_ptr
    SocketEventHandler.set_socket_removal_handler
started-listens = refl

pub connects : Returns IsWorking (
    process_event
      (callbacks simulated table uninit listener)
      (record { events = 1; ptr = some 0 })
      started)
connects =
    process_event-IsWorking simulated table table-laws uninit listener 1 0 started started-IsWorking
      (started-IsWorking.owners.listening 0 started-listens)

-- The first client has socket 11, its store is at 1, and thread 1 watches it.
abbrev pub connected : Server Wire
connected =
    the IsWorking
      (process_event (callbacks simulated table uninit listener)
        (record { events = 1; ptr = some 0 }) started)
      connects

pub connected-IsWorking : IsWorking connected
connected-IsWorking =
    the-P IsWorking
      (process_event (callbacks simulated table uninit listener)
        (record { events = 1; ptr = some 0 }) started)
      connects

pub connected-is :
    (lookup (pos 11) connected.client_event_stores ≡ some 1)
    × (connected.event_store ≡ some 0)
    × ((own_handler (scheduled 1) connected).event_dispatcher ≡ some io_worker)
    × ((own_handler (scheduled 0) connected).event_dispatcher ≡ some io_worker)
    × ((own_handler listener connected).event_dispatcher ≡ some server_socket)
    × ((own_handler (scheduled 1) connected).remove_socket_event_handler ≡ some server_removal)
    × (connected.event_scheduler.num_threads ≡ 2)
    × ((st : EventStore)
        → connected.cell 1 ≡ some st
        → st.socket_event_handler ≡ some (scheduled 1))
unfolding create_server set_socket_operation_handler set_event_receiver create_handler create_epoll
    create_scheduler create_handlers EventScheduler.set_socket_removal_handler
    EventScheduler.set_event_dispatcher_ptr for_handlers create_server_socket_and_start_receiving
    create_server_socket listen_on start_receiving_connection start_all_event_handler process_event
    handle_io_event own_handler poller start_event_receiver_thread set_event_dispatcher_ptr
    mark_incoming deref call_dispatcher register_client Handler.init_connection client_store
    TcpHandler.init_connection EventScheduler.add_socket queue_event own_client
    SocketEventHandler.set_socket_removal_handler lookup dispatch handle_event insert erase delete
    queue_io_event SocketEventHandler.add_socket set_non_blocking
connected-is = (refl, refl, refl, refl, refl, refl, refl, λ st live. cc)

-- The pool has two threads, and the task of the new client.
pub connected-TasksLive : TasksLive connected
unfolding create_server set_socket_operation_handler set_event_receiver create_handler create_epoll
    create_scheduler create_handlers EventScheduler.set_socket_removal_handler
    EventScheduler.set_event_dispatcher_ptr for_handlers create_server_socket_and_start_receiving
    create_server_socket listen_on start_receiving_connection start_all_event_handler process_event
    handle_io_event own_handler poller start_event_receiver_thread set_event_dispatcher_ptr
    mark_incoming deref call_dispatcher register_client Handler.init_connection client_store
    TcpHandler.init_connection EventScheduler.add_socket queue_event own_client
    SocketEventHandler.set_socket_removal_handler lookup dispatch handle_event insert erase delete
    queue_io_event SocketEventHandler.add_socket set_non_blocking create_io_worker set_task_function
    create_pool enqueue_task
connected-TasksLive =
    let (st, there, fd) = connected-IsWorking.owners.registered (pos 11) 1 connected-is.0 in
    (((1, refl, (st, there)), tt), (tt, (tt, tt)))

pub connected-knows : lookup (pos 11) connected.client_event_stores ≡ some 1
connected-knows = connected-is.0

abbrev first_connection : Reaches simulated table uninit started connected
first_connection = followed_by stays (
    polls listener 1 0 (started-IsWorking.owners.listening 0 started-listens)
      (the-ok IsWorking _ connects))

reached_server-refines_example :
    ((j : ℤ)
      → roster connected j ≡ after simulated table uninit first_connection (roster started) j)
    × ((j : ℤ)
        → (after simulated table uninit first_connection (roster started) j ≡ true)
          ↔ Connected j connected)
reached_server-refines_example =
    reached_server-refines simulated table table-laws uninit started connected first_connection
      started-IsWorking

-- The first client hangs up.
abbrev first_store : EventStore
first_store = (connected-IsWorking.owners.registered (pos 11) 1 connected-knows).0

reached_server-handles_example :
    IsWorking connected
    × ((who : Poller) (events : ℕ) (p : Ptr)
        → Live p connected
        → Returns IsWorking (
            process_event
              (callbacks simulated table uninit who)
              (record { events = events; ptr = some p })
              connected))
reached_server-handles_example =
    reached_server-handles simulated table table-laws uninit started connected started-IsWorking
      first_connection

remove_socket-dangles_example :
    Returns
      (λ s'.
        (tasks_of s' ≡ tasks_of connected ++ task_for connected 1 ∷ [])
        × (handle_call_back_event (some 1) s' ≡ err dangling))
      (remove_socket simulated table (some 1) connected)
remove_socket-dangles_example =
    let (st, live, fd) = connected-IsWorking.owners.registered (pos 11) 1 connected-knows in
    remove_socket-dangles simulated table table-laws 1 st connected connected-IsWorking live
      (rw fd connected-knows)

process_event-conflates_example :
    let told : Delivery = record { kind = incoming_data; store = 1 } in
    Returns
      (λ s'.
        (tasks_of s' ≡ tasks_of connected ++ task_for connected 1 ∷ [])
        × Returns
            (λ s''. s''.deliveries ≡ connected.deliveries ++ told ∷ told ∷ [])
            (handle_call_back_event (some 1) s' >>= handle_call_back_event (some 1)))
      (process_event
        (callbacks simulated table uninit (scheduled 1))
        (record { events = 1; ptr = some 1 })
        connected)
unfolding create_server set_socket_operation_handler set_event_receiver create_handler create_epoll
    create_scheduler create_handlers EventScheduler.set_socket_removal_handler
    EventScheduler.set_event_dispatcher_ptr for_handlers create_server_socket_and_start_receiving
    create_server_socket listen_on start_receiving_connection start_all_event_handler process_event
    handle_io_event own_handler poller start_event_receiver_thread set_event_dispatcher_ptr
    mark_incoming deref call_dispatcher register_client Handler.init_connection client_store
    TcpHandler.init_connection EventScheduler.add_socket queue_event own_client
    SocketEventHandler.set_socket_removal_handler lookup dispatch handle_event insert erase delete
    queue_io_event SocketEventHandler.add_socket set_non_blocking
process_event-conflates_example =
    let (st, live, fd) = connected-IsWorking.owners.registered (pos 11) 1 connected-knows in
    process_event-conflates simulated table uninit (scheduled 1) 1 1 st connected live refl refl
      refl refl

-- The field that no constructor sets happens to hold the listening socket.
abbrev pub bound : Server Wire
bound = record connected { server_socket_id = pos 10 }

pub bound-IsWorking : IsWorking bound
bound-IsWorking =
    let v = connected-IsWorking in
    record { owners = v.owners; threads = v.threads; handler = v.handler }

stop_polling-Stopped_example :
    Returns (Stopped simulated table uninit bound) (stop_polling simulated table bound)
stop_polling-Stopped_example =
    stop_polling-Stopped simulated table table-laws uninit bound bound-IsWorking
      (inr (0, connected-is.1))
