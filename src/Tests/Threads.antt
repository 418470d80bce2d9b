-- ===== src/Tests/Threads.antt =====
-- The threads of src/networkevent/SocketEventHandler.cpp and src/socket/server/TcpServerSocket.cpp
-- on the simulated system, each somewhere in its loop.
use eventplus.Prelude.{
  ℕ, zero, suc, ◌+◌, ◌<◌, ◌≡◌, refl, false, List, [], ◌∷◌, some, ok, err, dangling, pos, inr,
  Returns, arith, ne→==, get_elem?_lt, if◌then◌else◌,
}
use eventplus.Common.Details.{EventStore, Poller, listener, client_poller, scheduled, io_worker}
use eventplus.Common.Os.{EpollEvent}
use eventplus.NetworkEvent.Polling.{process_event, process_events, handle_event}
use eventplus.NetworkEvent.Turns.{at_test, in_batch, polling_turn}
use eventplus.Server.State.{Server, poller}
use eventplus.Tests.Clients.{
  connected-TasksLive, connected, connected-IsWorking, connected-knows, connected-is, bound,
  bound-IsWorking,
}
use eventplus.Server.Threads.{
  works, System, move, batch, Reaches, stays, followed_by, polls, passes, Pending,
}
use eventplus.Server.Tasks.{TasksLive, worker_turn-TasksLive}
use eventplus.Server.Threads.Calm.{calm_pool-works}
use eventplus.Server.System.{worker_turn, own_handler, callbacks}
use eventplus.Server.Eviction.{Evicted, handle_io_event-evicts}
use eventplus.Server.Connections.{handle_io_event, handle_call_back_event}
use eventplus.Server.Total.{IsWorking}
use eventplus.Server.Lifecycle.{stop_polling}
use eventplus.Server.Threads.Steady.{IsWired, IsSteady}
use eventplus.Server.Threads.Safety.{reached_threads-handle}
use eventplus.Server.Threads.Ending.{own_steps, Skips, stopped_thread-leaves}
use eventplus.Server.Threads.Shutdown.{any_hangup, stop_polling-abandons}
use eventplus.Tests.Simulated.{Wire, simulated}
use eventplus.Tests.Server.{the, the-ok, table, table-laws, uninit}

connected-IsWired : IsWired connected
connected-IsWired = record { to_door = connected-is.4; to_pool = λ i lt. pool i lt }
  where
    pool :
        (i : ℕ)
        → i < connected.event_scheduler.num_threads
        → (own_handler (scheduled i) connected).event_dispatcher ≡ some io_worker
    pool zero lt = connected-is.3
    pool (suc zero) lt = connected-is.2
    pool (suc (suc i)) lt = absurd (omega (arith, lt, connected-is.6))

-- Thread 1 has been told that the client hangs up, and has not come to it yet.
abbrev told : List EpollEvent
told = record { events = 0x2001; ptr = some 1 } ∷ []

abbrev first_store : EventStore
first_store = (connected-IsWorking.owners.registered (pos 11) 1 connected-knows).0

told-Pending : Pending (scheduled 1) told connected
told-Pending =
    let (st, live, fd) = connected-IsWorking.owners.registered (pos 11) 1 connected-knows in
    ((1, st, refl, (live, rw fd connected-knows), connected-is.7 st live, tt), tt)

abbrev busy : System Wire
busy = record { server = connected; place = move (λ who. at_test) (scheduled 1) (in_batch told) }

busy-IsSteady : IsSteady busy
busy-IsSteady = record {
  working = connected-IsWorking;
  wired = connected-IsWired;
  pending = λ who. all who;
}
  where
    all : (who : Poller) → Pending who (batch (busy.place who)) connected
    all listener = tt
    all client_poller = tt
    all (scheduled zero) = tt
    all (scheduled (suc zero)) = told-Pending
    all (scheduled (suc (suc i))) = rw (ne→== 1 (suc (suc i)) (λ e. omega (arith, e))) tt

reached_threads-handle_example :
    Returns
      (λ (place, s').
        IsSteady (record { server = s'; place = move busy.place (scheduled 1) place }))
      (polling_turn (callbacks simulated table uninit (scheduled 1)) (in_batch told) connected)
reached_threads-handle_example =
    reached_threads-handle simulated table table-laws uninit busy busy busy-IsSteady
      (followed_by stays (passes connected.world busy)) (scheduled 1) tt

-- The accepting thread is told to stop while a client waits at the door.
abbrev at_door : List EpollEvent
at_door = record { events = 1; ptr = some 0 } ∷ []

abbrev halted : Server Wire
halted = record connected {
  socket_event_handler = record connected.socket_event_handler { continue_polling = false };
}

abbrev halting : System Wire
halting = record { server = halted; place = move (λ who. at_test) listener (in_batch at_door) }

halting-IsSteady : IsSteady halting
unfolding own_handler poller
halting-IsSteady = record {
  working =
      let v = connected-IsWorking in
      record { owners = v.owners; threads = v.threads; handler = v.handler };
  wired = record {
    to_door = connected-is.4;
    to_pool = λ i lt.
        let (h, there) =
          get_elem?_lt connected.event_scheduler.socket_event_handlers i
            (omega (arith, connected-IsWorking.threads.counted, lt)) in
        let linked = rw (there, own_handler, poller) at (connected-IsWired.to_pool i lt) in
        rw (there, own_handler, poller) linked;
  };
  pending = λ who. all who;
}
  where
    all : (who : Poller) → Pending who (batch (halting.place who)) halted
    all listener = ((0, refl, connected-is.1, refl), tt)
    all client_poller = tt
    all (scheduled i) = tt

halting-off : (own_handler listener halted).continue_polling ≡ false
unfolding own_handler poller
halting-off = refl

-- The thread skips the event.
abbrev skipped : System Wire
skipped = record { server = halted; place = move halting.place listener (in_batch []) }

one_turn :
    polling_turn (callbacks simulated table uninit listener) (in_batch at_door) halted
    ≡ ok (in_batch [], halted)
unfolding polling_turn process_event handle_event own_handler poller
one_turn = refl

abbrev one_step : Reaches simulated table uninit halting skipped
one_step = followed_by stays (polls listener halting tt (λ p st there live q known i. tt) one_turn)

stopped_thread-leaves_example :
    (own_steps simulated table uninit listener one_step + 2 ≡ 3)
    × Skips simulated table uninit listener (skipped.place listener) halted
stopped_thread-leaves_example =
    stopped_thread-leaves simulated table table-laws uninit listener halting skipped one_step
      halting-IsSteady halting-off

stop_polling-abandons_example :
    Returns
      (λ s'.
        process_events (callbacks simulated table uninit (scheduled 1)) told s'
        ≡ (if any_hangup told then err dangling else ok s'))
      (stop_polling simulated table bound)
unfolding own_handler poller
stop_polling-abandons_example =
    stop_polling-abandons simulated table table-laws uninit 1 told bound bound-IsWorking
      (inr (0, connected-is.1)) (omega (arith, connected-is.6)) connected-is.5 told-Pending

-- The descriptor of the first client is free again, although the client is still in the map.
abbrev reused : Server Wire
reused = record connected { world = record connected.world { next_fd = 11 } }

reused-IsWorking : IsWorking reused
reused-IsWorking =
    let v = connected-IsWorking in
    record { owners = v.owners; threads = v.threads; handler = v.handler }

handle_io_event-evicts_example :
    Returns
      (λ s'.
        IsWorking s'
        × Evicted simulated table (pos 11) 1 reused s'
        × (handle_call_back_event (some 1) s' ≡ err dangling))
      (handle_io_event simulated table uninit 0 reused)
handle_io_event-evicts_example =
    let (st, live) = connected-IsWorking.owners.listening 0 connected-is.1 in
    handle_io_event-evicts simulated table table-laws uninit 0 1 st reused (49 ∷ [])
      reused-IsWorking live refl refl connected-knows

-- A thread of the pool makes a step.
abbrev turned : Server Wire
turned =
    the TasksLive (worker_turn 0 connected) (worker_turn-TasksLive 0 connected connected-TasksLive)

abbrev pool_step : Reaches simulated table uninit busy (record busy { server = turned })
pool_step = followed_by stays (
    works 0 busy (
      the-ok TasksLive (worker_turn 0 connected)
        (worker_turn-TasksLive 0 connected connected-TasksLive)))

calm_pool-works_example : Returns TasksLive (worker_turn 1 turned)
calm_pool-works_example =
    calm_pool-works simulated table uninit busy (record busy { server = turned }) pool_step
      connected-TasksLive (tt, tt) 1
