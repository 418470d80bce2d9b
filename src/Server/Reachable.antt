-- ===== src/Server/Reachable.antt =====
-- The whole of a running server of src/socket/server/TcpServerSocket.cpp as a step relation: its
-- threads, those of the scheduler and of the pool, and the world outside, in any order.
use eventplus.Prelude.{
  ℕ, ◌≡◌, subst, inl, inr, Bool, true, false, List, Option, none, some, ok, first_link, Returns,
  Option-cases, get_elem?, if◌then◌else◌,
}
use eventplus.Common.Details.{
  Ptr, Poller, EventType, blank, new_connection, closed_connection, incoming_data, HandlerClass,
}
use eventplus.Common.Os.{Os}
use eventplus.Common.Handler.{BaseSocketHandler, HandlerLaws}
use eventplus.ThreadPool
use eventplus.ThreadPool.{
  TaskFunction, IoTask, execute, Worker, testing, waiting, exited, running, worker_step,
}
use eventplus.NetworkEvent.Polling.{process_event}
use eventplus.IoWorker.{IoWorker}
use eventplus.Server.State.{Server, Delivery, deref}
use eventplus.Server.Connections.{Uninit, deliver, handle_call_back_event}
use eventplus.Server.System.{run_task, after_step, worker_turn, callbacks}
use eventplus.Server.Total.{IsWorking, Live}
use eventplus.Server.Polled.{process_event-IsWorking}

module _ {W : Type 0} where
  -- The receiver, the pool and the world outside are no part of what makes a server work.
  with_delivery :
      (told : List Delivery) (s : Server W) (b : Bool)
      → IsWorking s
      → IsWorking (if b then record s { deliveries = told } else s)
  with_delivery told s true v = record {
    owners = v.owners;
    threads = v.threads;
    handler = v.handler;
  }
  with_delivery told s false v = v

  with_pool :
      (pool : IoWorker) (s : Server W) → IsWorking s → IsWorking (record s { io_worker = pool })
  with_pool pool s v = record { owners = v.owners; threads = v.threads; handler = v.handler }

  deliver-IsWorking :
      (kind : EventType) (q : Ptr) (s : Server W) → IsWorking s → IsWorking (deliver kind q s)
  unfolding deliver
  deliver-IsWorking blank q s v = v
  deliver-IsWorking new_connection q s v = with_delivery _ s s.event_receiver v
  deliver-IsWorking closed_connection q s v = with_delivery _ s s.event_receiver v
  deliver-IsWorking incoming_data q s v = with_delivery _ s s.event_receiver v

  unchanged : (s s' : Server W) → ok s ≡ ok s' → IsWorking s → IsWorking s'
  unchanged s s' e v = let same : s ≡ s' = cc in subst IsWorking same v

  run_task-IsWorking :
      (t : Option (TaskFunction × Option Ptr)) (s s' : Server W)
      → run_task t s ≡ ok s'
      → IsWorking s
      → IsWorking s'
  unfolding run_task handle_call_back_event
  run_task-IsWorking none s s' e v = unchanged s s' e v
  run_task-IsWorking (some (ThreadPool.handle_io_event, p)) s s' e v =
      unchanged _ s' e (with_pool _ s v)
  run_task-IsWorking (some (ThreadPool.handle_call_back_event, p)) s s' e v =
      let ((q, st), read, e') = first_link (deref p s) s' e in
      unchanged _ s' e' (deliver-IsWorking st.event_type q s v)

  after_step-IsWorking :
      (w : Worker) (s s' : Server W) → after_step w s ≡ ok s' → IsWorking s → IsWorking s'
  unfolding after_step
  after_step-IsWorking testing s s' e v = unchanged s s' e v
  after_step-IsWorking waiting s s' e v = unchanged s s' e v
  after_step-IsWorking exited s s' e v = unchanged s s' e v
  after_step-IsWorking (running t) s s' e v = run_task-IsWorking (execute t) s s' e v

  pub worker_turn-IsWorking :
      (i : ℕ) (s s' : Server W) → worker_turn i s ≡ ok s' → IsWorking s → IsWorking s'
  unfolding worker_turn
  worker_turn-IsWorking i s s' e v =
      elim (Option-cases (get_elem? s.io_worker.thread_pool.workers i)) [
        | inl none_there ↦ unchanged s s' (rw (none_there, worker_turn) at e) v
        | inr (w, there) ↦
            after_step-IsWorking w _ s' (rw (there, worker_turn) at e) (with_pool _ s v)
      ]

module _ {W : Type 0} (os : Os W) (table : HandlerClass → BaseSocketHandler W)
    (uninit : Uninit) where
  -- `polls`: the thread that watches a store is told of an event for it. `works`: a thread of the
  -- pool makes a step. `passes`: time passes outside.
  pub data Step : Server W → Server W → Type 0 where
    polls :
        (who : Poller) (events : ℕ) (p : Ptr) {s s' : Server W}
        → Live p s
        → process_event (callbacks os table uninit who) (record { events = events; ptr = some p }) s
          ≡ ok s'
        → Step s s'
    works : (i : ℕ) {s s' : Server W} → worker_turn i s ≡ ok s' → Step s s'
    passes : (w : W) {s : Server W} → Step s (record s { world = w })

  pub data Reaches : Server W → Server W → Type 0 where
    stays : {s : Server W} → Reaches s s
    followed_by : {s t u : Server W} → Reaches s t → Step t u → Reaches s u

module _ {W : Type 0} (os : Os W) (table : HandlerClass → BaseSocketHandler W)
    (laws : (c : HandlerClass) → HandlerLaws (table c)) (uninit : Uninit) where
  Step-IsWorking : {s s' : Server W} → Step os table uninit s s' → IsWorking s → IsWorking s'
  Step-IsWorking {s} {s'} (polls who events p live e) v =
      let good = process_event-IsWorking os table laws uninit who events p s v live in rw e at good
  Step-IsWorking {s} {s'} (works i e) v = worker_turn-IsWorking i s s' e v
  Step-IsWorking (passes w) v = record {
    owners = v.owners;
    threads = v.threads;
    handler = v.handler;
  }

  Reaches-IsWorking : {s s' : Server W} → Reaches os table uninit s s' → IsWorking s → IsWorking s'
  Reaches-IsWorking stays v = v
  Reaches-IsWorking (followed_by before step) v = Step-IsWorking step (Reaches-IsWorking before v)

  -- With handlers that keep their laws, however the threads of a working server take turns, and
  -- whatever happens outside: the server still works, and a thread that is then told of any event
  -- for a store that is there handles it without a fault.
  pub reached_server-handles :
      (s s' : Server W)
      → IsWorking s
      → Reaches os table uninit s s'
      → IsWorking s'
        × ((who : Poller) (events : ℕ) (p : Ptr)
            → Live p s'
            → Returns IsWorking (
                process_event
                  (callbacks os table uninit who)
                  (record { events = events; ptr = some p })
                  s'))
  reached_server-handles s s' v reached =
      let v' = Reaches-IsWorking reached v in
      (
        v',
        λ who events p live. process_event-IsWorking os table laws uninit who events p s' v' live,
      )
