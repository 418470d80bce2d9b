-- ===== src/Server/PoolTurn.antt =====
-- What a turn of a thread of the pool, of src/threadpool/ThreadPool.cpp, leaves alone in the server
-- of src/socket/server/TcpServerSocket.cpp: all but the pool and the calls of the receiver.
use eventplus.Prelude.{
  ℕ, ◌≡◌, refl, inl, inr, List, if◌then◌else◌, Bool, true, false, Option, none, some, ok,
  first_link, Option-cases, get_elem?, subst,
}
use eventplus.Common.Details.{
  Ptr, EventType, blank, new_connection, closed_connection, incoming_data,
}
use eventplus.ThreadPool.{Worker, testing, waiting, exited, running, execute, TaskFunction}
use eventplus.ThreadPool
use eventplus.Server.State.{Server, Delivery, deref}
use eventplus.Server.Connections.{handle_call_back_event, deliver}
use eventplus.Server.System.{run_task, after_step, worker_turn}
use eventplus.Server.Refinement.{same_server}

module _ {W : Type 0} where
  abbrev pub PoolOnly : Server W → Server W → Type 0
  PoolOnly s s' =
      (s'.socket_event_handler ≡ s.socket_event_handler)
      × (s'.event_scheduler ≡ s.event_scheduler)
      × (s'.event_store ≡ s.event_store)
      × (s'.client_event_stores ≡ s.client_event_stores)
      × (s'.cell ≡ s.cell)

  of_server : (s s' t : Server W) → ok t ≡ ok s' → PoolOnly s t → PoolOnly s s'
  of_server s s' t e same = subst (PoolOnly s) (same_server t s' e) same

  told :
      (s : Server W) (calls : List Delivery) (b : Bool)
      → PoolOnly s (if b then record s { deliveries = calls } else s)
  told s calls true = (refl, refl, refl, refl, refl)
  told s calls false = (refl, refl, refl, refl, refl)

  deliver-PoolOnly : (kind : EventType) (q : Ptr) (s : Server W) → PoolOnly s (deliver kind q s)
  unfolding deliver
  deliver-PoolOnly blank q s = (refl, refl, refl, refl, refl)
  deliver-PoolOnly new_connection q s = told s _ s.event_receiver
  deliver-PoolOnly closed_connection q s = told s _ s.event_receiver
  deliver-PoolOnly incoming_data q s = told s _ s.event_receiver

  run_task-PoolOnly :
      (t : Option (TaskFunction × Option Ptr)) (s s' : Server W)
      → run_task t s ≡ ok s'
      → PoolOnly s s'
  unfolding run_task handle_call_back_event
  run_task-PoolOnly none s s' e = of_server s s' _ e (refl, refl, refl, refl, refl)
  run_task-PoolOnly (some (ThreadPool.handle_io_event, p)) s s' e =
      of_server s s' _ e (refl, refl, refl, refl, refl)
  run_task-PoolOnly (some (ThreadPool.handle_call_back_event, p)) s s' e =
      let ((q, st), read, e') = first_link (deref p s) s' e in
      of_server s s' _ e' (deliver-PoolOnly st.event_type q s)

  after_step-PoolOnly : (w : Worker) (s s' : Server W) → after_step w s ≡ ok s' → PoolOnly s s'
  unfolding after_step
  after_step-PoolOnly testing s s' e = of_server s s' _ e (refl, refl, refl, refl, refl)
  after_step-PoolOnly waiting s s' e = of_server s s' _ e (refl, refl, refl, refl, refl)
  after_step-PoolOnly exited s s' e = of_server s s' _ e (refl, refl, refl, refl, refl)
  after_step-PoolOnly (running t) s s' e = run_task-PoolOnly (execute t) s s' e

  pub worker_turn-PoolOnly : (i : ℕ) (s s' : Server W) → worker_turn i s ≡ ok s' → PoolOnly s s'
  unfolding worker_turn
  worker_turn-PoolOnly i s s' e =
      elim (Option-cases (get_elem? s.io_worker.thread_pool.workers i)) [
        | inl none_there ↦
            of_server s s' _ (rw (none_there, worker_turn) at e) (refl, refl, refl, refl, refl)
        | inr (w, there) ↦ after_step-PoolOnly w _ s' (rw (there, worker_turn) at e)
      ]
