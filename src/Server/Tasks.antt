-- ===== src/Server/Tasks.antt =====
-- The tasks of the pool of src/threadpool/ThreadPool.cpp, as the server of
-- src/socket/server/TcpServerSocket.cpp queues them: while the stores that they name are there, no
-- thread of the pool faults.
pub mod Events
use eventplus.Prelude.{
  ℕ, zero, suc, ◌≡◌, refl, inl, inr, Bool, true, false, List, [], ◌∷◌, ◌++◌, Option, none, some,
  Returns, Option-cases, get_elem?, set, if◌then◌else◌,
}
use eventplus.Common.Details.{
  Ptr, EventType, blank, new_connection, closed_connection, incoming_data,
}
use eventplus.ThreadPool.{
  TaskFunction, IoTask, execute, enqueue_task, Worker, testing, waiting, exited, running,
  ThreadPool, worker_step,
}
use eventplus.ThreadPool
use eventplus.IoWorker.{queue_io_event}
use eventplus.Server.State.{Server, Delivery, deref}
use eventplus.Server.Connections.{deliver, handle_call_back_event}
use eventplus.Server.System.{run_task, after_step, worker_turn}
use eventplus.Server.Total.{Live}

-- The task names a store that `Q` holds of.
abbrev pub IsFor : (Ptr → Type 0) → IoTask → Type 0
IsFor Q t = (p : Ptr) × (t.event_store_pointer ≡ some p) × Q p

abbrev pub AllFor : (Ptr → Type 0) → List IoTask → Type 0
AllFor Q [] = Unit {0}
AllFor Q (t ∷ ts) = IsFor Q t × AllFor Q ts

-- What a thread holds in its hands.
abbrev pub Holds : (Ptr → Type 0) → Worker → Type 0
Holds Q (running t) = IsFor Q t
Holds Q testing = Unit {0}
Holds Q waiting = Unit
Holds Q exited = Unit

abbrev pub AllHold : (Ptr → Type 0) → List Worker → Type 0
AllHold Q [] = Unit {0}
AllHold Q (w ∷ ws) = Holds Q w × AllHold Q ws

module _ (Q R : Ptr → Type 0) (weaker : (p : Ptr) → Q p → R p) where
  pub AllFor-map : (ts : List IoTask) → AllFor Q ts → AllFor R ts
  AllFor-map [] all = tt
  AllFor-map (t ∷ ts) ((p, e, q), all) = ((p, e, weaker p q), AllFor-map ts all)

  Holds-map : (w : Worker) → Holds Q w → Holds R w
  Holds-map (running t) (p, e, q) = (p, e, weaker p q)
  Holds-map testing h = tt
  Holds-map waiting h = tt
  Holds-map exited h = tt

  pub AllHold-map : (ws : List Worker) → AllHold Q ws → AllHold R ws
  AllHold-map [] all = tt
  AllHold-map (w ∷ ws) (h, all) = (Holds-map w h, AllHold-map ws all)

module _ (Q : Ptr → Type 0) where
  pub AllFor-snoc :
      (ts : List IoTask) (t : IoTask) → AllFor Q ts → IsFor Q t → AllFor Q (ts ++ t ∷ [])
  AllFor-snoc [] t all this = (this, tt)
  AllFor-snoc (u ∷ ts) t (first, all) this = (first, AllFor-snoc ts t all this)

  AllHold-get_elem? :
      (ws : List Worker) (i : ℕ) (w : Worker) → AllHold Q ws → get_elem? ws i ≡ some w → Holds Q w
  AllHold-get_elem? [] i w all e = cc
  AllHold-get_elem? (v ∷ ws) zero w (h, all) e = let same : v ≡ w = cc in rw (← same) h
  AllHold-get_elem? (v ∷ ws) (suc i) w (h, all) e = AllHold-get_elem? ws i w all e

  AllHold-set :
      (ws : List Worker) (i : ℕ) (w : Worker) → AllHold Q ws → Holds Q w → AllHold Q (set ws i w)
  AllHold-set [] i w all new = tt
  AllHold-set (v ∷ ws) zero w (h, all) new = (new, all)
  AllHold-set (v ∷ ws) (suc i) w (h, all) new = (h, AllHold-set ws i w all new)

  worker_step-Holds :
      (stop : Bool) (ts : List IoTask) (w : Worker)
      → AllFor Q ts
      → Holds Q w
      → Holds Q (worker_step stop ts w).0 × AllFor Q (worker_step stop ts w).1
  unfolding worker_step
  worker_step-Holds true ts testing all h = (tt, all)
  worker_step-Holds false ts testing all h = (tt, all)
  worker_step-Holds true [] waiting all h = (tt, tt)
  worker_step-Holds false [] waiting all h = (tt, tt)
  worker_step-Holds stop (t ∷ ts) waiting (first, all) h = (first, all)
  worker_step-Holds stop ts (running t) all h = (tt, all)
  worker_step-Holds stop ts exited all h = (tt, all)

module _ {W : Type 0} where
  -- The stores of all tasks, queued or taken, are there.
  abbrev pub TasksLive : Server W → Type 0
  TasksLive s =
      AllFor (λ p. Live p s) s.io_worker.thread_pool.tasks
      × AllHold (λ p. Live p s) s.io_worker.thread_pool.workers

  told-TasksLive :
      (s : Server W) (calls : List Delivery) (b : Bool)
      → TasksLive s
      → TasksLive (if b then record s { deliveries = calls } else s)
  told-TasksLive s calls true live = live
  told-TasksLive s calls false live = live

  deliver-TasksLive :
      (kind : EventType) (q : Ptr) (s : Server W) → TasksLive s → TasksLive (deliver kind q s)
  unfolding deliver
  deliver-TasksLive blank q s live = live
  deliver-TasksLive new_connection q s live = told-TasksLive s _ s.event_receiver live
  deliver-TasksLive closed_connection q s live = told-TasksLive s _ s.event_receiver live
  deliver-TasksLive incoming_data q s live = told-TasksLive s _ s.event_receiver live

  handle_call_back_event-TasksLive :
      (o : Option Ptr) (p : Ptr) (s : Server W)
      → o ≡ some p
      → Live p s
      → TasksLive s
      → Returns TasksLive (handle_call_back_event o s)
  unfolding handle_call_back_event deref
  handle_call_back_event-TasksLive o p s e (st, there) live =
      rw (e, deref, there, deref) (deliver-TasksLive st.event_type p s live)

  run_task-TasksLive :
      (t : IoTask) (f : Option TaskFunction) (s : Server W)
      → t.task_execution_func ≡ f
      → IsFor (λ p. Live p s) t
      → TasksLive s
      → Returns TasksLive (run_task (execute t) s)
  unfolding run_task execute queue_io_event enqueue_task
  run_task-TasksLive t none s e this live = rw (e, execute) live
  run_task-TasksLive t (some ThreadPool.handle_io_event) s e (p, o, there) (queued, taken) =
      rw (e, execute)
        (AllFor-snoc (λ p. Live p s) s.io_worker.thread_pool.tasks _ queued (p, o, there), taken)
  run_task-TasksLive t (some ThreadPool.handle_call_back_event) s e (p, o, there) live =
      rw (e, execute) (handle_call_back_event-TasksLive t.event_store_pointer p s o there live)

  after_step-TasksLive :
      (w : Worker) (s : Server W)
      → Holds (λ p. Live p s) w
      → TasksLive s
      → Returns TasksLive (after_step w s)
  unfolding after_step
  after_step-TasksLive testing s h live = live
  after_step-TasksLive waiting s h live = live
  after_step-TasksLive exited s h live = live
  after_step-TasksLive (running t) s h live =
      run_task-TasksLive t t.task_execution_func s refl h live

  -- A turn of any thread of the pool.
  pub worker_turn-TasksLive :
      (i : ℕ) (s : Server W) → TasksLive s → Returns TasksLive (worker_turn i s)
  unfolding worker_turn
  worker_turn-TasksLive i s (queued, taken) =
      let pool = s.io_worker.thread_pool in
      elim (Option-cases (get_elem? pool.workers i)) [
        | inl nobody ↦ rw (nobody, worker_turn) (queued, taken)
        | inr (w, there) ↦
            let h = AllHold-get_elem? (λ p. Live p s) pool.workers i w taken there in
            let (h', queued') = worker_step-Holds (λ p. Live p s) pool.stop pool.tasks w queued h in
            rw (there, worker_turn)
              (after_step-TasksLive w _ h
                (queued', AllHold-set (λ p. Live p s) pool.workers i _ taken h'))
      ]
