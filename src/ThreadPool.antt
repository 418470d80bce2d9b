-- ===== src/ThreadPool.antt =====
-- src/threadpool/ThreadPool.{h,cpp} and src/IOWorkerThread/IOTask.h: a queue of tasks and the
-- threads that run them. The threads take turns in any order: a schedule is a list of actions.
pub mod Order
pub mod Shutdown
pub mod Progress
pub mod Liveness
pub mod Wakeup
use eventplus.Prelude.{
  ℕ, zero, suc, Bool, true, false, List, [], ◌∷◌, ◌++◌, Option, none, some, if◌then◌else◌,
  get_elem?, set, replicate,
}
use eventplus.Common.Details.{Ptr}

-- What a `std::function` of the program is bound to: `IOWorkerThreadHandler::handleIOEvent`, or
-- `TcpServerSocket::handleCallBackEvent`.
pub data TaskFunction : Type 0 where
  handle_io_event handle_call_back_event : TaskFunction

pub record IoTask : Type 0 where
  pub task_execution_func : Option TaskFunction
  pub event_store_pointer : Option Ptr

-- `execute` makes this call, or none.
unfoldable pub execute : IoTask → Option (TaskFunction × Option Ptr)
execute t = elim t.task_execution_func [ none ↦ none | some f ↦ some (f, t.event_store_pointer) ]

-- Where a thread stands in `workerThread`: before the test of the `while`, before or in the wait,
-- before `task.execute()`, or past the function's end.
pub data Worker : Type 0 where
  testing waiting exited : Worker
  running : IoTask → Worker

pub record ThreadPool : Type 0 where
  pub workers : List Worker
  pub tasks : List IoTask  -- the front first
  pub stop : Bool

unfoldable pub create_pool : ℕ → ThreadPool
create_pool num_threads = record {
  workers = replicate num_threads testing;
  tasks = [];
  stop = false;
}

unfoldable pub enqueue_task : ThreadPool → Option Ptr → Option TaskFunction → ThreadPool
enqueue_task p store f = record p {
  tasks = p.tasks ++ record { task_execution_func = f; event_store_pointer = store } ∷ [];
}

-- The destructor, up to the joins, where it waits for every thread to exit. That it may wake a thread
-- too early is in Wakeup.
unfoldable pub request_stop : ThreadPool → ThreadPool
request_stop p = record p { stop = true }

-- One step of one thread. The wait and the taking of a task are one step; a thread whose wait is not
-- over stays where it is. A thread in the wait may be given a step at any time, or never, so that
-- every schedule with wake-ups, lost or not, is one of these (Wakeup.Coarse).
unfoldable pub worker_step : Bool → List IoTask → Worker → Worker × List IoTask
worker_step stop tasks testing = (if stop then exited else waiting, tasks)
worker_step stop [] waiting = (if stop then exited else waiting, [])
worker_step stop (t ∷ tasks) waiting = (running t, tasks)
worker_step stop tasks (running t) = (testing, tasks)
worker_step stop tasks exited = (exited, tasks)

pub data Action : Type 0 where
  enqueues : IoTask → Action
  works : ℕ → Action
  stops : Action

-- A pool with the tasks that were ever queued, taken and executed, each list in the order of time.
pub record Traced : Type 0 where
  pub pool : ThreadPool
  pub open pool use *
  pub queued : List IoTask
  pub taken : List IoTask
  pub executed : List IoTask

abbrev taken_by : Worker → Worker → List IoTask
taken_by waiting (running t) = t ∷ []
taken_by _ _ = []

abbrev executed_by : Worker → List IoTask
executed_by (running t) = t ∷ []
executed_by _ = []

work : ℕ → Worker → Traced → Traced
unfolding worker_step
work i w s =
    let (w', tasks') = worker_step s.stop s.tasks w in
    record s {
      pool = record s.pool { workers = set s.workers i w'; tasks = tasks' };
      taken = s.taken ++ taken_by w w';
      executed = s.executed ++ executed_by w;
    }

unfoldable pub act : Action → Traced → Traced
unfolding work enqueue_task request_stop
act (enqueues t) s = record s {
  pool = enqueue_task s.pool t.event_store_pointer t.task_execution_func;
  queued = s.queued ++ t ∷ [];
}
act (works i) s = elim (get_elem? s.workers i) [ none ↦ s | some w ↦ work i w s ]
act stops s = record s { pool = request_stop s.pool }

unfoldable pub run : List Action → Traced → Traced
unfolding act
run [] s = s
run (a ∷ later) s = run later (act a s)

abbrev pub new_pool : ℕ → Traced
new_pool n = record { pool = create_pool n; queued = []; taken = []; executed = [] }
