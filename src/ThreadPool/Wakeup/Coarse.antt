-- ===== src/ThreadPool/Wakeup/Coarse.antt =====
-- The pool of src/threadpool/ThreadPool.cpp with its wait in one step, as `ThreadPool` has it,
-- against the pool with the wait in its parts.
use eventplus.Prelude.{◌≡◌, map}
use eventplus.ThreadPool.{Worker, waiting, Traced}
use eventplus.ThreadPool.Wakeup.{Stage, active, Monitor}

-- A thread in the wait, wherever it is there.
abbrev pub worker_of : Stage → Worker
worker_of (active w) = w
worker_of _ = waiting

-- The same pool, but for where a thread is in its wait.
pub record Shows (m : Monitor) (s : Traced) : Type 0 where
  pub same_workers : s.workers ≡ map worker_of m.stages
  pub same_tasks : s.tasks ≡ m.queue
  pub same_stop : s.stop ≡ m.stop
