-- ===== src/IoWorker.antt =====
-- src/IOWorkerThread/IOWorkerThreadHandler.{h,cpp}: the pool that runs the event callbacks.
use eventplus.Prelude.{
  ℕ, ◌+◌, ◌-◌, ◌^◌, ◌%◌, ℤ, pos, negsuc, [], Option, some, Result, ok, ◌>>=◌, ltb, if◌then◌else◌,
  to_word, of_word,
}
use eventplus.Common.Details.{Bytes, Ptr, EventStore, HandlerClass}
use eventplus.Common.Handler.{BaseSocketHandler}
use eventplus.Common.Handler
use eventplus.ThreadPool.{TaskFunction, handle_io_event, ThreadPool, create_pool, enqueue_task}

pub record IoWorker : Type 0 where
  pub thread_pool : ThreadPool
  pub task_function : TaskFunction

-- The task is first this object's own `handleIOEvent`.
unfoldable pub create_io_worker : ℕ → IoWorker
create_io_worker num_threads = record {
  thread_pool = create_pool num_threads;
  task_function = handle_io_event;
}

unfoldable pub queue_io_event : IoWorker → Option Ptr → IoWorker
queue_io_event h p = record h { thread_pool = enqueue_task h.thread_pool p (some h.task_function) }

unfoldable pub set_task_function : IoWorker → TaskFunction → IoWorker
set_task_function h f = record h { task_function = f }

-- `iDataAvailable - 4`, for values of an `int` that does not overflow.
unfoldable pub minus_four : ℤ → ℤ
minus_four (pos n) = if ltb n 4 then negsuc (3 - n) else pos (n - 4)
minus_four (negsuc n) = negsuc (n + 4)

-- `handleIOTask` returns the two texts that it prints.
unfoldable pub handle_io_task :
    {W : Type 0}
    → (HandlerClass → BaseSocketHandler W)
    → EventStore
    → W
    → Result (Bytes × Bytes × W)
handle_io_task table s w = do
  (available, w1) ← Handler.get_available_data_in_socket table s w
  let size = of_word (2 ^ 31) (to_word (2 ^ 64) available % 2 ^ 32)
  (r, text, w2) ← Handler.receive_partial_data table s (pos 4) [] w1
  (r', rest, w3) ← Handler.receive_partial_data table s (minus_four size) [] w2
  ok (text, rest, w3)
