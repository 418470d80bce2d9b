-- ===== src/Server/Destruction.antt =====
-- The destructor of src/socket/server/TcpServerSocket.cpp, with those of the members: the pool's of
-- src/threadpool/ThreadPool.cpp, which joins its threads, and then those of the polling threads.
use eventplus.Prelude.{
  false, ◌||◌, ℕ, Bool, Option, none, Result, if◌then◌else◌, ◌≡◌, true, List, [], ◌∷◌, some, ok,
  err, aborted, ◌>>=◌,
}
use eventplus.Common.Details.{HandlerClass}
use eventplus.Common.Os.{Os}
use eventplus.Common.Handler.{BaseSocketHandler}
use eventplus.Common.Handler
use eventplus.NetworkEvent.SocketEventHandler
use eventplus.NetworkEvent.SocketEventHandler.{SocketEventHandler, destroy_thread}
use eventplus.NetworkEvent.EventScheduler.{destroy_handlers}
use eventplus.Server.State.{Server}
use eventplus.Server.Lifecycle.{stop_polling}
use eventplus.Server.System.{worker_turn}
use eventplus.ThreadPool.{Worker, exited, request_stop}

pub all_exited : List Worker → Bool
all_exited [] = true
all_exited (exited ∷ ws) = all_exited ws
all_exited (_ ∷ ws) = false

module _ {W : Type 0} where
  -- The joins of the pool, while its threads take these turns: nothing if a join still waits after
  -- them. A thread that never wakes has no more turns.
  pub join_pool : List ℕ → Server W → Result (Option (Server W))
  join_pool [] s = ok (if all_exited s.io_worker.thread_pool.workers then some s else none)
  join_pool (i ∷ turns) s = worker_turn i s >>= join_pool turns

  unfoldable pub stop_pool : Server W → Server W
  unfolding request_stop
  stop_pool s = record s {
    io_worker = record s.io_worker { thread_pool = request_stop s.io_worker.thread_pool };
  }

  -- The destructors of the polling threads.
  unfoldable pub destroy_polling_threads : Option (Server W) → Result (Option W)
  destroy_polling_threads none = ok none
  destroy_polling_threads (some s) = do
    w ← destroy_handlers s.event_scheduler.socket_event_handlers s.world
    w' ← destroy_thread (some s.socket_event_handler) w
    ok (some w')

module _ {W : Type 0} (os : Os W) (table : HandlerClass → BaseSocketHandler W) where
  -- The destructor, while the threads of the pool take these turns; nothing if it still waits.
  unfoldable pub destroy_server : List ℕ → Server W → Result (Option W)
  destroy_server turns s = do
    stopped ← stop_polling os table s
    joined ← join_pool turns (stop_pool stopped)
    destroy_polling_threads joined

-- Whether one of the threads has been started.
pub any_started : List SocketEventHandler → Bool
any_started [] = false
any_started (h ∷ hs) = h.started || any_started hs

module _ {W : Type 0} where
  -- Whether one of the threads of a server has been started.
  abbrev pub any_thread_started : Server W → Bool
  any_thread_started s =
      any_started s.event_scheduler.socket_event_handlers || s.socket_event_handler.started

  -- What becomes of the destructor by what becomes of the pool's joins; `threads` tells whether a
  -- polling thread has been started.
  abbrev pub Ends : Bool → Result (Option (Server W)) → Result (Option W) → Type 0
  Ends threads (err f) r = r ≡ err f
  Ends threads (ok none) r = r ≡ ok none
  Ends threads (ok (some s)) r = if threads then (r ≡ err aborted) else (r ≡ ok (some s.world))
