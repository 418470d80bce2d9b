-- ===== src/Tests/ThreadPool.antt =====
-- src/threadpool/ThreadPool.cpp: small schedules.
use mathlib.Core.List.{Perm}
use eventplus.Prelude.{
  zero, suc, ◌<◌, arith, replicate, ℕ, ◌≡◌, refl, List, [], ◌∷◌, ◌++◌, some, get_elem?,
}
use eventplus.ThreadPool.{
  handle_call_back_event, IoTask, Action, enqueues, works, stops, Traced, act, run, new_pool,
  create_pool, worker_step, exited,
}
use eventplus.ThreadPool.Order.{Accounted, run-new_pool-Accounted}
use eventplus.ThreadPool.Liveness.{IsFair, all_turns, all_executed}
use eventplus.ThreadPool.Shutdown.{all_new_tasks, stop_drops}
use eventplus.ThreadPool.Wakeup.{
  active, asleep, Monitor, is_held, stage_step, turn, turns, store_stop, notify_all, count,
  new_monitor, Move, takes_turn, queues, stores_stop, notifies,
}
use eventplus.ThreadPool.Wakeup.Joins.{notify_all-exits}

abbrev task : ℕ → IoTask
task p = record { task_execution_func = some handle_call_back_event; event_store_pointer = some p }

-- Two threads take a task each, and the stop comes while they run them.
abbrev schedule : List Action
schedule =
    enqueues (task 1)
    ∷ enqueues (task 2)
    ∷ works 0
    ∷ works 1
    ∷ works 1
    ∷ works 0
    ∷ enqueues (task 3)
    ∷ stops
    ∷ []

abbrev stopping : Traced
stopping = run schedule (new_pool 2)

stopping_run : stopping.taken ≡ task 1 ∷ task 2 ∷ []
unfolding run act create_pool worker_step
stopping_run = refl

run-new_pool-Accounted_example : Accounted (run schedule (new_pool 2))
run-new_pool-Accounted_example = run-new_pool-Accounted 2 schedule

abbrev rest : List Action
rest = works 0 ∷ works 1 ∷ enqueues (task 4) ∷ works 0 ∷ works 1 ∷ works 0 ∷ []

stop_drops_example :
    ((run rest stopping).taken ≡ stopping.taken)
    × ((run rest stopping).tasks ≡ stopping.tasks ++ all_new_tasks rest)
unfolding run act create_pool worker_step
stop_drops_example = stop_drops rest stopping refl (refl, (refl, tt))

abbrev beginning : List Action
beginning = enqueues (task 1) ∷ enqueues (task 2) ∷ works 0 ∷ []

-- Thread 1 goes first, and twice.
abbrev round : List ℕ
round = 1 ∷ 1 ∷ 0 ∷ []

round_has : (i : ℕ) → i < 2 → (j : ℕ) × (get_elem? round j ≡ some i)
round_has zero h = (2, refl)
round_has (suc zero) h = (0, refl)
round_has (suc (suc i)) h = absurd (omega arith)

rounds-IsFair : (n : ℕ) → IsFair 2 (replicate n round)
rounds-IsFair zero = tt
rounds-IsFair (suc n) = (round_has, rounds-IsFair n)

all_executed_example :
    let s = run (beginning ++ all_turns (replicate 10 round)) (new_pool 2) in
    (s.tasks ≡ []) × (s.queued ≡ (run beginning (new_pool 2)).queued) × Perm s.queued s.executed
unfolding run act create_pool worker_step
all_executed_example =
    all_executed 2 beginning (replicate 10 round) (omega arith) tt (rounds-IsFair 10) (omega arith)

-- One of two threads has found nothing to do and is about to block; the other tests the loop.
abbrev blocks : Monitor
blocks = turns (0 ∷ 0 ∷ []) (new_monitor 2)

-- The stop is set, and both threads come to their waits before all are notified.
abbrev in_time : Monitor
in_time = store_stop (turns (0 ∷ 0 ∷ 0 ∷ 1 ∷ []) (new_monitor 2))

notify_all-exits_example :
    get_elem? (turns (0 ∷ 1 ∷ 0 ∷ 0 ∷ []) (notify_all in_time)).stages 0 ≡ some (active exited)
unfolding turns turn stage_step new_monitor store_stop is_held count
notify_all-exits_example =
    notify_all-exits in_time 0 asleep (0 ∷ 1 ∷ 0 ∷ 0 ∷ []) refl refl refl (omega arith)

abbrev moves : List Move
moves = takes_turn 0 ∷ takes_turn 0 ∷ stores_stop ∷ notifies ∷ queues (task 1) 0 ∷ takes_turn 0 ∷ []
