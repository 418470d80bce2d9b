-- ===== src/ThreadPool/Wakeup.antt =====
-- The wait of src/threadpool/ThreadPool.cpp in its parts. `wait` tests its predicate under the mutex
-- and blocks after that; `enqueueTask` takes the mutex, but the destructor sets the stop and
-- notifies without it, so that both can fall between the test and the blocking.
pub mod Joins
pub mod Coarse
use eventplus.Prelude.{
  ℕ, zero, suc, ◌+◌, ◌≤◌, ◌≡◌, refl, sym, ap, ◌∙◌, ◌⊎◌, inl, inr, Bool, true, false, ◌||◌, List, [],
  ◌∷◌, ◌++◌, Option, none, some, Option-cases, arith, get_elem?, set, map, replicate, ◌==◌,
  if◌then◌else◌, Bool-cases, ==_iff, suc-==-zero, ◌&&◌, ◌-◌,
}
use eventplus.ThreadPool.{IoTask, Worker, testing, waiting, exited, running, worker_step}

-- Where a thread stands: as before, or with the predicate tested and false, still with the mutex, or
-- asleep, without it.
pub data Stage : Type 0 where
  active : Worker → Stage
  blocking asleep : Stage

pub record Monitor : Type 0 where
  pub stages : List Stage
  pub queue : List IoTask
  pub stop : Bool

abbrev pub is_blocking : Stage → Bool
is_blocking blocking = true
is_blocking _ = false

-- A thread that is about to block has the mutex.
unfoldable pub is_held : List Stage → Bool
is_held [] = false
is_held (x ∷ xs) = is_blocking x || is_held xs

unfoldable pub new_monitor : ℕ → Monitor
new_monitor num_threads = record {
  stages = replicate num_threads (active testing);
  queue = [];
  stop = false;
}

-- One step of a thread: the flags tell whether another has the mutex, and whether to stop. To block
-- gives the mutex back; nobody wakes by chance.
unfoldable pub stage_step : Bool → Bool → List IoTask → Stage → Stage × List IoTask
stage_step held stop tasks blocking = (asleep, tasks)
stage_step held stop tasks asleep = (asleep, tasks)
stage_step true stop tasks (active waiting) = (active waiting, tasks)
stage_step false false [] (active waiting) = (blocking, [])
stage_step false true [] (active waiting) = (active exited, [])
stage_step false stop (t ∷ tasks) (active waiting) = (active (running t), tasks)
stage_step held stop tasks (active testing) =
    (if stop then active exited else active waiting, tasks)
stage_step held stop tasks (active (running t)) = (active testing, tasks)
stage_step held stop tasks (active exited) = (active exited, tasks)

unfoldable pub turn : ℕ → Monitor → Monitor
unfolding stage_step
turn i m = elim (get_elem? m.stages i) [
  | none ↦ m
  | some x ↦
      let (x', queue') = stage_step (is_held m.stages) m.stop m.queue x in
      record m { stages = set m.stages i x'; queue = queue' }
]

unfoldable pub turns : List ℕ → Monitor → Monitor
unfolding turn
turns [] m = m
turns (i ∷ later) m = turns later (turn i m)

abbrev pub woken : Stage → Stage
woken asleep = active waiting
woken x = x

-- The statements of the destructor, before its joins.
unfoldable pub store_stop : Monitor → Monitor
store_stop m = record m { stop = true }

unfoldable pub notify_all : Monitor → Monitor
notify_all m = record m { stages = map woken m.stages }

unfoldable pub count : ℕ → List ℕ → ℕ
count i [] = 0
count i (j ∷ js) = (if j == i then 1 else 0) + count i js

-- A thread that nobody will wake.
abbrev pub is_lost : Option Stage → Bool
is_lost (some blocking) = true
is_lost (some asleep) = true
is_lost _ = false

-- What can happen to a pool: a thread makes a step; a caller queues a task, for which it needs the
-- mutex, and wakes the thread that the system chooses, if it is asleep; the destructor makes one of
-- its two statements.
pub data Move : Type 0 where
  takes_turn : ℕ → Move
  queues : IoTask → ℕ → Move
  stores_stop notifies : Move

unfoldable pub enqueue : IoTask → ℕ → Monitor → Monitor
enqueue t i m = record m {
  stages = elim (get_elem? m.stages i) [ none ↦ m.stages | some x ↦ set m.stages i (woken x) ];
  queue = m.queue ++ t ∷ [];
}

unfoldable pub moved : Move → Monitor → Monitor
unfolding turn enqueue store_stop notify_all
moved (takes_turn i) m = turn i m
moved (queues t i) m = if is_held m.stages then m else enqueue t i m
moved stores_stop m = store_stop m
moved notifies m = notify_all m

unfoldable pub all_moved : List Move → Monitor → Monitor
unfolding moved
all_moved [] m = m
all_moved (a ∷ later) m = all_moved later (moved a m)
