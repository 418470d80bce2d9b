-- ===== src/ThreadPool/Shutdown.antt =====
-- The destructor of src/threadpool/ThreadPool.cpp: what it leaves in the queue.
use eventplus.Prelude.{
  ℕ, zero, suc, ◌≡◌, refl, sym, ap, ◌∙◌, inl, inr, Bool, true, false, List, [], ◌∷◌, ◌++◌, some,
  append_assoc, append-nil, get_elem?, set, Option-cases,
}
use eventplus.ThreadPool.{
  IoTask, Worker, testing, waiting, exited, running, worker_step, Action, enqueues, works, stops,
  Traced, taken_by, act, run,
}

-- No thread stands before or in the wait, where it would take one more task.
abbrev is_waiting : Worker → Bool
is_waiting waiting = true
is_waiting _ = false

abbrev pub NoneWaiting : List Worker → Type 0
NoneWaiting [] = Unit {0}
NoneWaiting (w ∷ ws) = (is_waiting w ≡ false) × NoneWaiting ws

abbrev new_tasks : Action → List IoTask
new_tasks (enqueues t) = t ∷ []
new_tasks (works i) = []
new_tasks stops = []

abbrev pub all_new_tasks : List Action → List IoTask
all_new_tasks [] = []
all_new_tasks (a ∷ later) = new_tasks a ++ all_new_tasks later

NoneWaiting-get_elem? :
    (ws : List Worker) (i : ℕ) (w : Worker)
    → NoneWaiting ws
    → get_elem? ws i ≡ some w
    → is_waiting w ≡ false
NoneWaiting-get_elem? [] i w n e = cc
NoneWaiting-get_elem? (x ∷ ws) zero w n e = let same : x ≡ w = cc in rw (← same) n.0
NoneWaiting-get_elem? (x ∷ ws) (suc i) w n e = NoneWaiting-get_elem? ws i w n.1 e

NoneWaiting-set :
    (ws : List Worker) (i : ℕ) (w : Worker)
    → NoneWaiting ws
    → is_waiting w ≡ false
    → NoneWaiting (set ws i w)
NoneWaiting-set [] i w n e = n
NoneWaiting-set (x ∷ ws) zero w n e = (e, n.1)
NoneWaiting-set (x ∷ ws) (suc i) w n e = (n.0, NoneWaiting-set ws i w n.1 e)

-- A stopped pool in which no thread waits, as a schedule that queues `new` finds and leaves it.
record Idle (new : List IoTask) (s t : Traced) : Type 0 where
  stopped : t.stop ≡ true
  none_waiting : NoneWaiting t.workers
  kept : t.tasks ≡ s.tasks ++ new
  same : t.taken ≡ s.taken

stopped_step :
    (tasks : List IoTask) (w : Worker)
    → is_waiting w ≡ false
    → (is_waiting (worker_step true tasks w).0 ≡ false)
      × ((worker_step true tasks w).1 ≡ tasks)
      × (taken_by w (worker_step true tasks w).0 ≡ [])
unfolding worker_step
stopped_step tasks testing n = (refl, refl, refl)
stopped_step tasks waiting n = cc
stopped_step tasks exited n = (refl, refl, refl)
stopped_step tasks (running t) n = (refl, refl, refl)

act-Idle :
    (a : Action) (s : Traced)
    → s.stop ≡ true
    → NoneWaiting s.workers
    → Idle (new_tasks a) s (act a s)
unfolding act
act-Idle (enqueues t) s e n = record { stopped = e; none_waiting = n; kept = refl; same = refl }
act-Idle (works i) s e n = elim (Option-cases (get_elem? s.workers i)) [
  | inl g ↦
      rw (g, act)
        (record { stopped = e; none_waiting = n; kept = sym (append-nil s.tasks); same = refl })
  | inr (w, g) ↦
      let (still, keeps, none_taken) =
        stopped_step s.tasks w (NoneWaiting-get_elem? s.workers i w n g) in
      rw (g, act, e)
        (record {
          stopped = refl;
          none_waiting = NoneWaiting-set s.workers i _ n still;
          kept = keeps ∙ sym (append-nil s.tasks);
          same = ap (◌++◌ s.taken) none_taken ∙ append-nil s.taken;
        })
]
act-Idle stops s e n = record {
  stopped = refl;
  none_waiting = n;
  kept = sym (append-nil s.tasks);
  same = refl;
}

-- Once the stop is requested while every thread runs a task, or tests or has left its loop, no task
-- is taken any more, under any schedule: all that is queued then, and later, stays in the queue and
-- is dropped with it.
pub stop_drops :
    (actions : List Action) (s : Traced)
    → s.stop ≡ true
    → NoneWaiting s.workers
    → ((run actions s).taken ≡ s.taken) × ((run actions s).tasks ≡ s.tasks ++ all_new_tasks actions)
unfolding run
stop_drops [] s e n = (refl, sym (append-nil s.tasks))
stop_drops (a ∷ later) s e n =
    let step = act-Idle a s e n in
    let (same, kept) = stop_drops later (act a s) step.stopped step.none_waiting in
    (same ∙ step.same, kept ∙ (rw (step.kept, append_assoc) refl))
