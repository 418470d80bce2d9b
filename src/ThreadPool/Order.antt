-- ===== src/ThreadPool/Order.antt =====
-- src/threadpool/ThreadPool.cpp: what becomes of the tasks, under every schedule.
use mathlib.Core.List.{perm_append_comm, Perm}
use mathlib.Core.List.Perm
use eventplus.Prelude.{
  ℕ, zero, suc, ◌≡◌, refl, inl, inr, Bool, true, false, List, [], ◌∷◌, ◌++◌, some, append_assoc,
  get_elem?, set, Option-cases, replicate,
}
use eventplus.ThreadPool.{
  IoTask, Worker, testing, waiting, exited, running, create_pool, worker_step, Action, enqueues,
  works, stops, Traced, taken_by, executed_by, work, act, run, new_pool,
}

-- The tasks that threads have taken and not yet executed.
abbrev pub in_hand : List Worker → List IoTask
in_hand [] = []
in_hand (w ∷ ws) = executed_by w ++ in_hand ws

-- Every task that was queued has been taken or is in the queue, in the order of their queueing; and
-- every one taken has been executed, or is in the hand of one thread.
pub record Accounted (s : Traced) : Type 0 where
  pub in_order : s.queued ≡ s.taken ++ s.tasks
  pub once : Perm s.taken (s.executed ++ in_hand s.workers)

swap_front {ℓ} : {A : Type ℓ} (a b c : List A) → Perm (a ++ (b ++ c)) (b ++ (a ++ c))
swap_front a b c = rw (append_assoc, append_assoc) at (Perm.append_right c (perm_append_comm a b))

-- A step of one thread, as the account sees it.
worker_step-in_order :
    (stop : Bool) (tasks : List IoTask) (w : Worker)
    → taken_by w (worker_step stop tasks w).0 ++ (worker_step stop tasks w).1 ≡ tasks
unfolding worker_step
worker_step-in_order stop tasks testing = refl
worker_step-in_order true [] waiting = refl
worker_step-in_order false [] waiting = refl
worker_step-in_order stop (t ∷ tasks) waiting = refl
worker_step-in_order stop tasks (running t) = refl
worker_step-in_order stop tasks exited = refl

worker_step-in_hand :
    (stop : Bool) (tasks : List IoTask) (w : Worker)
    → executed_by (worker_step stop tasks w).0 ≡ taken_by w (worker_step stop tasks w).0
unfolding worker_step
worker_step-in_hand true tasks testing = refl
worker_step-in_hand false tasks testing = refl
worker_step-in_hand true [] waiting = refl
worker_step-in_hand false [] waiting = refl
worker_step-in_hand stop (t ∷ tasks) waiting = refl
worker_step-in_hand stop tasks (running t) = refl
worker_step-in_hand stop tasks exited = refl

in_hand-set :
    (ws : List Worker) (i : ℕ) (w w' : Worker)
    → get_elem? ws i ≡ some w
    → Perm (executed_by w ++ in_hand (set ws i w')) (executed_by w' ++ in_hand ws)
in_hand-set [] i w w' e = cc
in_hand-set (x ∷ ws) zero w w' e =
    let same : x ≡ w = cc in rw same (swap_front (executed_by w) (executed_by w') (in_hand ws))
in_hand-set (x ∷ ws) (suc i) w w' e = Perm.trans (swap_front (executed_by w) (executed_by x) _) (
    Perm.trans (Perm.append_left (executed_by x) (in_hand-set ws i w w' e))
      (swap_front (executed_by x) (executed_by w') (in_hand ws)))

work-Accounted :
    (i : ℕ) (w : Worker) (s : Traced)
    → get_elem? s.workers i ≡ some w
    → Accounted s
    → Accounted (work i w s)
unfolding work
work-Accounted i w s e v =
    let (w', tasks') = worker_step s.stop s.tasks w in
    let new = taken_by w w' in
    let old = executed_by w in
    let step = worker_step-in_order s.stop s.tasks w in
    let hand : Perm (old ++ in_hand (set s.workers i w')) (new ++ in_hand s.workers) =
      rw (worker_step-in_hand s.stop s.tasks w) at (in_hand-set s.workers i w w' e) in
    record {
      in_order = rw (append_assoc, step) v.in_order;
      once = Perm.trans (perm_append_comm s.taken new) (
          Perm.trans (Perm.append_left new v.once) (
            Perm.trans (swap_front new s.executed _)
              (rw append_assoc (Perm.append_left s.executed (Perm.symm hand)))));
    }

act-Accounted : (a : Action) (s : Traced) → Accounted s → Accounted (act a s)
unfolding act
act-Accounted (enqueues t) s v = record {
  in_order = rw (v.in_order, append_assoc) refl;
  once = v.once;
}
act-Accounted (works i) s v = elim (Option-cases (get_elem? s.workers i)) [
  | inl e ↦ rw (e, act) v
  | inr (w, e) ↦ rw (e, act) (work-Accounted i w s e v)
]
act-Accounted stops s v = record { in_order = v.in_order; once = v.once }

run-Accounted : (actions : List Action) (s : Traced) → Accounted s → Accounted (run actions s)
unfolding run
run-Accounted [] s v = v
run-Accounted (a ∷ later) s v = run-Accounted later (act a s) (act-Accounted a s v)

in_hand-new : (n : ℕ) → in_hand (replicate n testing) ≡ []
in_hand-new zero = refl
in_hand-new (suc n) = in_hand-new n

-- Under every schedule of a new pool's threads and its callers, stopped or not: the tasks are taken
-- in the order of their queueing, and none is lost from the queue, taken twice or made up; each one
-- taken is executed once, or is in the hand of one thread.
pub run-new_pool-Accounted : (n : ℕ) (actions : List Action) → Accounted (run actions (new_pool n))
unfolding create_pool
run-new_pool-Accounted n actions =
    run-Accounted actions _ (record { in_order = refl; once = rw (in_hand-new n) (Perm.refl []) })
