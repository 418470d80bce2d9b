-- ===== src/ThreadPool/Progress.antt =====
-- src/threadpool/ThreadPool.cpp without a stop: each step of a thread that does not wait for a task
-- gets closer to an empty queue.
use eventplus.Prelude.{
  ℕ, zero, suc, ◌+◌, ◌*◌, ◌<◌, ◌≡◌, refl, ap, ◌∙◌, ◌⊎◌, inl, inr, Bool, true, false, List, [], ◌∷◌,
  some, map, arith, get_elem?, set, length, length-set, Option-cases,
}
use eventplus.ThreadPool.{
  IoTask, Worker, testing, waiting, exited, running, worker_step, Action, works, Traced, act, run,
}

-- The steps of a thread until it waits.
abbrev pub stage : Worker → ℕ
stage waiting = 0
stage testing = 1
stage (running t) = 2
stage exited = 0

unfoldable pub stages : List Worker → ℕ
stages [] = 0
stages (w ∷ ws) = stage w + stages ws

abbrev pub remaining : Traced → ℕ
remaining s = 3 * length s.tasks + stages s.workers

abbrev pub is_exited : Worker → Bool
is_exited exited = true
is_exited _ = false

-- A pool of `n` threads that runs.
pub record IsLive (n : ℕ) (s : Traced) : Type 0 where
  pub count : length s.workers ≡ n
  pub none_exited : (i : ℕ) (w : Worker) → get_elem? s.workers i ≡ some w → is_exited w ≡ false
  pub goes_on : s.stop ≡ false

get_elem?-set :
    (ws : List Worker) (i j : ℕ) (w v : Worker)
    → get_elem? (set ws i w) j ≡ some v
    → (v ≡ w) ⊎ (get_elem? ws j ≡ some v)
get_elem?-set [] i j w v e = inr e
get_elem?-set (x ∷ ws) zero zero w v e = inl (cc)
get_elem?-set (x ∷ ws) zero (suc j) w v e = inr e
get_elem?-set (x ∷ ws) (suc i) zero w v e = inr e
get_elem?-set (x ∷ ws) (suc i) (suc j) w v e = get_elem?-set ws i j w v e

set_same : (ws : List Worker) (i : ℕ) (w : Worker) → get_elem? ws i ≡ some w → set ws i w ≡ ws
set_same [] i w e = refl
set_same (x ∷ ws) zero w e = let same : x ≡ w = cc in rw same
set_same (x ∷ ws) (suc i) w e = rw (set_same ws i w e)

stages-set :
    (ws : List Worker) (i : ℕ) (w w' : Worker)
    → get_elem? ws i ≡ some w
    → stages (set ws i w') + stage w ≡ stages ws + stage w'
unfolding stages
stages-set [] i w w' e = cc
stages-set (x ∷ ws) zero w w' e = let same : x ≡ w = cc in rw same (omega arith)
stages-set (x ∷ ws) (suc i) w w' e = omega (arith, stages-set ws i w w' e)

-- A step gets closer to the end, unless the thread waits and nothing is queued.
live_step :
    (tasks : List IoTask) (w : Worker)
    → is_exited w ≡ false
    → (is_exited (worker_step false tasks w).0 ≡ false)
      × ((3 * length (worker_step false tasks w).1 + stage (worker_step false tasks w).0
            < 3 * length tasks + stage w)
          ⊎ ((w ≡ waiting) × (tasks ≡ []) × (worker_step false tasks w ≡ (w, tasks))))
unfolding worker_step
live_step tasks testing e = (refl, inl (omega arith))
live_step [] waiting e = (refl, inr (refl, refl, refl))
live_step (t ∷ tasks) waiting e = (refl, inl (omega arith))
live_step tasks (running t) e = (refl, inl (omega arith))
live_step tasks exited e = cc

-- Nothing changes, since thread `i`, if there is one, waits for a task and there is none.
pub record Stays (i : ℕ) (s t : Traced) : Type 0 where
  pub workers : t.workers ≡ s.workers
  pub tasks : t.tasks ≡ s.tasks
  pub waits : (w : Worker) → get_elem? s.workers i ≡ some w → (w ≡ waiting) × (s.tasks ≡ [])

pub works-IsLive :
    (n i : ℕ) (s : Traced)
    → IsLive n s
    → IsLive n (act (works i) s)
      × ((remaining (act (works i) s) < remaining s) ⊎ Stays i s (act (works i) s))
unfolding act
works-IsLive n i s v = elim (Option-cases (get_elem? s.workers i)) [
  | inl e ↦
      rw (e, act) (v, inr (record { workers = refl; tasks = refl; waits = λ w here. absurd (cc) }))
  | inr (w, e) ↦
      let (w', tasks') = worker_step false s.tasks w in
      let (still, progress) = live_step s.tasks w (v.none_exited i w e) in
      rw (e, act, v.goes_on)
        (
          record {
            count = length-set s.workers i w' ∙ v.count;
            none_exited = λ j x there. elim (get_elem?-set s.workers i j w' x there) [
              | inl same ↦ rw same still
              | inr before ↦ v.none_exited j x before
            ];
            goes_on = refl;
          },
          elim progress [
            | inl less ↦ inl (omega (arith, less, stages-set s.workers i w w' e))
            | inr (waits, no_tasks, same) ↦ inr (record {
              workers = rw same (set_same s.workers i w e);
              tasks = ap (λ r. r.1) same;
              waits = λ x here. (cc (here, e, waits), no_tasks);
            })
          ],
        )
]

-- Each thread that has a turn waits for a task, and there is none.
abbrev pub Wait : List ℕ → Traced → Type 0
Wait is s =
    (j i : ℕ)
    → get_elem? is j ≡ some i
    → (w : Worker) → get_elem? s.workers i ≡ some w
    → (w ≡ waiting) × (s.tasks ≡ [])

Stays-Wait : (k : ℕ) (is : List ℕ) (s t : Traced) → Stays k s t → Wait is t → Wait (k ∷ is) s
Stays-Wait k is s t stays later zero i e w here =
    let same : k ≡ i = cc in stays.waits w (rw same here)
Stays-Wait k is s t stays later (suc j) i e w here =
    let (waits, no_tasks) = later j i e w (rw stays.workers here) in
    (waits, rw stays.tasks at no_tasks)

abbrev pub turns : List ℕ → List Action
turns is = map works is

-- A round gets closer to the end, or each thread that has a turn in it waits and nothing is queued.
pub turns-IsLive :
    (n : ℕ) (is : List ℕ) (s : Traced)
    → IsLive n s
    → IsLive n (run (turns is) s)
      × ((remaining (run (turns is) s) < remaining s)
          ⊎ ((remaining (run (turns is) s) ≡ remaining s) × Wait is s))
unfolding run
turns-IsLive n [] s v = (v, inr (refl, λ j i e w here. absurd (cc)))
turns-IsLive n (k ∷ is) s v =
    let (v', first) = works-IsLive n k s v in
    let (v'', later) = turns-IsLive n is (act (works k) s) v' in
    (
      v'',
      elim first [
        | inl less ↦ elim later [ inl more ↦ inl (omega arith) | inr (same, _) ↦ inl (omega arith) ]
        | inr stays ↦
            let kept : remaining (act (works k) s) ≡ remaining s =
              rw (stays.workers, stays.tasks) refl in
            elim later [
              | inl more ↦ inl (omega arith)
              | inr (same, waits) ↦ inr (same ∙ kept, Stays-Wait k is s _ stays waits)
            ]
      ],
    )
