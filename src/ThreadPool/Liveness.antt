-- ===== src/ThreadPool/Liveness.antt =====
-- src/threadpool/ThreadPool.cpp without a stop: threads that keep getting their turns execute every
-- task that was queued.
use mathlib.Core.List.{Perm}
use eventplus.Prelude.{
  ℕ, zero, suc, ◌+◌, ◌*◌, ◌≤◌, ◌<◌, ◌≡◌, refl, ◌∙◌, inl, inr, List, [], ◌∷◌, ◌++◌, some, arith,
  append-nil, nil_of_length, get_elem?, get_elem?_lt, length, length-replicate, Option-cases,
  replicate,
}
use eventplus.ThreadPool.{
  Worker, testing, waiting, exited, running, create_pool, Action, enqueues, works, stops, Traced,
  act, run, new_pool,
}
use eventplus.ThreadPool.Progress.{
  stages, remaining, Wait, turns, IsLive, works-IsLive, turns-IsLive,
}
use eventplus.ThreadPool.Order.{in_hand, run-new_pool-Accounted}

-- Every thread of a pool of `n` has a turn in each round.
abbrev pub IsFair : ℕ → List (List ℕ) → Type 0
IsFair n [] = Unit {0}
IsFair n (round ∷ rounds) =
    ((i : ℕ) → i < n → (j : ℕ) × (get_elem? round j ≡ some i)) × IsFair n rounds

abbrev pub all_turns : List (List ℕ) → List Action
all_turns [] = []
all_turns (round ∷ rounds) = turns round ++ all_turns rounds

run-append : (xs ys : List Action) (s : Traced) → run (xs ++ ys) s ≡ run ys (run xs s)
unfolding run
run-append [] ys s = refl
run-append (x ∷ xs) ys s = run-append xs ys (act x s)

all_waiting-stages :
    (ws : List Worker)
    → ((i : ℕ) (w : Worker) → get_elem? ws i ≡ some w → w ≡ waiting)
    → stages ws ≡ 0
unfolding stages
all_waiting-stages [] waits = refl
all_waiting-stages (w ∷ ws) waits =
    let later = all_waiting-stages ws (λ i w e. waits (suc i) w e) in
    rw (waits 0 w refl) (omega arith)

get_elem?-bound : (ws : List Worker) (i : ℕ) (w : Worker) → get_elem? ws i ≡ some w → i < length ws
get_elem?-bound [] i w e = cc
get_elem?-bound (x ∷ ws) zero w e = omega arith
get_elem?-bound (x ∷ ws) (suc i) w e = omega (arith, get_elem?-bound ws i w e)

-- In a round that gets no closer to the end, it has been reached.
waits-remaining :
    (n : ℕ) (round : List ℕ) (s : Traced)
    → 0 < n
    → IsLive n s
    → ((i : ℕ) → i < n → (j : ℕ) × (get_elem? round j ≡ some i))
    → Wait round s
    → remaining s ≡ 0
waits-remaining n round s some_thread v fair waits =
    let all_wait : (i : ℕ) (w : Worker) → get_elem? s.workers i ≡ some w → w ≡ waiting = λ i w e.
      let (j, there) = fair i (rw (← v.count) (get_elem?-bound s.workers i w e)) in
      (waits j i there w e).0 in
    let (j, there) = fair 0 some_thread in
    let (w, e) = get_elem?_lt s.workers 0 (rw v.count some_thread) in
    rw ((waits j 0 there w e).1, all_waiting-stages s.workers all_wait)

all_turns-remaining :
    (n : ℕ) (rounds : List (List ℕ)) (s : Traced)
    → 0 < n
    → IsLive n s
    → IsFair n rounds
    → remaining s ≤ length rounds
    → IsLive n (run (all_turns rounds) s) × (remaining (run (all_turns rounds) s) ≡ 0)
unfolding run
all_turns-remaining n [] s some_thread v fair enough = (v, omega arith)
all_turns-remaining n (round ∷ rounds) s some_thread v (now, later) enough =
    let (v', progress) = turns-IsLive n round s v in
    let left : remaining (run (turns round) s) ≤ length rounds = elim progress [
      | inl less ↦ omega arith
      | inr (same, waits) ↦ omega (arith, waits-remaining n round s some_thread v now waits)
    ] in
    rw (run-append (turns round) (all_turns rounds) s)
      (all_turns-remaining n rounds _ some_thread v' later left)

abbrev pub NeverStops : List Action → Type 0
NeverStops [] = Unit {0}
NeverStops (stops ∷ later) = ⊥
NeverStops (enqueues t ∷ later) = NeverStops later
NeverStops (works i ∷ later) = NeverStops later

run-IsLive :
    (n : ℕ) (actions : List Action) (s : Traced)
    → NeverStops actions
    → IsLive n s
    → IsLive n (run actions s)
unfolding run act
run-IsLive n [] s never v = v
run-IsLive n (stops ∷ later) s never v = absurd never
run-IsLive n (works i ∷ later) s never v =
    run-IsLive n later (act (works i) s) never (works-IsLive n i s v).0
run-IsLive n (enqueues t ∷ later) s never v =
    run-IsLive n later (act (enqueues t) s) never
      (record { count = v.count; none_exited = v.none_exited; goes_on = v.goes_on })

get_elem?-replicate :
    (n i : ℕ) (w : Worker) → get_elem? (replicate n testing) i ≡ some w → w ≡ testing
get_elem?-replicate zero i w e = cc
get_elem?-replicate (suc n) zero w e = cc
get_elem?-replicate (suc n) (suc i) w e = get_elem?-replicate n i w e

new_pool-IsLive : (n : ℕ) → IsLive n (new_pool n)
unfolding create_pool
new_pool-IsLive n = record {
  count = length-replicate n testing;
  none_exited = λ i w e. rw (get_elem?-replicate n i w e);
  goes_on = refl;
}

stages-le : (ws : List Worker) → stages ws ≤ 2 * length ws
unfolding stages
stages-le [] = omega arith
stages-le (waiting ∷ ws) = omega (arith, stages-le ws)
stages-le (testing ∷ ws) = omega (arith, stages-le ws)
stages-le (running t ∷ ws) = omega (arith, stages-le ws)
stages-le (exited ∷ ws) = omega (arith, stages-le ws)

stages-in_hand : (ws : List Worker) → stages ws ≡ 0 → in_hand ws ≡ []
unfolding stages
stages-in_hand [] e = refl
stages-in_hand (waiting ∷ ws) e = stages-in_hand ws (omega arith)
stages-in_hand (testing ∷ ws) e = absurd (omega arith)
stages-in_hand (running t ∷ ws) e = absurd (omega arith)
stages-in_hand (exited ∷ ws) e = stages-in_hand ws (omega arith)

works-queued : (i : ℕ) (s : Traced) → (act (works i) s).queued ≡ s.queued
unfolding act
works-queued i s = elim (Option-cases (get_elem? s.workers i)) [
  | inl e ↦ rw (e, act)
  | inr (w, e) ↦ rw (e, act)
]

turns-queued : (is : List ℕ) (s : Traced) → (run (turns is) s).queued ≡ s.queued
unfolding run
turns-queued [] s = refl
turns-queued (i ∷ is) s = turns-queued is (act (works i) s) ∙ works-queued i s

all_turns-queued :
    (rounds : List (List ℕ)) (s : Traced) → (run (all_turns rounds) s).queued ≡ s.queued
unfolding run
all_turns-queued [] s = refl
all_turns-queued (round ∷ rounds) s =
    rw (run-append (turns round) (all_turns rounds) s)
      (all_turns-queued rounds _ ∙ turns-queued round s)

-- A pool with at least one thread, never stopped: whatever has been queued and run, once its
-- threads get their turns again in as many rounds as three for each task in the queue and two for
-- each thread, with any number of turns in any order in a round, every task has been executed,
-- exactly once.
pub all_executed :
    (n : ℕ) (before : List Action) (rounds : List (List ℕ))
    → 0 < n
    → NeverStops before
    → IsFair n rounds
    → 3 * length (run before (new_pool n)).tasks + 2 * n ≤ length rounds
    → let s = run (before ++ all_turns rounds) (new_pool n) in
      (s.tasks ≡ []) × (s.queued ≡ (run before (new_pool n)).queued) × Perm s.queued s.executed
all_executed n before rounds some_thread never fair enough =
    let s = run before (new_pool n) in
    let v = run-IsLive n before (new_pool n) never (new_pool-IsLive n) in
    let (v', done) =
      all_turns-remaining n rounds s some_thread v fair
        (omega (arith, stages-le s.workers, v.count)) in
    let account =
      rw (run-append before (all_turns rounds) (new_pool n)) at
        (run-new_pool-Accounted n (before ++ all_turns rounds)) in
    let end = run (all_turns rounds) s in
    let no_tasks = nil_of_length end.tasks (omega arith) in
    let in_no_hand = stages-in_hand end.workers (omega arith) in
    rw (run-append before (all_turns rounds) (new_pool n)) (
      no_tasks,
      all_turns-queued rounds s,
      rw (account.in_order, no_tasks, append-nil) (rw (in_no_hand, append-nil) at account.once),
    )
