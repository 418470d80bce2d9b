-- ===== src/ThreadPool/Wakeup/Joins.antt =====
-- Whether the joins of the destructor in src/threadpool/ThreadPool.cpp return: that depends on where
-- its `notify_all` falls.
use eventplus.Prelude.{
  ℕ, zero, suc, ◌-◌, ◌≤◌, ◌≡◌, refl, sym, ap, ◌∙◌, inl, inr, Bool, true, false, ◌&&◌, List, [], ◌∷◌,
  none, some, Option-cases, Bool-cases, arith, get_elem?, set, map, ◌==◌, ==_iff, suc-==-zero,
  if◌then◌else◌,
}
use eventplus.ThreadPool.{IoTask, testing, waiting, exited, running}
use eventplus.ThreadPool.Wakeup.{
  Stage, active, blocking, asleep, Monitor, is_held, stage_step, turn, turns, woken, notify_all,
  count,
}

zero-==-suc : (n : ℕ) → (0 == suc n) ≡ false
zero-==-suc n = ground arith

suc-==-suc : (m n : ℕ) → (suc m == suc n) ≡ (m == n)
suc-==-suc m n = ground arith

get_elem?-set :
    (xs : List Stage) (i j : ℕ) (x y : Stage)
    → get_elem? xs i ≡ some x
    → get_elem? (set xs j y) i ≡ (if j == i then some y else some x)
get_elem?-set [] i j x y e = cc
get_elem?-set (z ∷ xs) zero zero x y e = refl
get_elem?-set (z ∷ xs) zero (suc j) x y e = rw (suc-==-zero j) e
get_elem?-set (z ∷ xs) (suc i) zero x y e = rw (zero-==-suc i) e
get_elem?-set (z ∷ xs) (suc i) (suc j) x y e = rw (suc-==-suc j i) (get_elem?-set xs i j x y e)

get_elem?-woken :
    (xs : List Stage) (i : ℕ) (x : Stage)
    → get_elem? xs i ≡ some x
    → get_elem? (map woken xs) i ≡ some (woken x)
get_elem?-woken [] i x e = cc
get_elem?-woken (z ∷ xs) zero x e = let same : z ≡ x = cc in rw same refl
get_elem?-woken (z ∷ xs) (suc i) x e = get_elem?-woken xs i x e

-- What a turn does to thread `i`: its own step, or nothing.
turn-stage :
    (i j : ℕ) (m : Monitor) (x : Stage)
    → get_elem? m.stages i ≡ some x
    → get_elem? (turn j m).stages i
      ≡ (if j == i then some (stage_step (is_held m.stages) m.stop m.queue x).0 else some x)
unfolding turn
turn-stage i j m x e = elim (Option-cases (get_elem? m.stages j)) [
  | inl none_there ↦ elim (Bool-cases (j == i)) [
    | inl same ↦
        let other : get_elem? m.stages i ≡ none =
          ap (get_elem? m.stages) (sym ((==_iff j i).0 same)) ∙ none_there in
        absurd (cc)
    | inr differ ↦ rw (none_there, turn, differ) e
  ]
  | inr (y, there) ↦ elim (Bool-cases (j == i)) [
    | inl same ↦
        let one : get_elem? m.stages j ≡ some x =
          ap (get_elem? m.stages) ((==_iff j i).0 same) ∙ e in
        let set_to =
          get_elem?-set m.stages i j x (stage_step (is_held m.stages) m.stop m.queue x).0 e in
        rw (one, turn, same) (rw same at set_to)
    | inr differ ↦
        let set_to =
          get_elem?-set m.stages i j x (stage_step (is_held m.stages) m.stop m.queue y).0 e in
        rw (there, turn, differ) (rw differ at set_to)
  ]
]

-- With nobody about to block, and the stop set, a thread that is awake has this many steps to make.
abbrev to_go : Stage → ℕ
to_go (active exited) = 0
to_go (active testing) = 1
to_go (active (running t)) = 2
to_go (active waiting) = 3
to_go blocking = 0
to_go asleep = 0

abbrev is_awake : Stage → Bool
is_awake (active w) = true
is_awake _ = false

all_awake : List Stage → Bool
all_awake [] = true
all_awake (x ∷ xs) = is_awake x && all_awake xs

all_awake-held : (xs : List Stage) → all_awake xs ≡ true → is_held xs ≡ false
unfolding all_awake is_held
all_awake-held [] e = refl
all_awake-held (active w ∷ xs) e = all_awake-held xs e
all_awake-held (blocking ∷ xs) e = cc
all_awake-held (asleep ∷ xs) e = cc

all_awake-set :
    (xs : List Stage) (j : ℕ) (y : Stage)
    → all_awake xs ≡ true
    → is_awake y ≡ true
    → all_awake (set xs j y) ≡ true
unfolding all_awake
all_awake-set [] j y e a = refl
all_awake-set (active w ∷ xs) zero y e a = rw a e
all_awake-set (active w ∷ xs) (suc j) y e a = all_awake-set xs j y e a
all_awake-set (blocking ∷ xs) j y e a = absurd (cc)
all_awake-set (asleep ∷ xs) j y e a = absurd (cc)

all_awake-woken : (xs : List Stage) → is_held xs ≡ false → all_awake (map woken xs) ≡ true
unfolding all_awake is_held
all_awake-woken [] e = refl
all_awake-woken (active w ∷ xs) e = all_awake-woken xs e
all_awake-woken (blocking ∷ xs) e = cc
all_awake-woken (asleep ∷ xs) e = all_awake-woken xs e

stopping_step :
    (tasks : List IoTask) (x : Stage)
    → is_awake x ≡ true
    → let x' = (stage_step false true tasks x).0 in (is_awake x' ≡ true) × (to_go x' ≤ to_go x - 1)
unfolding stage_step
stopping_step tasks blocking e = cc
stopping_step tasks asleep e = cc
stopping_step tasks (active testing) e = (refl, omega arith)
stopping_step [] (active waiting) e = (refl, omega arith)
stopping_step (t ∷ tasks) (active waiting) e = (refl, omega arith)
stopping_step tasks (active (running t)) e = (refl, omega arith)
stopping_step tasks (active exited) e = (refl, omega arith)

turn-stop : (j : ℕ) (m : Monitor) → (turn j m).stop ≡ m.stop
unfolding turn
turn-stop j m = elim (Option-cases (get_elem? m.stages j)) [
  | inl none_there ↦ rw (none_there, turn) refl
  | inr (x, there) ↦ rw (there, turn) refl
]

get_elem?-awake :
    (xs : List Stage) (j : ℕ) (x : Stage)
    → all_awake xs ≡ true
    → get_elem? xs j ≡ some x
    → is_awake x ≡ true
unfolding all_awake
get_elem?-awake [] j x a e = cc
get_elem?-awake (active w ∷ xs) zero x a e = let same : active w ≡ x = cc in rw (← same) refl
get_elem?-awake (active w ∷ xs) (suc j) x a e = get_elem?-awake xs j x a e
get_elem?-awake (blocking ∷ xs) j x a e = absurd (cc)
get_elem?-awake (asleep ∷ xs) j x a e = absurd (cc)

turn-awake :
    (j : ℕ) (m : Monitor)
    → m.stop ≡ true
    → all_awake m.stages ≡ true
    → all_awake (turn j m).stages ≡ true
unfolding turn
turn-awake j m stopped a = elim (Option-cases (get_elem? m.stages j)) [
  | inl none_there ↦ rw (none_there, turn) a
  | inr (x, there) ↦
      let step = stopping_step m.queue x (get_elem?-awake m.stages j x a there) in
      rw (there, turn, all_awake-held m.stages a, stopped) (all_awake-set m.stages j _ a step.0)
]

-- Awake threads leave: each in at most three steps of its own.
turns-exited :
    (i : ℕ) (js : List ℕ) (m : Monitor) (x : Stage)
    → m.stop ≡ true
    → all_awake m.stages ≡ true
    → get_elem? m.stages i ≡ some x
    → to_go x ≤ count i js
    → get_elem? (turns js m).stages i ≡ some (active exited)
unfolding turns count
turns-exited i [] m (active exited) stopped a e enough = e
turns-exited i [] m (active testing) stopped a e enough = absurd (omega arith)
turns-exited i [] m (active waiting) stopped a e enough = absurd (omega arith)
turns-exited i [] m (active (running t)) stopped a e enough = absurd (omega arith)
turns-exited i [] m blocking stopped a e enough =
    let awake = get_elem?-awake m.stages i blocking a e in absurd (cc)
turns-exited i [] m asleep stopped a e enough =
    let awake = get_elem?-awake m.stages i asleep a e in absurd (cc)
turns-exited i (j ∷ js) m x stopped a e enough =
    let now = turn-stage i j m x e in
    let x' = (stage_step (is_held m.stages) m.stop m.queue x).0 in
    let step : (is_awake x' ≡ true) × (to_go x' ≤ to_go x - 1) =
      rw (all_awake-held m.stages a, stopped)
        (stopping_step m.queue x (get_elem?-awake m.stages i x a e)) in
    let still = turn-stop j m ∙ stopped in
    let up = turn-awake j m stopped a in
    elim (Bool-cases (j == i)) [
      | inl same ↦
          turns-exited i js (turn j m) x' still up (rw same at now)
            (omega (arith, step.1, (rw same at enough)))
      | inr differ ↦
          turns-exited i js (turn j m) x still up (rw differ at now)
            (omega (arith, (rw differ at enough)))
    ]

-- The stop is set, and the destructor notifies all threads while none is between its test and the
-- blocking: however the threads take turns then, one that is given three turns of its own has
-- exited, and its join returns.
pub notify_all-exits :
    (m : Monitor) (i : ℕ) (x : Stage) (js : List ℕ)
    → m.stop ≡ true
    → is_held m.stages ≡ false
    → get_elem? m.stages i ≡ some x
    → 3 ≤ count i js
    → get_elem? (turns js (notify_all m)).stages i ≡ some (active exited)
unfolding notify_all
notify_all-exits m i x js stopped free e enough =
    turns-exited i js (notify_all m) (woken x) stopped (all_awake-woken m.stages free)
      (get_elem?-woken m.stages i x e) (omega (arith, enough, to_go-le (woken x)))
  where
    to_go-le : (y : Stage) → to_go y ≤ 3
    to_go-le (active testing) = omega arith
    to_go-le (active waiting) = omega arith
    to_go-le (active exited) = omega arith
    to_go-le (active (running t)) = omega arith
    to_go-le blocking = omega arith
    to_go-le asleep = omega arith
