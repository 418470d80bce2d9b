-- ===== src/NetworkEvent/EventScheduler/RoundRobin.antt =====
-- `addSocket` of src/networkevent/EventScheduler.cpp: which thread gets which socket.
use eventplus.Prelude.{
  ℕ, zero, suc, ◌+◌, ◌-◌, ◌*◌, ◌%◌, ◌≤◌, ◌<◌, ◌≡◌, ◌≢◌, refl, subst, ◌∙◌, ◌⊎◌, inl, inr, Bool,
  false, List, [], ◌∷◌, Option, none, some, ok, Result, Returns, Returns->>=, Returns-map, ◌>>=◌,
  arith, length, ltb, ◌==◌, if◌then◌else◌, ne→==, ==_iff,
}
use eventplus.Common.Details.{Ptr, Poller, scheduled, EventStore}
use eventplus.Common.Os.{Os}
use eventplus.NetworkEvent.SocketEventHandler
use eventplus.NetworkEvent.EventScheduler.{EventScheduler, add_socket}
use eventplus.NetworkEvent.EventScheduler.Loops.{IsValid, at_lem}

-- The thread that is next, and the number of sockets until it is the turn of thread `j`.
abbrev next : ℕ → ℕ → ℕ
next n c = (c + 1) % n

gap : ℕ → ℕ → ℕ → ℕ
gap n j c = if ltb c j then j - c else j + n - c

next-lt : (n c : ℕ) → c < n → next n c < n
next-lt n c h = omega arith

next-cases : (n c : ℕ) → c < n → ((c + 1 < n) × (next n c ≡ c + 1)) ⊎ ((c + 1 ≡ n) × (next n c ≡ 0))
next-cases n c h = grind arith

-- A turn brings `j` nearer by one, or serves it and puts it last.
gap-next :
    (n j c : ℕ)
    → c < n
    → j < n
    → ((next n c ≡ j) × (gap n j c ≡ 1) × (gap n j (next n c) ≡ n))
      ⊎ ((next n c ≢ j) × (gap n j c ≡ gap n j (next n c) + 1))
unfolding gap
gap-next n j c h k = elim (next-cases n c h) [
  | inl (a, e) ↦ rw e (ground arith)
  | inr (a, e) ↦ rw e (ground arith)
]

gap-bounds : (n j c : ℕ) → c < n → j < n → (0 < gap n j c) × (gap n j c ≤ n)
unfolding gap
gap-bounds n j c h k = ground arith

-- How many of the next `m` turns are those of `j`.
turns : ℕ → ℕ → ℕ → ℕ → ℕ
turns n j c zero = 0
turns n j c (suc m) = (if next n c == j then 1 else 0) + turns n j (next n c) m

turns_bounds :
    (n j m c : ℕ)
    → c < n
    → j < n
    → (turns n j c m * n + gap n j c ≤ m + n) × (m < turns n j c m * n + gap n j c)
unfolding turns
turns_bounds n j zero c h k = omega (arith, gap-bounds n j c h k)
turns_bounds n j (suc m) c h k =
    let rest = turns_bounds n j m (next n c) (next-lt n c h) k in
    elim (gap-next n j c h k) [
      | inl (e, a, b) ↦ rw ((==_iff _ _).1 e) (omega (arith, rest))
      | inr (e, a) ↦ rw (ne→== _ _ e) (omega (arith, rest))
    ]

-- The store as it was, or registered with thread `i`.
abbrev pub RegisteredAt : ℕ → EventStore → EventStore → Type 0
RegisteredAt i before after =
    (after ≡ before) ⊎ (after ≡ record before { socket_event_handler = some (scheduled i) })

-- Each store goes to the next thread in turn, or could not be registered there.
abbrev pub Served : ℕ → ℕ → List (Ptr × EventStore) → List EventStore → Type 0
Served n c [] [] = Unit {0}
Served n c [] (o ∷ out) = ⊥
Served n c (r ∷ rs) [] = ⊥
Served n c ((p, r) ∷ rs) (o ∷ out) = RegisteredAt (next n c) r o × Served n (next n c) rs out

-- No store has a handler yet; every store has one.
abbrev pub AllNew : List (Ptr × EventStore) → Type 0
AllNew [] = Unit
AllNew ((p, r) ∷ rs) = (r.socket_event_handler ≡ none) × AllNew rs

abbrev pub AllRegistered : List EventStore → Type 0
AllRegistered [] = Unit
AllRegistered (o ∷ out) = (o.socket_event_handler ≢ none) × AllRegistered out

abbrev is_at : ℕ → Option Poller → Bool
is_at j none = false
is_at j (some (scheduled i)) = i == j
is_at j (some _) = false

-- The load of thread `j`.
pub load : ℕ → List EventStore → ℕ
load j [] = 0
load j (o ∷ out) = (if is_at j o.socket_event_handler then 1 else 0) + load j out

load-turns :
    (n j c : ℕ) (rs : List (Ptr × EventStore)) (out : List EventStore)
    → AllNew rs
    → Served n c rs out
    → (load j out ≤ turns n j c (length rs))
      × (AllRegistered out → load j out ≡ turns n j c (length rs))
unfolding load turns
load-turns n j c [] [] new served = (omega arith, λ _. refl)
load-turns n j c [] (o ∷ out) new served = absurd served
load-turns n j c (r ∷ rs) [] new served = absurd served
load-turns n j c ((p, r) ∷ rs) (o ∷ out) new (inl e, later) =
    let rest = load-turns n j (next n c) rs out new.1 later in
    rw (e, new.0) (omega (arith, rest.0), λ all. absurd (all.0 refl))
load-turns n j c ((p, r) ∷ rs) (o ∷ out) new (inr e, later) =
    let rest = load-turns n j (next n c) rs out new.1 later in
    rw e (omega (arith, rest.0), λ all. omega (arith, rest.1 all.1))

module _ {W : Type 0} (os : Os W) where
  -- A sequence of calls, as the accepting thread makes them.
  unfoldable pub add_sockets :
      EventScheduler → List (Ptr × EventStore) → W → Result (EventScheduler × List EventStore × W)
  add_sockets s [] w = ok (s, [], w)
  add_sockets s ((p, r) ∷ rs) w = do
    (added, s', o, w') ← add_socket os s p r w
    (s'', out, w'') ← add_sockets s' rs w'
    ok (s'', o ∷ out, w'')

  abbrev pub AfterAdd :
      EventScheduler → EventStore → Bool × EventScheduler × EventStore × W → Type 0
  AfterAdd s r (added, s', o, w') =
      IsValid s'
      × (s'.num_threads ≡ s.num_threads)
      × (s'.current_index ≡ next s.num_threads s.current_index)
      × RegisteredAt s'.current_index r o

  chosen :
      (i : ℕ) (h : SocketEventHandler.SocketEventHandler) (p : Ptr) (r : EventStore) (w : W)
      → RegisteredAt i r (SocketEventHandler.add_socket os (scheduled i) h p r w).1
  unfolding SocketEventHandler.add_socket
  chosen i h p r w = ground arith

  pub add_socket-AfterAdd :
      (s : EventScheduler) (p : Ptr) (r : EventStore) (w : W)
      → IsValid s
      → Returns (AfterAdd s r) (add_socket os s p r w)
  unfolding add_socket
  add_socket-AfterAdd s p r w v =
      let i = next s.num_threads s.current_index in
      let lt = next-lt s.num_threads s.current_index v.served in
      let (h, e) = at_lem s.socket_event_handlers i (omega (arith, lt, v.counted)) in
      rw (ne→== s.num_threads 0 (omega (arith, v.served)), e)
        (record { counted = v.counted; served = lt }, refl, refl, chosen i h p r w)

  abbrev pub AfterAll :
      EventScheduler → List (Ptr × EventStore) → EventScheduler × List EventStore × W → Type 0
  AfterAll s rs (s', out, w') =
      IsValid s' × (s'.num_threads ≡ s.num_threads) × Served s.num_threads s.current_index rs out

  -- Any sequence of `addSocket` calls on a valid scheduler returns, leaves it valid, and hands the
  -- stores to the threads in turn, from the one behind the current index on and round again.
  pub add_sockets-Served :
      (s : EventScheduler) (rs : List (Ptr × EventStore)) (w : W)
      → IsValid s
      → Returns (AfterAll s rs) (add_sockets s rs w)
  unfolding add_sockets
  add_sockets-Served s [] w v = (v, refl, tt)
  add_sockets-Served s ((p, r) ∷ rs) w v =
      Returns->>= (AfterAdd s r) (AfterAll s ((p, r) ∷ rs)) (add_socket os s p r w) _
        (add_socket-AfterAdd s p r w v)
        λ (added, s', o, w') (v', n, c, reg).
          Returns->>= (AfterAll s' rs) (AfterAll s ((p, r) ∷ rs)) (add_sockets s' rs w') _
            (add_sockets-Served s' rs w' v')
            λ (s'', out, w'') (v'', n', later). (
              v'',
              n' ∙ n,
              (
                subst (λ i. RegisteredAt i r o) c reg,
                subst (λ i. Served s.num_threads i rs out) c
                    (subst (λ k. Served k s'.current_index rs out) n later),
              ),
            )

  -- Whatever registrations fail, no thread gets more than its share of the sockets, rounded up; and
  -- if none fails, none gets less than it, rounded down.
  pub add_sockets-balanced :
      (s : EventScheduler) (rs : List (Ptr × EventStore)) (w : W)
      → IsValid s
      → AllNew rs
      → Returns
          (λ r.
            (j : ℕ)
            → j < s.num_threads
            → (load j r.1 * s.num_threads < length rs + s.num_threads)
              × (AllRegistered r.1 → length rs < (load j r.1 + 1) * s.num_threads))
          (add_sockets s rs w)
  add_sockets-balanced s rs w v new =
      let n = s.num_threads in
      Returns-map (AfterAll s rs) _ (add_sockets s rs w) (add_sockets-Served s rs w v)
        λ (s', out, w') (v', same, served) j h.
          let (few, exact) = load-turns n j s.current_index rs out new served in
          let (a, b) = turns_bounds n j (length rs) s.current_index v.served h in
          let (c, d) = gap-bounds n j s.current_index v.served h in
          (grind arith, λ all. rw (exact all) (omega arith))
