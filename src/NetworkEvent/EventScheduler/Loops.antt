-- ===== src/NetworkEvent/EventScheduler/Loops.antt =====
-- src/networkevent/EventScheduler.cpp: the scheduler's invariant, and the loops over its threads.
use eventplus.Prelude.{
  ℕ, zero, suc, ◌<◌, ◌≡◌, refl, ap, ◌∙◌, List, [], ◌∷◌, ◌++◌, map, Option, Result, ok, err, aborted,
  Returns, false, true, arith, length, length-snoc, set-middle, length-map, append_assoc,
}
use eventplus.Common.Details.{Dispatcher, RemovalHandler}
use eventplus.Common.Os.{Os}
use eventplus.NetworkEvent.SocketEventHandler
use eventplus.NetworkEvent.SocketEventHandler.{SocketEventHandler, Leftover}
use eventplus.NetworkEvent.EventScheduler.{
  EventScheduler, at, for_handlers, create_handlers, create_scheduler, set_socket_removal_handler,
  set_event_dispatcher_ptr, start_all_event_handler,
}

-- There is a thread, `m_numThreads` counts them, and the index names one.
pub record IsValid (s : EventScheduler) : Type 0 where
  pub counted : length s.socket_event_handlers ≡ s.num_threads
  pub served : s.current_index < s.num_threads

module _ {W : Type 0} (os : Os W) where
  length-create_handlers :
      (left : List Leftover) (w : W) → length (create_handlers os left w).0 ≡ length left
  unfolding create_handlers
  length-create_handlers [] w = refl
  length-create_handlers (l ∷ left) w = ap suc (length-create_handlers left _)

  pub create_scheduler-IsValid :
      (left : List Leftover) (w : W) → 0 < length left → IsValid (create_scheduler os left w).0
  unfolding create_scheduler
  create_scheduler-IsValid left w h = record { counted = length-create_handlers left w; served = h }

pub at_lem {ℓ} : {A : Type ℓ} (xs : List A) (i : ℕ) → i < length xs → (x : A) × (at xs i ≡ ok x)
at_lem [] i h = absurd (omega arith)
at_lem (x ∷ xs) zero h = (x, refl)
at_lem (x ∷ xs) (suc i) h = at_lem xs i (omega arith)

at-middle {ℓ} : {A : Type ℓ} (xs ys : List A) (x : A) → at (xs ++ x ∷ ys) (length xs) ≡ ok x
at-middle [] ys x = refl
at-middle (z ∷ xs) ys x = at-middle xs ys x

-- On each of the handlers `change` does what `f` does, and throws nothing.
abbrev pub AllDo :
    (SocketEventHandler → Result SocketEventHandler)
    → (SocketEventHandler → SocketEventHandler)
    → List SocketEventHandler
    → Type 0
AllDo change f [] = Unit {0}
AllDo change f (h ∷ hs) = (change h ≡ ok (f h)) × AllDo change f hs

pub AllDo-ok :
    (f : SocketEventHandler → SocketEventHandler) (hs : List SocketEventHandler)
    → AllDo (λ h. ok (f h)) f hs
AllDo-ok f [] = tt
AllDo-ok f (h ∷ hs) = (refl, AllDo-ok f hs)

-- Behind a beginning that is done, the loop changes each of the rest once.
for_handlers-rest :
    (change : SocketEventHandler → Result SocketEventHandler)
    (f : SocketEventHandler → SocketEventHandler) (done rest : List SocketEventHandler)
    → AllDo change f rest
    → for_handlers change (length rest) (length done) (done ++ rest) ≡ ok (done ++ map f rest)
unfolding for_handlers
for_handlers-rest change f done [] all = refl
for_handlers-rest change f done (h ∷ rest) (this, all) =
    let x = f h in
    let later = for_handlers-rest change f (done ++ x ∷ []) rest all in
    rw (at-middle done rest h, this, set-middle done rest h x)
      (rw (length-snoc done x, append_assoc, append_assoc) at later)

-- With a valid scheduler the index loops over its threads run into no missing one: if the call
-- throws nothing on any thread, they change every handler, once each.
pub over_handlers-map :
    (change : SocketEventHandler → Result SocketEventHandler)
    (f : SocketEventHandler → SocketEventHandler) (s : EventScheduler)
    → IsValid s
    → AllDo change f s.socket_event_handlers
    → for_handlers change s.num_threads 0 s.socket_event_handlers
      ≡ ok (map f s.socket_event_handlers)
over_handlers-map change f s v all =
    rw (← v.counted) (for_handlers-rest change f [] s.socket_event_handlers all)

-- No thread has been started.
abbrev pub AllIdle : List SocketEventHandler → Type 0
AllIdle [] = Unit {0}
AllIdle (h ∷ hs) = (h.started ≡ false) × AllIdle hs

module _ {W : Type 0} (os : Os W) where
  create_handlers-AllIdle : (left : List Leftover) (w : W) → AllIdle (create_handlers os left w).0
  unfolding create_handlers SocketEventHandler.create_handler SocketEventHandler.create_epoll
  create_handlers-AllIdle [] w = tt
  create_handlers-AllIdle (l ∷ left) w = (refl, create_handlers-AllIdle left _)

  pub create_scheduler-AllIdle :
      (left : List Leftover) (w : W) → AllIdle (create_scheduler os left w).0.socket_event_handlers
  unfolding create_scheduler
  create_scheduler-AllIdle left w = create_handlers-AllIdle left w

map-AllIdle :
    (f : SocketEventHandler → SocketEventHandler) (hs : List SocketEventHandler)
    → ((h : SocketEventHandler) → (f h).started ≡ h.started)
    → AllIdle hs
    → AllIdle (map f hs)
map-AllIdle f [] same idle = tt
map-AllIdle f (h ∷ hs) same (this, idle) = (same h ∙ this, map-AllIdle f hs same idle)

pub start_idle :
    (h : SocketEventHandler)
    → h.started ≡ false
    → SocketEventHandler.start_event_receiver_thread h ≡ ok (record h { started = true })
unfolding SocketEventHandler.start_event_receiver_thread
start_idle h idle = rw (idle, SocketEventHandler.start_event_receiver_thread)

pub start_again :
    (h : SocketEventHandler)
    → h.started ≡ true
    → SocketEventHandler.start_event_receiver_thread h ≡ err aborted
unfolding SocketEventHandler.start_event_receiver_thread
start_again h again = rw (again, SocketEventHandler.start_event_receiver_thread)

AllIdle-AllDo :
    (hs : List SocketEventHandler)
    → AllIdle hs
    → AllDo SocketEventHandler.start_event_receiver_thread (λ h. record h { started = true }) hs
AllIdle-AllDo [] idle = tt
AllIdle-AllDo (h ∷ hs) (this, idle) = (start_idle h this, AllIdle-AllDo hs idle)

-- A valid scheduler with as many threads.
abbrev pub Rewired : EventScheduler → EventScheduler → Type 0
Rewired s t = IsValid t × (t.num_threads ≡ s.num_threads)

-- If no thread of the one has been started, none of the other has.
abbrev pub StaysIdle : EventScheduler → EventScheduler → Type 0
StaysIdle s t = AllIdle s.socket_event_handlers → AllIdle t.socket_event_handlers

module _ (s : EventScheduler) (v : IsValid s) where
  after-Rewired :
      (f : SocketEventHandler → SocketEventHandler)
      → Rewired s (record s { socket_event_handlers = map f s.socket_event_handlers })
  after-Rewired f = (
    record { counted = length-map s.socket_event_handlers f ∙ v.counted; served = v.served },
    refl,
  )

  pub set_socket_removal_handler-Rewired :
      (r : Option RemovalHandler)
      → Returns (λ t. Rewired s t × StaysIdle s t) (set_socket_removal_handler r s)
  unfolding set_socket_removal_handler SocketEventHandler.set_socket_removal_handler
  set_socket_removal_handler-Rewired r =
      let f : SocketEventHandler → SocketEventHandler =
        λ h. SocketEventHandler.set_socket_removal_handler h r in
      rw (over_handlers-map _ f s v (AllDo-ok f s.socket_event_handlers))
        (after-Rewired f, map-AllIdle f s.socket_event_handlers (λ h. refl))

  pub set_event_dispatcher_ptr-Rewired :
      (d : Option Dispatcher)
      → Returns (λ t. Rewired s t × StaysIdle s t) (set_event_dispatcher_ptr d s)
  unfolding set_event_dispatcher_ptr SocketEventHandler.set_event_dispatcher_ptr
  set_event_dispatcher_ptr-Rewired d =
      let f : SocketEventHandler → SocketEventHandler =
        λ h. SocketEventHandler.set_event_dispatcher_ptr h d in
      rw (over_handlers-map _ f s v (AllDo-ok f s.socket_event_handlers))
        (after-Rewired f, map-AllIdle f s.socket_event_handlers (λ h. refl))

  pub start_all_event_handler-Rewired :
      AllIdle s.socket_event_handlers → Returns (Rewired s) (start_all_event_handler s)
  unfolding start_all_event_handler
  start_all_event_handler-Rewired idle =
      rw (over_handlers-map _ _ s v (AllIdle-AllDo s.socket_event_handlers idle)) (after-Rewired _)
