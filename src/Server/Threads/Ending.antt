-- ===== src/Server/Threads/Ending.antt =====
-- How a polling thread of src/networkevent/SocketEventHandler.cpp ends once `m_continuePolling` is
-- off, among the other threads of src/socket/server/TcpServerSocket.cpp.
use eventplus.Prelude.{
  ℕ, ◌+◌, ◌≡◌, refl, ap, ◌∙◌, inl, inr, false, [], ◌∷◌, ok, first_link, length, arith,
  if◌then◌else◌, Bool, Option-cases, Bool-cases, Returns,
}
use eventplus.Common.Details.{Poller, HandlerClass}
use eventplus.Common.Os.{Os}
use eventplus.Common.Handler.{BaseSocketHandler, HandlerLaws}
use eventplus.NetworkEvent.Polling.{is_hangup, process_event, handle_event}
use eventplus.NetworkEvent.Turns.{Place, at_test, in_batch, left_loop, polling_turn}
use eventplus.Server.State.{Server}
use eventplus.Server.Connections.{Uninit}
use eventplus.Server.System.{own_handler, callbacks}
use eventplus.Server.Threads.{
  System, same_poller, IsRunning, Step, polls, works, passes, Reaches, stays, followed_by,
}
use eventplus.Server.Threads.Pending.{poller-cases}
use eventplus.Server.Threads.Steady.{IsSteady}
use eventplus.Server.Threads.Safety.{Step-IsSteady, Reaches-IsSteady}

-- The steps that a thread has still to make when it is told to stop.
abbrev pub to_go : Place → ℕ
to_go left_loop = 0
to_go at_test = 1
to_go (in_batch es) = length es + 2

-- The next event that the thread handles is a hang-up.
abbrev pub next_is_hangup : Place → Bool
next_is_hangup (in_batch (e ∷ es)) = is_hangup e.events
next_is_hangup _ = false

module _ {W : Type 0} (os : Os W) (table : HandlerClass → BaseSocketHandler W)
    (uninit : Uninit) where
  abbrev is_step_of : Poller → {x y : System W} → Step os table uninit x y → ℕ
  is_step_of who (polls other x runs promised e) = if same_poller other who then 1 else 0
  is_step_of who (works i x e) = 0
  is_step_of who (passes w x) = 0

  -- How many of the steps are those of thread `who`.
  abbrev pub own_steps : Poller → {x y : System W} → Reaches os table uninit x y → ℕ
  own_steps who stays = 0
  own_steps who (followed_by before step) = own_steps who before + is_step_of who step

  polling_turn-off :
      (who : Poller) (place place' : Place) (s s' : Server W)
      → IsRunning place
      → (own_handler who s).continue_polling ≡ false
      → polling_turn (callbacks os table uninit who) place s ≡ ok (place', s')
      → to_go place' + 1 ≡ to_go place
  unfolding polling_turn
  polling_turn-off who at_test place' s s' runs off e =
      let same : left_loop ≡ place' = let e' = rw off at e in cc in rw (← same) refl
  polling_turn-off who (in_batch []) place' s s' runs off e =
      let same : at_test ≡ place' = cc in rw (← same) refl
  polling_turn-off who (in_batch (f ∷ es)) place' s s' runs off e =
      let (t, ran, e') =
        first_link (process_event (callbacks os table uninit who) f s) (place', s') e in
      let same : in_batch es ≡ place' = cc in rw (← same) (omega arith)
  polling_turn-off who left_loop place' s s' runs off e = absurd runs

  -- A step of a thread with its flag off; unless a hang-up comes, it leaves the server alone.
  abbrev pub Skips : Poller → Place → Server W → Type 0
  Skips who place s =
      if next_is_hangup place
      then Unit {0}
      else Returns (λ (place', s'). s' ≡ s) (polling_turn (callbacks os table uninit who) place s)

  polling_turn-Skips :
      (who : Poller) (place : Place) (s : Server W)
      → (own_handler who s).continue_polling ≡ false
      → Skips who place s
  unfolding polling_turn process_event handle_event
  polling_turn-Skips who at_test s off = rw off refl
  polling_turn-Skips who (in_batch []) s off = refl
  polling_turn-Skips who (in_batch (f ∷ es)) s off = elim (Bool-cases (is_hangup f.events)) [
    | inl hangs ↦ rw hangs tt
    | inr quiet ↦ elim (Option-cases f.ptr) [
      | inl none_there ↦ rw (quiet, none_there) refl
      | inr (p, there) ↦ rw (quiet, there, off) refl
    ]
  ]
  polling_turn-Skips who left_loop s off = refl

  Step-to_go :
      (who : Poller) {x y : System W} (step : Step os table uninit x y)
      → (own_handler who x.server).continue_polling ≡ false
      → is_step_of who step + to_go (y.place who) ≡ to_go (x.place who)
  Step-to_go who (works i x e) off = omega arith
  Step-to_go who (passes w x) off = omega arith
  Step-to_go who (polls other x {place} {s'} runs promised e) off = elim (poller-cases other who) [
    | inr (n, f) ↦ rw f (omega arith)
    | inl (same, t) ↦
        let one = polling_turn-off other (x.place other) place x.server s' runs (rw same off) e in
        let here : to_go (x.place other) ≡ to_go (x.place who) = ap (λ w. to_go (x.place w)) same in
        rw t (omega (arith, one, here))
  ]

module _ {W : Type 0} (os : Os W) (table : HandlerClass → BaseSocketHandler W)
    (laws : (c : HandlerClass) → HandlerLaws (table c)) (uninit : Uninit) where
  flag_stays :
      (who : Poller) {x y : System W}
      → Reaches os table uninit x y
      → IsSteady x
      → (own_handler who y.server).continue_polling ≡ (own_handler who x.server).continue_polling
  flag_stays who stays v = refl
  flag_stays who (followed_by before step) v =
      ap (λ h. h.continue_polling)
        ((Step-IsSteady os table laws uninit step
            (Reaches-IsSteady os table laws uninit before v)).1.0
          who)
      ∙ flag_stays who before v

  adds_up :
      (who : Poller) (x y : System W) (reached : Reaches os table uninit x y)
      → IsSteady x
      → (own_handler who x.server).continue_polling ≡ false
      → own_steps os table uninit who reached + to_go (y.place who) ≡ to_go (x.place who)
  adds_up who x y stays v off = omega arith
  adds_up who x y (followed_by {y = z} before step) v off =
      let so_far = adds_up who x z before v off in
      let one = Step-to_go os table uninit who step (flag_stays who before v ∙ off) in
      omega (arith, so_far, one)

  -- Under the conditions of `reached_threads-handle`: a thread whose flag is off makes, however the
  -- others take turns with it, exactly the steps that it has still to go: it passes over the events
  -- that it has been told of, comes to the test and leaves the loop; the steps it has made and
  -- those still to go always add up to what they were. A step of it leaves the server as it is,
  -- unless the next of its events is a hang-up: no data is read and no client is taken any more.
  pub stopped_thread-leaves :
      (who : Poller) (x y : System W) (reached : Reaches os table uninit x y)
      → IsSteady x
      → (own_handler who x.server).continue_polling ≡ false
      → (own_steps os table uninit who reached + to_go (y.place who) ≡ to_go (x.place who))
        × Skips os table uninit who (y.place who) y.server
  stopped_thread-leaves who x y reached v off = (
    adds_up who x y reached v off,
    polling_turn-Skips os table uninit who (y.place who) y.server (flag_stays who reached v ∙ off),
  )
