-- ===== src/Server/Threads/Calm.antt =====
-- The server of src/socket/server/TcpServerSocket.cpp with all its threads while no client hangs
-- up: the tasks of src/threadpool/ThreadPool.cpp name stores that are there.
use eventplus.Prelude.{
  ℕ, ◌≡◌, inl, inr, [], ◌∷◌, ok, Result, Returns, first_link, Bool-cases, subst,
}
use eventplus.Common.Details.{Poller, HandlerClass}
use eventplus.Common.Os.{Os}
use eventplus.Common.Handler.{BaseSocketHandler}
use eventplus.NetworkEvent.Polling.{process_event, handle_event}
use eventplus.NetworkEvent.Turns.{Place, at_test, in_batch, left_loop, polling_turn}
use eventplus.Server.State.{Server}
use eventplus.Server.Connections.{Uninit}
use eventplus.Server.System.{own_handler, callbacks, worker_turn}
use eventplus.Server.Tasks.Events.{IsQuiet, handle_event-TasksLive}
use eventplus.Server.Tasks.{TasksLive, worker_turn-TasksLive}
use eventplus.Server.Threads.{System, Step, polls, works, passes, Reaches, stays, followed_by}

module _ {W : Type 0} where
  same_step :
      (a b : Place) (s t : Server W)
      → ◌≡◌ {A = Result (Place × Server W)} (ok (a, s)) (ok (b, t))
      → s ≡ t
  same_step a b s t e = cc

module _ {W : Type 0} (os : Os W) (table : HandlerClass → BaseSocketHandler W)
    (uninit : Uninit) where
  -- Of a step of a polling thread.
  abbrev pub IsCalmAt : Place → Server W → Type 0
  IsCalmAt (in_batch (e ∷ es)) s = IsQuiet os table uninit e s
  IsCalmAt (in_batch []) s = Unit {0}
  IsCalmAt at_test s = Unit
  IsCalmAt left_loop s = Unit

  abbrev IsCalmStep : {x y : System W} → Step os table uninit x y → Type 0
  IsCalmStep (polls who x runs promised e) = IsCalmAt (x.place who) x.server
  IsCalmStep (works i x e) = Unit {0}
  IsCalmStep (passes w x) = Unit

  -- Nobody hangs up, and every new client gets a socket of its own.
  abbrev pub IsCalm : {x y : System W} → Reaches os table uninit x y → Type 0
  IsCalm stays = Unit {0}
  IsCalm (followed_by before step) = IsCalm before × IsCalmStep step

  polling_turn-TasksLive :
      (who : Poller) (place place' : Place) (s s' : Server W)
      → IsCalmAt place s
      → polling_turn (callbacks os table uninit who) place s ≡ ok (place', s')
      → TasksLive s
      → TasksLive s'
  unfolding polling_turn process_event
  polling_turn-TasksLive who at_test place' s s' calm e live =
      elim (Bool-cases (own_handler who s).continue_polling) [
        | inl on ↦ subst TasksLive (same_step _ place' _ s' (rw on at e)) live
        | inr off ↦ subst TasksLive (same_step _ place' _ s' (rw off at e)) live
      ]
  polling_turn-TasksLive who (in_batch []) place' s s' calm e live =
      subst TasksLive (same_step _ place' _ s' e) live
  polling_turn-TasksLive who (in_batch (f ∷ es)) place' s s' (stays_on, free) e live =
      let (t, ran, e') =
        first_link (process_event (callbacks os table uninit who) f s) (place', s') e in
      let quiet : handle_event (callbacks os table uninit who) f.ptr s ≡ ok t =
        rw stays_on at ran in
      subst TasksLive (same_step _ place' t s' e')
        (handle_event-TasksLive os table uninit who f.ptr s t free quiet live)
  polling_turn-TasksLive who left_loop place' s s' calm e live =
      subst TasksLive (same_step _ place' _ s' e) live

  Step-TasksLive :
      {x y : System W} (step : Step os table uninit x y)
      → IsCalmStep step
      → TasksLive x.server
      → TasksLive y.server
  Step-TasksLive (polls who x {place} {s'} runs promised e) calm live =
      polling_turn-TasksLive who (x.place who) place x.server s' calm e live
  Step-TasksLive (works i x e) calm live =
      let after = worker_turn-TasksLive i x.server live in rw e at after
  Step-TasksLive (passes w x) calm live = live

  Reaches-TasksLive :
      {x y : System W} (reached : Reaches os table uninit x y)
      → IsCalm reached
      → TasksLive x.server
      → TasksLive y.server
  Reaches-TasksLive stays calm live = live
  Reaches-TasksLive (followed_by before step) (earlier, now) live =
      Step-TasksLive step now (Reaches-TasksLive before earlier live)

  -- While nobody hangs up, and `accept` gives every new client a descriptor that is not in the map:
  -- however the polling threads, the pool and the world take turns, from a server all of whose
  -- tasks are for stores that are there, every thread of the pool makes its next step without a
  -- fault, and all its tasks are for stores that are there.
  pub calm_pool-works :
      (x y : System W) (reached : Reaches os table uninit x y)
      → TasksLive x.server
      → IsCalm reached
      → (i : ℕ) → Returns TasksLive (worker_turn i y.server)
  calm_pool-works x y reached live calm i =
      worker_turn-TasksLive i y.server (Reaches-TasksLive reached calm live)
