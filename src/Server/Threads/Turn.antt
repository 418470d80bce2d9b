-- ===== src/Server/Threads/Turn.antt =====
-- A step of one polling thread of src/networkevent/SocketEventHandler.cpp, for all the threads of
-- the server.
use eventplus.Prelude.{
  ◌<◌, ◌≡◌, refl, ap, inl, inr, List, [], ◌∷◌, some, Returns, Returns-map, Returns-ok, Returns->>=,
  Bool-cases,
}
use eventplus.Common.Details.{Poller, listener, scheduled, client_poller, HandlerClass}
use eventplus.Common.Os.{Os, EpollEvent}
use eventplus.Common.Handler.{BaseSocketHandler, HandlerLaws}
use eventplus.NetworkEvent.Polling.{process_event}
use eventplus.NetworkEvent.Turns.{Place, at_test, in_batch, left_loop, polling_turn}
use eventplus.Server.Connections.{Uninit}
use eventplus.Server.System.{own_handler, callbacks}
use eventplus.Server.Beside.{process_event-Beside}
use eventplus.Server.Door.{process_event-Admits}
use eventplus.Server.Polled.{process_event-IsWorking}
use eventplus.Server.Total.{IsWorking}
use eventplus.Server.Threads.{System, batch, Names, Pending, Promises}
use eventplus.Server.Threads.Steady.{IsSteady, After, elsewhere, Beside-After, Admits-After}

module _ {W : Type 0} (os : Os W) (table : HandlerClass → BaseSocketHandler W)
    (laws : (c : HandlerClass) → HandlerLaws (table c)) (uninit : Uninit) where
  handled :
      (who : Poller) (e : EpollEvent) (es : List EpollEvent) (x : System W)
      → IsSteady x
      → Names who e es x.server
      → Pending who es x.server
      → Promises os table uninit who (in_batch (e ∷ es)) x
      → Returns (After who es x) (process_event (callbacks os table uninit who) e x.server)
  handled client_poller e es x v nobody told promised = absurd nobody
  handled listener e es x v (p, there, door, stays) told promised =
      let (st, live) = v.working.owners.listening p door in
      let this : e ≡ record { events = e.events; ptr = some p } =
        ap (λ o. record { events = e.events; ptr = o }) there in
      let run =
        process_event (callbacks os table uninit listener)
          (record { events = e.events; ptr = some p }) x.server in
      rw this (
        Returns-map _ _ run
          (Returns-ok IsWorking run
            (process_event-IsWorking os table laws uninit listener e.events p x.server v.working
              (st, live))
            (λ s' ran.
              process_event-Admits os table laws uninit listener e.events p st x.server s' v.working
                door live stays v.wired.to_door ran))
          λ s' (good, a). Admits-After _ es x s' v (promised p st there live) told a good)
  handled (scheduled i) e es x v (p, st, there, is, watched, once) told promised =
      let this : e ≡ record { events = e.events; ptr = some p } =
        ap (λ o. record { events = e.events; ptr = o }) there in
      let run =
        process_event (callbacks os table uninit (scheduled i))
          (record { events = e.events; ptr = some p }) x.server in
      let lt : i < x.server.event_scheduler.num_threads =
        rw watched at (v.working.owners.ready p st is.0).0 in
      rw this (
        Returns-map _ _ run
          (Returns-ok IsWorking run
            (process_event-IsWorking os table laws uninit (scheduled i) e.events p x.server
              v.working (st, is.0))
            (λ s' ran.
              process_event-Beside os table uninit (scheduled i) e.events p st x.server s'
                (v.wired.to_pool i lt) is ran))
          λ s' (good, b). Beside-After i e es p st x s' v is watched once told b good)

  -- The thread makes its next step.
  pub polling_turn-After :
      (who : Poller) (x : System W)
      → IsSteady x
      → (place : Place) → Pending who (batch place) x.server
      → Promises os table uninit who place x
      → Returns
          (λ (place', s'). After who (batch place') x s')
          (polling_turn (callbacks os table uninit who) place x.server)
  unfolding polling_turn
  polling_turn-After who x v at_test told promised =
      elim (Bool-cases (own_handler who x.server).continue_polling) [
        | inl on ↦ rw on (elsewhere who _ x _ v promised)
        | inr off ↦ rw off (v.working, (λ w. refl, refl, refl), tt, λ other n. v.pending other)
      ]
  polling_turn-After who x v (in_batch []) told promised =
      (v.working, (λ w. refl, refl, refl), tt, λ other n. v.pending other)
  polling_turn-After who x v (in_batch (e ∷ es)) (names, told) promised =
      Returns->>= _ _ (process_event (callbacks os table uninit who) e x.server) _
        (handled who e es x v names told promised) λ s' after. after
  polling_turn-After who x v left_loop told promised =
      (v.working, (λ w. refl, refl, refl), tt, λ other n. v.pending other)
