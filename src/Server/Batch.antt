-- ===== src/Server/Batch.antt =====
-- One pass of `startPolling` of src/networkevent/SocketEventHandler.cpp over the events that a wait
-- tells of, on a thread that watches clients.
use eventplus.Prelude.{
  ◌≡◌, ◌≢◌, refl, ap, ◌∙◌, List, [], ◌∷◌, some, Returns, Returns-map, Returns-ok, Returns->>=,
}
use eventplus.Common.Details.{
  Ptr, EventStore, Poller, listener, scheduled, client_poller, HandlerClass, io_worker,
}
use eventplus.Common.Os.{Os, EpollEvent}
use eventplus.Common.Handler.{BaseSocketHandler, HandlerLaws}
use eventplus.NetworkEvent.Polling.{process_event, process_events}
use eventplus.Server.State.{Server, poller}
use eventplus.Server.Connections.{Uninit}
use eventplus.Server.System.{own_handler, callbacks}
use eventplus.Server.Total.{IsWorking}
use eventplus.Server.Polled.{process_event-IsWorking}
use eventplus.Server.Beside.{IsClient, Beside, process_event-Beside}

-- No event of the list names `p`.
abbrev pub Apart : Ptr → List EpollEvent → Type 0
Apart p [] = Unit {0}
Apart p (e ∷ es) = (e.ptr ≢ some p) × Apart p es

module _ {W : Type 0} where
  -- Each event names a client, and no two the same.
  abbrev pub IsBatch : List EpollEvent → Server W → Type 0
  IsBatch [] s = Unit {0}
  IsBatch (e ∷ es) s =
      ((p : Ptr) × (st : EventStore) × (e.ptr ≡ some p) × IsClient p st s × Apart p es)
      × IsBatch es s

  IsBatch-Beside :
      (p : Ptr) (es : List EpollEvent) (s s' : Server W)
      → Beside p s s'
      → Apart p es
      → IsBatch es s
      → IsBatch es s'
  IsBatch-Beside p [] s s' b apart batch = tt
  IsBatch-Beside p (e ∷ es) s s' b (other, apart) ((q, st, names, is, apart_q), batch) = (
    (q, st, names, b.clients q st (λ h. other (rw h names)) is, apart_q),
    IsBatch-Beside p es s s' b apart batch,
  )

  pub own_handler-Beside :
      (who : Poller) (p : Ptr) (s s' : Server W)
      → Beside p s s'
      → own_handler who s' ≡ own_handler who s
  unfolding own_handler poller
  own_handler-Beside listener p s s' b = b.own
  own_handler-Beside client_poller p s s' b = b.own
  own_handler-Beside (scheduled i) p s s' b = rw (b.own, b.scheduled_threads) refl

module _ {W : Type 0} (os : Os W) (table : HandlerClass → BaseSocketHandler W)
    (laws : (c : HandlerClass) → HandlerLaws (table c)) (uninit : Uninit) where
  -- With handlers that keep their laws, on a working server: a thread that hands its events to the
  -- pool is told of events for any number of clients, of no client twice. It handles them all, be
  -- it data or hang-ups, without a fault, the server goes on working, and its client map and memory
  -- keep every client that no event was for.
  pub process_events-IsWorking :
      (who : Poller) (es : List EpollEvent) (s : Server W)
      → (own_handler who s).event_dispatcher ≡ some io_worker
      → IsWorking s
      → IsBatch es s
      → Returns
          (λ s'.
            IsWorking s'
            × ((q : Ptr) (st : EventStore) → Apart q es → IsClient q st s → IsClient q st s'))
          (process_events (callbacks os table uninit who) es s)
  unfolding process_events
  process_events-IsWorking who [] s to_pool v batch = (v, λ q st apart is. is)
  process_events-IsWorking who (e ∷ es) s to_pool v ((p, st, names, is, apart), batch) =
      let told : EpollEvent = record { events = e.events; ptr = some p } in
      let this : e ≡ told = ap (λ o. record { events = e.events; ptr = o }) names in
      let run = process_event (callbacks os table uninit who) told s in
      rw this (
        Returns->>= _ _ run _
          (Returns-ok IsWorking run
            (process_event-IsWorking os table laws uninit who e.events p s v (st, is.0))
            (λ s' ran. process_event-Beside os table uninit who e.events p st s s' to_pool is ran))
          λ s' (v', b).
            Returns-map _ _ (process_events (callbacks os table uninit who) es s')
              (process_events-IsWorking who es s'
                (ap (λ h. h.event_dispatcher) (own_handler-Beside who p s s' b) ∙ to_pool) v'
                (IsBatch-Beside p es s s' b apart batch))
              λ s'' (v'', keeps). (
                v'',
                λ q stq (other, apart_q) is_q.
                    keeps q stq apart_q (b.clients q stq (λ h. other (ap some h)) is_q),
              ))
