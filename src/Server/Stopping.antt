-- ===== src/Server/Stopping.antt =====
-- `stopPolling` of src/socket/server/TcpServerSocket.cpp, the body of its destructor: the clients
-- are closed, and every polling loop ends.
use eventplus.Prelude.{
  ℕ, zero, suc, ◌≡◌, refl, sym, ap, ◌∙◌, ◌⊎◌, inl, inr, ℤ, minus_one, false, List, [], ◌∷◌, some,
  ok, Returns, Returns-ok, Returns->>=, Returns-map, first_link, int_eq, int_eq_refl, Bool-cases,
  Option-cases, get_elem?, length, subst,
}
use eventplus.Common.Details.{
  Ptr, EventStore, Poller, listener, scheduled, client_poller, HandlerClass,
}
use eventplus.Common.Os.{Os}
use eventplus.Common.Handler.{BaseSocketHandler, KeepsStore, HandlerLaws}
use eventplus.Common.Handler
use eventplus.SocketHandler.{is_socket_closed}
use eventplus.NetworkEvent.SocketEventHandler.{SocketEventHandler, stop_event_thread, close_epoll}
use eventplus.NetworkEvent.EventScheduler.{stop_handlers, stop_all_polling_and_thread}
use eventplus.NetworkEvent.Polling.{start_polling, start_polling-off}
use eventplus.Server.State.{Server, deref, poller}
use eventplus.Server.Connections.{Uninit}
use eventplus.Server.Lifecycle.{
  close_server_socket, close_clients, close_all_client_socket, clear_clients, stop_polling,
}
use eventplus.Server.System.{own_handler, callbacks}
use eventplus.Server.Closing.{close_all_client_socket-Clears}
use eventplus.Server.Total.{IsWorking, deref-live, write-IsWorking, close_connection-Keeps}

abbrev pub IsStopped : SocketEventHandler → Type 0
IsStopped h = (h.continue_polling ≡ false) × (h.epoll_file_descriptor ≡ minus_one)

abbrev pub AllStopped : List SocketEventHandler → Type 0
AllStopped [] = Unit {0}
AllStopped (h ∷ hs) = IsStopped h × AllStopped hs

module _ {W : Type 0} (os : Os W) where
  stop_event_thread-IsStopped :
      (h : SocketEventHandler) (w : W) → IsStopped (stop_event_thread os h w).0
  unfolding stop_event_thread close_epoll
  stop_event_thread-IsStopped h w = (refl, refl)

  pub stop_handlers-AllStopped :
      (hs : List SocketEventHandler) (w : W)
      → AllStopped (stop_handlers os hs w).0 × (length (stop_handlers os hs w).0 ≡ length hs)
  unfolding stop_handlers
  stop_handlers-AllStopped [] w = (tt, refl)
  stop_handlers-AllStopped (h ∷ hs) w =
      let (all, count) = stop_handlers-AllStopped hs _ in
      ((stop_event_thread-IsStopped h w, all), ap suc count)

AllStopped-get_elem? :
    (hs : List SocketEventHandler) (i : ℕ) (h : SocketEventHandler)
    → AllStopped hs
    → get_elem? hs i ≡ some h
    → IsStopped h
AllStopped-get_elem? [] i h all e = cc
AllStopped-get_elem? (x ∷ hs) zero h all e = let same : x ≡ h = cc in rw (← same) all.0
AllStopped-get_elem? (x ∷ hs) (suc i) h all e = AllStopped-get_elem? hs i h all.1 e

module _ {W : Type 0} where
  abbrev ThreadsStopped : Server W → Type 0
  ThreadsStopped s =
      IsStopped s.socket_event_handler × AllStopped s.event_scheduler.socket_event_handlers

  -- The threads are left alone.
  abbrev pub SameThreads : Server W → Server W → Type 0
  SameThreads s s' =
      (s'.socket_event_handler ≡ s.socket_event_handler) × (s'.event_scheduler ≡ s.event_scheduler)

  -- There is a listening store, or `m_serverSocketID` says that there is none.
  abbrev pub CanStop : Server W → Type 0
  CanStop s = (s.server_socket_id ≡ minus_one) ⊎ ((p : Ptr) × (s.event_store ≡ some p))

  own_handler-IsStopped :
      (who : Poller) (s : Server W) → ThreadsStopped s → IsStopped (own_handler who s)
  unfolding own_handler poller
  own_handler-IsStopped listener s (own, all) = own
  own_handler-IsStopped client_poller s (own, all) = own
  own_handler-IsStopped (scheduled i) s (own, all) =
      elim (Option-cases (get_elem? s.event_scheduler.socket_event_handlers i)) [
        | inl e ↦ rw (e, own_handler, poller) own
        | inr (h, e) ↦ rw (e, own_handler, poller) (AllStopped-get_elem? _ i h all e)
      ]

module _ {W : Type 0} (os : Os W) (table : HandlerClass → BaseSocketHandler W) where
  -- No client and no client's store is left, and the polling loop of any thread ends when it comes
  -- to its test.
  abbrev pub Stopped : Uninit → Server W → Server W → Type 0
  Stopped uninit s s' =
      (s'.client_event_stores ≡ [])
      × ((q : Ptr) (st : EventStore) → s'.cell q ≡ some st → s.event_store ≡ some q)
      × ((who : Poller) (fuel : ℕ)
          → start_polling (callbacks os table uninit who) (suc fuel) s' ≡ ok s')

module _ {W : Type 0} (os : Os W) (table : HandlerClass → BaseSocketHandler W)
    (laws : (c : HandlerClass) → HandlerLaws (table c)) where
  abbrev pub StillWorks : Server W → Server W → Type 0
  StillWorks s s' = IsWorking s' × (s'.event_store ≡ s.event_store)

  pub in_world : (s : Server W) (w : W) → IsWorking s → IsWorking (record s { world = w })
  in_world s w v = record { owners = v.owners; threads = v.threads; handler = v.handler }

  pub close_server_socket-StillWorks :
      (s : Server W)
      → IsWorking s
      → CanStop s
      → Returns (StillWorks s) (close_server_socket os table s)
  unfolding close_server_socket
  close_server_socket-StillWorks s v can = elim (Bool-cases (int_eq s.server_socket_id minus_one)) [
    | inl unset ↦ rw unset (v, refl)
    | inr is_set ↦ rw is_set (elim (Bool-cases (is_socket_closed os s.server_socket_id s.world).0) [
      | inl closed ↦ rw closed (in_world s _ v, refl)
      | inr open_still ↦ rw open_still (elim can [
        | inl none_set ↦ let no = rw (none_set, int_eq_refl minus_one) at is_set in absurd (cc)
        | inr (p, e) ↦
            let (st, live) = v.owners.listening p e in
            let read = ap (λ o. deref o s) e ∙ deref-live os table laws p st s live in
            rw read (
              Returns->>= (λ r. KeepsStore st r.0) (StillWorks s)
                (Handler.close_connection table st _) _
                (close_connection-Keeps table laws st _ (v.owners.ready p st live).1)
                λ (st', w) k. (
                  write-IsWorking os table laws p st st' (record s { world = w }) (in_world s w v)
                      live k,
                  refl,
                ))
      ])
    ])
  ]

  close_clients-SameThreads :
      (m : List (ℤ × Ptr)) (s s' : Server W) → close_clients os table m s ≡ ok s' → SameThreads s s'
  unfolding close_clients
  close_clients-SameThreads [] s s' e = let same : s ≡ s' = cc in (rw same refl, rw same refl)
  close_clients-SameThreads ((fd, p) ∷ m) s s' e =
      let ((q, store), read, e1) = first_link (deref (some p) s) s' e in
      let ((store', w), closed, e2) =
        first_link (Handler.close_connection table store s.world) s' e1 in
      close_clients-SameThreads m _ s' e2

  pub close_all_client_socket-SameThreads :
      (s s' : Server W) → close_all_client_socket os table s ≡ ok s' → SameThreads s s'
  unfolding close_all_client_socket clear_clients
  close_all_client_socket-SameThreads s s' e =
      let (s1, closed, e1) = first_link (close_clients os table s.client_event_stores s) s' e in
      let (own, all) = close_clients-SameThreads s.client_event_stores s s1 closed in
      let same : clear_clients s1 ≡ s' = cc in (rw (← same) own, rw (← same) all)

  -- With handlers that keep their laws, on a working server that has a listening store, or that
  -- never got a server socket: `stopPolling` ends without a fault. Afterwards no client and no
  -- client's store is left, and the polling loop of any of its threads ends when it comes to its
  -- test.
  pub stop_polling-Stopped :
      (uninit : Uninit) (s : Server W)
      → IsWorking s
      → CanStop s
      → Returns (Stopped os table uninit s) (stop_polling os table s)
  unfolding stop_polling stop_all_polling_and_thread
  stop_polling-Stopped uninit s v can =
      Returns->>= (StillWorks s) (Stopped os table uninit s) (close_server_socket os table s) _
        (close_server_socket-StillWorks s v can)
        λ s1 (v1, e).
          let (own, w1) = stop_event_thread os s1.socket_event_handler s1.world in
          let (scheduler, w2) = stop_all_polling_and_thread os s1.event_scheduler w1 in
          let s2 = record s1 {
            socket_event_handler = own;
            event_scheduler = scheduler;
            world = w2;
          } in
          let (all, count) =
            stop_handlers-AllStopped os s1.event_scheduler.socket_event_handlers w1 in
          let v2 : IsWorking s2 = record {
            owners = v1.owners;
            threads = record { counted = count ∙ v1.threads.counted; served = v1.threads.served };
            handler = v1.handler;
          } in
          let cleared = close_all_client_socket-Clears os table laws s2 v2 in
          Returns-map _ (Stopped os table uninit s) (close_all_client_socket os table s2)
            (Returns-ok _ (close_all_client_socket os table s2) cleared
              (λ s' ran. close_all_client_socket-SameThreads s2 s' ran))
            λ s' ((none_left, stores), (own_kept, all_kept)).
              let threads : ThreadsStopped s' = (
                subst IsStopped (sym own_kept) (stop_event_thread-IsStopped os _ _),
                subst (λ x. AllStopped x.socket_event_handlers) (sym all_kept) all,
              ) in
              (
                none_left,
                λ q st c. sym e ∙ stores q st c,
                λ who fuel.
                    start_polling-off (callbacks os table uninit who) fuel s'
                      (own_handler-IsStopped who s' threads).0,
              )
