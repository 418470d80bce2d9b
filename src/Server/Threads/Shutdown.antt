-- ===== src/Server/Threads/Shutdown.antt =====
-- `stopPolling` of src/socket/server/TcpServerSocket.cpp while an event thread of
-- src/networkevent/SocketEventHandler.cpp still has events of a wait to handle: nobody waits for
-- the thread.
use eventplus.Prelude.{
  ℕ, zero, suc, ◌<◌, ◌≡◌, refl, ap, ◌∙◌, inl, inr, Bool, false, ◌||◌, List, [], ◌∷◌, Option, none,
  some, ok, err, dangling, Returns, Returns-map, Returns-ok, first_link, get_elem?, int_eq,
  minus_one, if◌then◌else◌, Bool-cases, Option-cases, subst,
}
use eventplus.Common.Details.{Ptr, EventStore, Poller, scheduled, HandlerClass, server_removal}
use eventplus.Common.Os.{Os, EpollEvent}
use eventplus.Common.Handler.{BaseSocketHandler, HandlerLaws}
use eventplus.Common.Handler
use eventplus.SocketHandler.{is_socket_closed}
use eventplus.NetworkEvent.SocketEventHandler.{SocketEventHandler, stop_event_thread, close_epoll}
use eventplus.NetworkEvent.SocketEventHandler
use eventplus.NetworkEvent.EventScheduler.{stop_handlers, stop_all_polling_and_thread}
use eventplus.NetworkEvent.Polling.{is_hangup, process_event, process_events, handle_event, hang_up}
use eventplus.Server.State.{Server, deref, poller}
use eventplus.Server.Connections.{Uninit, remove_socket}
use eventplus.Server.Lifecycle.{close_server_socket, stop_polling}
use eventplus.Server.System.{own_handler, call_removal, callbacks}
use eventplus.Server.Refinement.{same_server}
use eventplus.Server.Stopping.{
  CanStop, SameThreads, close_all_client_socket-SameThreads, stop_polling-Stopped,
}
use eventplus.Server.Total.{IsWorking, poller-watches}
use eventplus.Server.Threads.{Pending}

-- A hang-up is among the events.
abbrev pub any_hangup : List EpollEvent → Bool
any_hangup [] = false
any_hangup (e ∷ es) = is_hangup e.events || any_hangup es

module _ {W : Type 0} (os : Os W) where
  -- What stopping leaves of a thread: its removal handler, with the flag off.
  abbrev Idles : SocketEventHandler → SocketEventHandler → Type 0
  Idles h h' =
      (h'.continue_polling ≡ false)
      × (h'.remove_socket_event_handler ≡ h.remove_socket_event_handler)

  stop_event_thread-Idles : (h : SocketEventHandler) (w : W) → Idles h (stop_event_thread os h w).0
  unfolding stop_event_thread close_epoll SocketEventHandler.stop_polling
  stop_event_thread-Idles h w =
      (refl, elim (Bool-cases h.continue_polling) [ inl on ↦ rw on refl | inr off ↦ rw off refl ])

  stop_handlers-Idles :
      (hs : List SocketEventHandler) (w : W) (i : ℕ) (h : SocketEventHandler)
      → get_elem? hs i ≡ some h
      → (h' : SocketEventHandler) × (get_elem? (stop_handlers os hs w).0 i ≡ some h') × Idles h h'
  unfolding stop_handlers
  stop_handlers-Idles [] w i h e = cc
  stop_handlers-Idles (x ∷ hs) w zero h e =
      let same : x ≡ h = cc in
      (
        _,
        refl,
        subst (λ y. Idles y (stop_event_thread os x w).0) same (stop_event_thread-Idles x w),
      )
  stop_handlers-Idles (x ∷ hs) w (suc i) h e = stop_handlers-Idles hs _ i h e

module _ {W : Type 0} (os : Os W) (table : HandlerClass → BaseSocketHandler W) where
  close_server_socket-SameThreads :
      (s s' : Server W) → close_server_socket os table s ≡ ok s' → SameThreads s s'
  unfolding close_server_socket
  close_server_socket-SameThreads s s' e = elim (Bool-cases (int_eq s.server_socket_id minus_one)) [
    | inl unset ↦ kept s (rw unset at e) (refl, refl)
    | inr is_set ↦ elim (Bool-cases (is_socket_closed os s.server_socket_id s.world).0) [
      | inl closed ↦ kept _ (rw (is_set, closed) at e) (refl, refl)
      | inr open_still ↦
          let ((p, st), read, e1) =
            first_link (deref s.event_store s) s' (rw (is_set, open_still) at e) in
          let ((st', w), shut, e2) = first_link (Handler.close_connection table st _) s' e1 in
          kept _ e2 (refl, refl)
    ]
  ]
    where
      kept : (t : Server W) → ok t ≡ ok s' → SameThreads s t → SameThreads s s'
      kept t done same = subst (SameThreads s) (same_server t s' done) same

module _ {W : Type 0} (os : Os W) (table : HandlerClass → BaseSocketHandler W)
    (laws : (c : HandlerClass) → HandlerLaws (table c)) where
  stop_polling-Idles :
      (i : ℕ) (h : SocketEventHandler) (s s' : Server W)
      → poller (scheduled i) s ≡ some h
      → stop_polling os table s ≡ ok s'
      → Idles os h (own_handler (scheduled i) s')
  unfolding stop_polling stop_all_polling_and_thread poller own_handler
  stop_polling-Idles i h s s' there e =
      let (s1, closed, e1) = first_link (close_server_socket os table s) s' e in
      let (own, all) = close_server_socket-SameThreads os table s s1 closed in
      let (kept, kept_all) = close_all_client_socket-SameThreads os table laws _ s' e1 in
      let hs = ap (λ t. t.socket_event_handlers) all in
      let (h', there', idles) =
        stop_handlers-Idles os s1.event_scheduler.socket_event_handlers _ i h
          (ap (λ xs. get_elem? xs i) hs ∙ there) in
      let found : get_elem? s'.event_scheduler.socket_event_handlers i ≡ some h' =
        ap (λ t. get_elem? t.socket_event_handlers i) kept_all ∙ there' in
      rw (found, own_handler, poller) idles

module _ {W : Type 0} (os : Os W) (table : HandlerClass → BaseSocketHandler W)
    (uninit : Uninit) where
  -- The thread has been told to stop, and the stores that its events name are gone.
  abbrev AllGone : List EpollEvent → Server W → Type 0
  AllGone [] s = Unit {0}
  AllGone (e ∷ es) s = ((p : Ptr) × (e.ptr ≡ some p) × (s.cell p ≡ none)) × AllGone es s

  remove_socket-gone :
      (o : Option Ptr) (p : Ptr) (s : Server W)
      → o ≡ some p
      → s.cell p ≡ none
      → call_removal os table uninit server_removal o s ≡ err dangling
  unfolding call_removal remove_socket deref
  remove_socket-gone o p s there gone = rw (there, deref, gone, deref) refl

  process_events-gone :
      (who : Poller) (es : List EpollEvent) (s : Server W)
      → (own_handler who s).continue_polling ≡ false
      → (own_handler who s).remove_socket_event_handler ≡ some server_removal
      → AllGone es s
      → process_events (callbacks os table uninit who) es s
        ≡ (if any_hangup es then err dangling else ok s)
  unfolding process_events process_event handle_event hang_up
  process_events-gone who [] s off remover gone = refl
  process_events-gone who (e ∷ es) s off remover ((p, there, gone), rest) =
      elim (Bool-cases (is_hangup e.events)) [
        | inl hangs ↦ rw (hangs, remover, remove_socket-gone e.ptr p s there gone) refl
        | inr stays ↦ rw (stays, there, off) (process_events-gone who es s off remover rest)
      ]

module _ {W : Type 0} (os : Os W) (table : HandlerClass → BaseSocketHandler W)
    (laws : (c : HandlerClass) → HandlerLaws (table c)) (uninit : Uninit) where
  Pending-AllGone :
      (i : ℕ) (es : List EpollEvent) (s s' : Server W)
      → IsWorking s
      → ((q : Ptr) (st : EventStore) → s'.cell q ≡ some st → s.event_store ≡ some q)
      → Pending (scheduled i) es s
      → AllGone os table uninit es s'
  Pending-AllGone i [] s s' v left told = tt
  Pending-AllGone i (e ∷ es) s s' v left ((p, st, there, is, watched, once), told) = (
    (
      p,
      there,
      elim (Option-cases (s'.cell p)) [
        | inl gone ↦ gone
        | inr (st', live) ↦ absurd (v.owners.apart st.socket_id p is.1 (left p st' live))
      ],
    ),
    Pending-AllGone i es s s' v left told,
  )

  -- With handlers that keep their laws, on a working server that has a listening store, or that
  -- never got a server socket: `stopPolling` comes while an event thread, whose removal handler is
  -- the server, still has events for its clients to handle. Nobody waits for the thread. Once
  -- `stopPolling` has returned the thread skips all that are no hang-ups; but for the first hang-up
  -- `removeSocket` reads the store of the client, which is deleted, and the behaviour is undefined.
  pub stop_polling-abandons :
      (i : ℕ) (es : List EpollEvent) (s : Server W)
      → IsWorking s
      → CanStop s
      → i < s.event_scheduler.num_threads
      → (own_handler (scheduled i) s).remove_socket_event_handler ≡ some server_removal
      → Pending (scheduled i) es s
      → Returns
          (λ s'.
            process_events (callbacks os table uninit (scheduled i)) es s'
            ≡ (if any_hangup es then err dangling else ok s'))
          (stop_polling os table s)
  unfolding own_handler poller
  stop_polling-abandons i es s v can lt remover told =
      let (h, there) = poller-watches os table laws (scheduled i) s v.threads lt in
      let of_h : h.remove_socket_event_handler ≡ some server_removal =
        rw (there, own_handler, poller) at remover in
      Returns-map _ _ (stop_polling os table s)
        (Returns-ok _ (stop_polling os table s) (stop_polling-Stopped os table laws uninit s v can)
          (λ s' ran. stop_polling-Idles os table laws i h s s' there ran))
        λ s' ((none_left, left, ends), (off, kept)).
          process_events-gone os table uninit (scheduled i) es s' off (kept ∙ of_h)
            (Pending-AllGone i es s s' v left told)
