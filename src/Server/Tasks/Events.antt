-- ===== src/Server/Tasks/Events.antt =====
-- What an event of src/networkevent/SocketEventHandler.cpp that is no hang-up does to the tasks of
-- the pool: it may add one, for a store that is there.
use eventplus.Prelude.{
  ◌+◌, ◌≡◌, refl, ap, ◌∙◌, inl, inr, ℤ, false, Option, none, some, ok, first_link, Bool-cases,
  Option-cases, subst,
}
use eventplus.Common.Details.{
  Ptr, EventStore, Poller, HandlerClass, Dispatcher, server_socket, io_worker, tcp_client,
  tls_client_socket, incoming_data,
}
use eventplus.Common.Os.{Os, EpollEvent}
use eventplus.Common.Handler.{BaseSocketHandler, HandlerLaws}
use eventplus.Common.Handler
use eventplus.TcpHandler.{is_negative}
use eventplus.SocketHandler.{set_non_blocking}
use eventplus.NetworkEvent.EventScheduler
use eventplus.NetworkEvent.Polling.{is_hangup, dispatch, handle_event}
use eventplus.ThreadPool.{enqueue_task}
use eventplus.IoWorker.{queue_io_event}
use eventplus.Server.State.{Server, lookup, deref, write, delete}
use eventplus.Server.Connections.{Uninit, queue_event, own_client, register_client, handle_io_event}
use eventplus.Server.Registry.{ptr-cases, update_same, update_other}
use eventplus.Server.Refinement.{same_server, mark_incoming-keeps}
use eventplus.Server.System.{mark_incoming, own_handler, call_dispatcher, callbacks}
use eventplus.Server.Tasks.{TasksLive, AllFor-map, AllHold-map, AllFor-snoc}
use eventplus.Server.Total.{Live}

module _ {W : Type 0} where
  -- The pool is the same, and no store has gone.
  grown-TasksLive :
      (s s' : Server W)
      → s'.io_worker ≡ s.io_worker
      → ((q : Ptr) → Live q s → Live q s')
      → TasksLive s
      → TasksLive s'
  grown-TasksLive s s' same grows (queued, taken) = rw same (
    AllFor-map (λ q. Live q s) (λ q. Live q s') grows s.io_worker.thread_pool.tasks queued,
    AllHold-map (λ q. Live q s) (λ q. Live q s') grows s.io_worker.thread_pool.workers taken,
  )

  queue_event-TasksLive :
      (p : Ptr) (s : Server W) → Live p s → TasksLive s → TasksLive (queue_event p s)
  unfolding queue_event queue_io_event enqueue_task
  queue_event-TasksLive p s live (queued, taken) =
      (AllFor-snoc (λ q. Live q s) s.io_worker.thread_pool.tasks _ queued (p, refl, live), taken)

  write-Live :
      (p : Ptr) (new : EventStore) (s : Server W) (q : Ptr) → Live q s → Live q (write p new s)
  write-Live p new s q (st, live) = elim (ptr-cases p q) [
    | inl same ↦ (new, rw (← same) (update_same s.cell p _))
    | inr other ↦ (st, update_other s.cell p q _ other ∙ live)
  ]

module _ {W : Type 0} (os : Os W) (table : HandlerClass → BaseSocketHandler W) where
  register_client-TasksLive :
      (fd : ℤ) (p : Ptr) (store : EventStore) (s s' : Server W)
      → lookup fd s.client_event_stores ≡ none
      → register_client os table fd p store s ≡ ok s'
      → TasksLive s
      → TasksLive s'
  unfolding register_client own_client delete
  register_client-TasksLive fd p store s s' free e live =
      let ((started, store1, w1), a, e1) =
        first_link (Handler.init_connection table store s.world) s' e in
      let ((added, scheduler, store2, w3), b, e2) =
        first_link
          (EventScheduler.add_socket os s.event_scheduler p store1 (set_non_blocking os fd w1)) s'
          e1 in
      let s1 = record s { event_scheduler = scheduler; next_ptr = p + 1; world = w3 } in
      let s2 = own_client fd p (write p store2 s1) in
      let cells : s2.cell ≡ (write p store2 s).cell = rw free refl in
      let grows : (q : Ptr) → Live q s → Live q s2 =
        λ q there. let (st, c) = write-Live p store2 s q there in (st, ap (λ f. f q) cells ∙ c) in
      let here : Live p s2 = (store2, ap (λ f. f p) cells ∙ update_same s.cell p _) in
      subst TasksLive (same_server _ s' e2)
        (queue_event-TasksLive p s2 here (grown-TasksLive s s2 refl grows live))

module _ {W : Type 0} (os : Os W) (table : HandlerClass → BaseSocketHandler W)
    (uninit : Uninit) where
  -- The event is no hang-up, and a client at the door gets a socket that is not in the map.
  abbrev pub IsQuiet : EpollEvent → Server W → Type 0
  IsQuiet e s =
      (is_hangup e.events ≡ false)
      × ((p : Ptr) (st : EventStore)
          → e.ptr ≡ some p
          → s.cell p ≡ some st
          → lookup (os.accept st.socket_id s.world).0 s.client_event_stores ≡ none)

  handle_io_event-TasksLive :
      (p : Ptr) (st : EventStore) (s s' : Server W)
      → s.cell p ≡ some st
      → lookup (os.accept st.socket_id s.world).0 s.client_event_stores ≡ none
      → handle_io_event os table uninit p s ≡ ok s'
      → TasksLive s
      → TasksLive s'
  unfolding handle_io_event deref
  handle_io_event-TasksLive p st s s' there free e live =
      let (fd, address, w1) = os.accept st.socket_id s.world in
      let (ip, w2) = os.inet_ntop address.sin_addr w1 in
      let e1 = rw (there, handle_io_event, deref) at e in
      elim (Bool-cases (is_negative fd)) [
        | inl refused ↦ subst TasksLive (same_server _ s' (rw refused at e1)) live
        | inr taken ↦ elim (Option-cases ip) [
          | inl unknown ↦ subst TasksLive (same_server _ s' (rw (taken, unknown) at e1)) live
          | inr (text, known) ↦
              register_client-TasksLive os table fd s.next_ptr _ (record s { world = w2 }) s' free
                (rw (taken, known) at e1) live
        ]
      ]

  call_dispatcher-TasksLive :
      (d : Dispatcher) (p : Ptr) (st : EventStore) (s s' : Server W)
      → s.cell p ≡ some st
      → lookup (os.accept st.socket_id s.world).0 s.client_event_stores ≡ none
      → call_dispatcher os table uninit d p s ≡ ok s'
      → TasksLive s
      → TasksLive s'
  unfolding call_dispatcher
  call_dispatcher-TasksLive server_socket p st s s' there free e live =
      handle_io_event-TasksLive p st s s' there free e live
  call_dispatcher-TasksLive io_worker p st s s' there free e live =
      subst TasksLive (same_server _ s' e) (queue_event-TasksLive p s (st, there) live)
  call_dispatcher-TasksLive tcp_client p st s s' there free e live =
      subst TasksLive (same_server _ s' e) live
  call_dispatcher-TasksLive tls_client_socket p st s s' there free e live =
      subst TasksLive (same_server _ s' e) live

  mark_incoming-live :
      (p : Ptr) (s s' : Server W)
      → mark_incoming p s ≡ ok s'
      → (st : EventStore) × (s.cell p ≡ some st)
  unfolding mark_incoming deref
  mark_incoming-live p s s' e = elim (Option-cases (s.cell p)) [
    | inl gone ↦ let fault = rw (gone, mark_incoming, deref) at e in absurd (cc)
    | inr there ↦ there
  ]

  dispatch-TasksLive :
      (who : Poller) (d : Option Dispatcher) (p : Ptr) (s s' : Server W)
      → ((st : EventStore)
          → s.cell p ≡ some st
          → lookup (os.accept st.socket_id s.world).0 s.client_event_stores ≡ none)
      → dispatch (callbacks os table uninit who) d p s ≡ ok s'
      → TasksLive s
      → TasksLive s'
  unfolding dispatch
  dispatch-TasksLive who none p s s' free e live = subst TasksLive (same_server _ s' e) live
  dispatch-TasksLive who (some d) p s s' free e live =
      let (s1, marked, e') = first_link (mark_incoming p s) s' e in
      let (st, there) = mark_incoming-live p s s1 marked in
      let new = record st { event_type = incoming_data } in
      let same = mark_incoming-keeps os table p st s s1 there marked in
      call_dispatcher-TasksLive d p new (write p new s) s' (update_same s.cell p _) (free st there)
        (rw same at e') (grown-TasksLive s (write p new s) refl (write-Live p new s) live)

  pub handle_event-TasksLive :
      (who : Poller) (o : Option Ptr) (s s' : Server W)
      → ((p : Ptr) (st : EventStore)
          → o ≡ some p
          → s.cell p ≡ some st
          → lookup (os.accept st.socket_id s.world).0 s.client_event_stores ≡ none)
      → handle_event (callbacks os table uninit who) o s ≡ ok s'
      → TasksLive s
      → TasksLive s'
  unfolding handle_event
  handle_event-TasksLive who none s s' free e live = subst TasksLive (same_server _ s' e) live
  handle_event-TasksLive who (some p) s s' free e live =
      elim (Bool-cases (own_handler who s).continue_polling) [
        | inl on ↦
            dispatch-TasksLive who _ p s s' (λ st there. free p st refl there) (rw on at e) live
        | inr off ↦ subst TasksLive (same_server _ s' (rw off at e)) live
      ]
