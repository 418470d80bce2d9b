-- ===== src/Server/Beside.antt =====
-- What an event for one client of src/socket/server/TcpServerSocket.cpp leaves alone: the threads,
-- and the other clients.
use eventplus.Prelude.{
  ℕ, ◌≡◌, ◌≢◌, refl, sym, ap, ◌∙◌, inl, inr, Option, none, some, ok, first_link, Bool-cases,
  Option-cases, subst,
}
use eventplus.Common.Details.{
  Ptr, EventStore, Poller, HandlerClass, Dispatcher, server_socket, io_worker, tcp_client,
  tls_client_socket, closed_connection, RemovalHandler, server_removal,
}
use eventplus.Common.Os.{Os}
use eventplus.Common.Handler.{BaseSocketHandler, HandlerLaws}
use eventplus.Common.Handler
use eventplus.NetworkEvent.Polling.{process_event, is_hangup, dispatch, hang_up, handle_event}
use eventplus.Server.State.{Server, lookup, deref, write, poller}
use eventplus.Server.Connections.{Uninit, queue_event, disown_client, unwatch, remove_socket}
use eventplus.Server.Registry.{update_other, delete_other, lookup-erase_ne}
use eventplus.Server.System.{mark_incoming, own_handler, call_dispatcher, call_removal, callbacks}
use eventplus.Server.Refinement.{same_server, mark_incoming-keeps, unwatch-clients}

module _ {W : Type 0} where
  -- The client map owns `st` at `p`.
  abbrev pub IsClient : Ptr → EventStore → Server W → Type 0
  IsClient p st s = (s.cell p ≡ some st) × (lookup st.socket_id s.client_event_stores ≡ some p)

  -- From `s` to `s'` nothing changes for the threads and for the stores but `p`.
  pub record Beside (p : Ptr) (s s' : Server W) : Type 0 where
    pub own : s'.socket_event_handler ≡ s.socket_event_handler
    pub scheduled_threads : s'.event_scheduler ≡ s.event_scheduler
    pub door : s'.event_store ≡ s.event_store
    pub clients : (q : Ptr) (st : EventStore) → p ≢ q → IsClient q st s → IsClient q st s'

  Beside-refl : (p : Ptr) (s s' : Server W) → ok s ≡ ok s' → Beside p s s'
  Beside-refl p s s' e =
      let same = same_server s s' e in
      record {
        own = ap (λ t. t.socket_event_handler) (sym same);
        scheduled_threads = ap (λ t. t.event_scheduler) (sym same);
        door = ap (λ t. t.event_store) (sym same);
        clients = λ q st other is. rw (← same) is;
      }

  -- The queueing and the end of `removeSocket`.
  disown-Beside :
      (p : Ptr) (st : EventStore) (s s1 : Server W)
      → IsClient p st s
      → s1.socket_event_handler ≡ s.socket_event_handler
      → s1.event_scheduler ≡ s.event_scheduler
      → s1.event_store ≡ s.event_store
      → ((q : Ptr) → p ≢ q → s1.cell q ≡ s.cell q)
      → s1.client_event_stores ≡ s.client_event_stores
      → Beside p s (disown_client st.socket_id (queue_event p s1))
  unfolding disown_client queue_event
  disown-Beside p st s s1 (live, known) own all door cells same = record {
    own = own;
    scheduled_threads = all;
    door = door;
    clients = λ q stq other (live_q, known_q).
        let apart : st.socket_id ≢ stq.socket_id = λ h. other (let known' = rw h at known in cc) in
        (
          rw (same, known)
              (delete_other s1.cell (some p) q (λ h. other (cc)) ∙ cells q other ∙ live_q),
          rw same
              (lookup-erase_ne st.socket_id s.client_event_stores stq.socket_id apart ∙ known_q),
        );
  }

module _ {W : Type 0} (os : Os W) (table : HandlerClass → BaseSocketHandler W)
    (uninit : Uninit) where
  -- Taking a store from its thread writes this store, and no other.
  unwatch-cell :
      (p : Ptr) (st : EventStore) (s s' : Server W) (o : Option Poller)
      → st.socket_event_handler ≡ o
      → unwatch os table p st s ≡ ok s'
      → (s'.socket_event_handler ≡ s.socket_event_handler)
        × (s'.event_scheduler ≡ s.event_scheduler)
        × (s'.event_store ≡ s.event_store)
        × ((q : Ptr) → p ≢ q → s'.cell q ≡ s.cell q)
  unfolding unwatch
  unwatch-cell p st s s' none f e =
      let same = same_server s s' (rw (f, unwatch) at e) in
      rw (← same) (refl, refl, refl, λ q other. refl)
  unwatch-cell p st s s' (some who) f e = elim (Option-cases (poller who s)) [
    | inl nobody ↦ let fault = rw (f, unwatch, nobody) at e in absurd (cc)
    | inr (h, there) ↦
        let ((st', w2), closed, e') =
          first_link (Handler.close_connection table st _) s' (rw (f, unwatch, there) at e) in
        let same = same_server _ s' e' in
        (
          ap (λ t. t.socket_event_handler) (sym same),
          ap (λ t. t.event_scheduler) (sym same),
          ap (λ t. t.event_store) (sym same),
          λ q other. ap (λ t. t.cell q) (sym same) ∙ update_other s.cell p q _ other,
        )
  ]

  remove_socket-Beside :
      (p : Ptr) (st : EventStore) (s s' : Server W)
      → IsClient p st s
      → remove_socket os table (some p) s ≡ ok s'
      → Beside p s s'
  unfolding remove_socket disown_client queue_event deref
  remove_socket-Beside p st s s' (live, known) e =
      let closing = record st { event_type = closed_connection } in
      let (s1, taken, e') =
        first_link (unwatch os table p closing (write p closing s)) s'
          (rw (live, remove_socket, deref) at e) in
      let left =
        unwatch-cell p closing (write p closing s) s1 closing.socket_event_handler refl taken in
      let map_same =
        unwatch-clients os table p closing (write p closing s) s1 closing.socket_event_handler refl
          taken in
      subst (Beside p s) (same_server _ s' e') (
        disown-Beside p st s s1 (live, known) left.0 left.1 left.2
          (λ q other. left.3 q other ∙ update_other s.cell p q _ other) map_same)

  dispatch-Beside :
      (who : Poller) (d : Option Dispatcher) (p : Ptr) (st : EventStore) (s s' : Server W)
      → d ≡ some io_worker
      → IsClient p st s
      → dispatch (callbacks os table uninit who) d p s ≡ ok s'
      → Beside p s s'
  unfolding dispatch call_dispatcher queue_event
  dispatch-Beside who none p st s s' to_pool is e = cc
  dispatch-Beside who (some server_socket) p st s s' to_pool is e = absurd (cc)
  dispatch-Beside who (some tcp_client) p st s s' to_pool is e = absurd (cc)
  dispatch-Beside who (some tls_client_socket) p st s s' to_pool is e = absurd (cc)
  dispatch-Beside who (some io_worker) p st s s' to_pool (live, known) e =
      let (s1, marked, e') = first_link (mark_incoming p s) s' e in
      let same = mark_incoming-keeps os table p st s s1 live marked in
      subst (Beside p s) (same_server _ s' e') (
        rw same (record {
          own = refl;
          scheduled_threads = refl;
          door = refl;
          clients =
              λ q stq other (live_q, known_q). (update_other s.cell p q _ other ∙ live_q, known_q);
        }))

  hang_up-Beside :
      (who : Poller) (r : Option RemovalHandler) (p : Ptr) (st : EventStore) (s s' : Server W)
      → IsClient p st s
      → hang_up (callbacks os table uninit who) r (some p) s ≡ ok s'
      → Beside p s s'
  unfolding hang_up call_removal
  hang_up-Beside who none p st s s' is e = Beside-refl p s s' e
  hang_up-Beside who (some server_removal) p st s s' is e = remove_socket-Beside p st s s' is e

  pub process_event-Beside :
      (who : Poller) (events : ℕ) (p : Ptr) (st : EventStore) (s s' : Server W)
      → (own_handler who s).event_dispatcher ≡ some io_worker
      → IsClient p st s
      → process_event (callbacks os table uninit who) (record { events = events; ptr = some p }) s
        ≡ ok s'
      → Beside p s s'
  unfolding process_event handle_event
  process_event-Beside who events p st s s' to_pool is e = elim (Bool-cases (is_hangup events)) [
    | inl gone ↦ hang_up-Beside who _ p st s s' is (rw gone at e)
    | inr here ↦ elim (Bool-cases (own_handler who s).continue_polling) [
      | inl on ↦ dispatch-Beside who _ p st s s' to_pool is (rw (here, on) at e)
      | inr off ↦ Beside-refl p s s' (rw (here, off) at e)
    ]
  ]
