-- ===== src/Server/Door.antt =====
-- What a client at the door of src/socket/server/TcpServerSocket.cpp leaves alone: the threads, and
-- all the clients but one that had the same socket.
use eventplus.Prelude.{
  ℕ, ◌+◌, ◌%◌, ◌≡◌, ◌≢◌, refl, sym, ap, ◌∙◌, inl, inr, ℤ, Bool, some, ok, false, first_link,
  Bool-cases, Option-cases, subst, ◌==◌, arith,
}
use eventplus.Common.Details.{
  Ptr, EventStore, Poller, listener, scheduled, client_poller, HandlerClass, server_socket,
  incoming_data,
}
use eventplus.Common.Os.{Os}
use eventplus.Common.Handler.{BaseSocketHandler, HandlerLaws}
use eventplus.Common.Handler
use eventplus.TcpHandler.{is_negative}
use eventplus.SocketHandler.{set_non_blocking}
use eventplus.NetworkEvent.EventScheduler
use eventplus.NetworkEvent.EventScheduler.{EventScheduler, at}
use eventplus.NetworkEvent.Polling.{process_event, is_hangup, dispatch, handle_event}
use eventplus.Server.State.{Server, lookup, deref, write, poller}
use eventplus.Server.Connections.{Uninit, queue_event, own_client, register_client, handle_io_event}
use eventplus.Server.Registry.{update_same, update_other, delete_other, lookup-insert_ne}
use eventplus.Server.Refinement.{same_server, mark_incoming-keeps}
use eventplus.Server.System.{mark_incoming, own_handler, call_dispatcher, callbacks}
use eventplus.Server.Total.{IsWorking, write-IsWorking}
use eventplus.Server.Beside.{IsClient}

-- `addSocket` changes no thread.
add_socket-handlers :
    {W : Type 0} (os : Os W) (s s' : EventScheduler) (p : Ptr) (r o : EventStore) (w w' : W)
    (added : Bool)
    → EventScheduler.add_socket os s p r w ≡ ok (added, s', o, w')
    → (s'.socket_event_handlers ≡ s.socket_event_handlers) × (s'.num_threads ≡ s.num_threads)
unfolding EventScheduler.add_socket
add_socket-handlers os s s' p r o w w' added e = elim (Bool-cases (s.num_threads == 0)) [
  | inl h ↦ let fault = rw h at e in cc
  | inr h ↦
      let (h', there, e') =
        first_link (at s.socket_event_handlers ((s.current_index + 1) % s.num_threads))
          (added, s', o, w') (rw h at e) in
      let same : record s { current_index = (s.current_index + 1) % s.num_threads } ≡ s' = cc in
      (ap (λ t. t.socket_event_handlers) (sym same), ap (λ t. t.num_threads) (sym same))
]

module _ {W : Type 0} where
  -- From `s` to `s'` nothing changes for the threads, and for the clients but that of socket `fd`.
  pub record Admits (fd : ℤ) (s s' : Server W) : Type 0 where
    pub handlers : (who : Poller) → own_handler who s' ≡ own_handler who s
    pub count : s'.event_scheduler.num_threads ≡ s.event_scheduler.num_threads
    pub door : s'.event_store ≡ s.event_store
    pub clients :
        (q : Ptr) (st : EventStore)
        → lookup fd s.client_event_stores ≢ some q
        → IsClient q st s
        → IsClient q st s'

  pub same_handlers :
      (who : Poller) (s t : Server W)
      → t.socket_event_handler ≡ s.socket_event_handler
      → t.event_scheduler.socket_event_handlers ≡ s.event_scheduler.socket_event_handlers
      → own_handler who t ≡ own_handler who s
  unfolding own_handler poller
  same_handlers listener s t own all = own
  same_handlers client_poller s t own all = own
  same_handlers (scheduled i) s t own all = rw (own, all) refl

  Admits-unchanged :
      (fd : ℤ) (s s' t : Server W)
      → ok t ≡ ok s'
      → t.socket_event_handler ≡ s.socket_event_handler
      → t.event_scheduler.socket_event_handlers ≡ s.event_scheduler.socket_event_handlers
      → t.event_scheduler.num_threads ≡ s.event_scheduler.num_threads
      → t.event_store ≡ s.event_store
      → ((q : Ptr) (st : EventStore)
          → lookup fd s.client_event_stores ≢ some q
          → IsClient q st s
          → IsClient q st t)
      → Admits fd s s'
  Admits-unchanged fd s s' t e own all count door clients =
      subst (Admits fd s) (same_server t s' e) (record {
        handlers = λ who. same_handlers who s t own all;
        count = count;
        door = door;
        clients = clients;
      })

module _ {W : Type 0} (os : Os W) (table : HandlerClass → BaseSocketHandler W)
    (laws : (c : HandlerClass) → HandlerLaws (table c)) where
  in_world : (s : Server W) (w : W) → IsWorking s → IsWorking (record s { world = w })
  in_world s w v = record { owners = v.owners; threads = v.threads; handler = v.handler }

  register_client-Admits :
      (fd : ℤ) (store : EventStore) (s s' : Server W)
      → IsWorking s
      → register_client os table fd s.next_ptr store s ≡ ok s'
      → Admits fd s s'
  unfolding register_client own_client queue_event
  register_client-Admits fd store s s' v e =
      let ((started, store1, w1), a, e1) =
        first_link (Handler.init_connection table store s.world) s' e in
      let ((added, scheduler, store2, w3), b, e2) =
        first_link
          (EventScheduler.add_socket os s.event_scheduler s.next_ptr store1
            (set_non_blocking os fd w1))
          s' e1 in
      let same = add_socket-handlers os _ _ _ _ _ _ _ _ b in
      Admits-unchanged fd s s' _ e2 refl same.0 same.1 refl λ q st other (live, known).
        let unused : s.next_ptr ≢ q = λ h. absurd (omega (arith, v.owners.fresh q st live)) in
        let apart : fd ≢ st.socket_id = λ h. other (rw h known) in
        (
          delete_other _ (lookup fd s.client_event_stores) q other
              ∙ update_other s.cell s.next_ptr q _ unused
              ∙ live,
          lookup-insert_ne fd s.next_ptr s.client_event_stores st.socket_id apart ∙ known,
        )

  handle_io_event-Admits :
      (uninit : Uninit) (p : Ptr) (st : EventStore) (s s' : Server W)
      → IsWorking s
      → s.cell p ≡ some st
      → handle_io_event os table uninit p s ≡ ok s'
      → Admits (os.accept st.socket_id s.world).0 s s'
  unfolding handle_io_event deref
  handle_io_event-Admits uninit p st s s' v live e =
      let (fd, address, w1) = os.accept st.socket_id s.world in
      let (ip, w2) = os.inet_ntop address.sin_addr w1 in
      let e1 = rw (live, handle_io_event, deref) at e in
      elim (Bool-cases (is_negative fd)) [
        | inl refused ↦
            Admits-unchanged fd s s' _ (rw refused at e1) refl refl refl refl (λ q st other is. is)
        | inr taken ↦ elim (Option-cases ip) [
          | inl unknown ↦
              Admits-unchanged fd s s' _ (rw (taken, unknown) at e1) refl refl refl refl
                (λ q st other is. is)
          | inr (text, known) ↦
              let a =
                register_client-Admits fd _ (record s { world = w2 }) s' (in_world s w2 v)
                  (rw (taken, known) at e1) in
              record {
                handlers =
                    λ who. a.handlers who ∙ same_handlers who s (record s { world = w2 }) refl refl;
                count = a.count;
                door = a.door;
                clients = a.clients;
              }
        ]
      ]

  -- A client at the door: the event of the accepting thread.
  pub process_event-Admits :
      (uninit : Uninit) (who : Poller) (events : ℕ) (p : Ptr) (st : EventStore) (s s' : Server W)
      → IsWorking s
      → s.event_store ≡ some p
      → s.cell p ≡ some st
      → is_hangup events ≡ false
      → (own_handler who s).event_dispatcher ≡ some server_socket
      → process_event (callbacks os table uninit who) (record { events = events; ptr = some p }) s
        ≡ ok s'
      → Admits (os.accept st.socket_id s.world).0 s s'
  unfolding process_event handle_event dispatch call_dispatcher
  process_event-Admits uninit who events p st s s' v door live stays to_door e =
      let fd = (os.accept st.socket_id s.world).0 in
      elim (Bool-cases (own_handler who s).continue_polling) [
        | inr off ↦
            Admits-unchanged fd s s' s (rw (stays, off) at e) refl refl refl refl
              (λ q st other is. is)
        | inl on ↦
            let (s1, marked, e') =
              first_link (mark_incoming p s) s' (rw (stays, on, to_door) at e) in
            let new = record st { event_type = incoming_data } in
            let same = mark_incoming-keeps os table p st s s1 live marked in
            let v1 = write-IsWorking os table laws p st new s v live (refl, refl, refl) in
            let a =
              handle_io_event-Admits uninit p new (write p new s) s' v1 (update_same s.cell p _)
                (rw same at e') in
            let other : (q : Ptr) (stq : EventStore) → IsClient q stq s → p ≢ q =
              λ q stq is h. v.owners.apart stq.socket_id q is.1 (door ∙ ap some h) in
            record {
              handlers = λ who'. a.handlers who' ∙ same_handlers who' s (write p new s) refl refl;
              count = a.count;
              door = a.door;
              clients = λ q stq free is.
                  a.clients q stq free (update_other s.cell p q _ (other q stq is) ∙ is.0, is.1);
            }
      ]
