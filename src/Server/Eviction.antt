-- ===== src/Server/Eviction.antt =====
-- A connection of src/socket/server/TcpServerSocket.cpp that gets the descriptor of a client that
-- is still in the map: one whose descriptor was closed without `removeSocket`, as
-- src/datatrasaction/server/TLSSocketHandler.cpp does when a handshake fails.
use eventplus.Prelude.{
  ◌≡◌, refl, sym, ◌∙◌, ℤ, false, some, none, ok, err, dangling, Returns, Returns-map, Returns-ok,
  first_link, subst,
}
use eventplus.Common.Details.{Bytes, Ptr, EventStore, HandlerClass}
use eventplus.Common.Os.{Os}
use eventplus.Common.Handler.{BaseSocketHandler, HandlerLaws}
use eventplus.Common.Handler
use eventplus.TcpHandler.{is_negative}
use eventplus.SocketHandler.{set_non_blocking}
use eventplus.NetworkEvent.EventScheduler
use eventplus.Server.State.{Server, lookup, deref}
use eventplus.Server.Connections.{
  Uninit, client_store, queue_event, own_client, register_client, handle_io_event,
  handle_call_back_event,
}
use eventplus.Server.Registry.{delete_self, lookup-insert_self}
use eventplus.Server.Refinement.{same_server}
use eventplus.Server.Races.{handle_call_back_event-dead}
use eventplus.Server.Total.{IsWorking, handle_io_event-IsWorking}

module _ {W : Type 0} (os : Os W) (table : HandlerClass → BaseSocketHandler W) where
  -- The store at `q` is gone, the new client has the entry, and the receiver has been told nothing.
  abbrev pub Evicted : ℤ → Ptr → Server W → Server W → Type 0
  Evicted fd q s s' =
      (s'.cell q ≡ none)
      × (lookup fd s'.client_event_stores ≡ some s.next_ptr)
      × (s'.deliveries ≡ s.deliveries)

  register_client-Evicted :
      (fd : ℤ) (q : Ptr) (store : EventStore) (s s' : Server W)
      → lookup fd s.client_event_stores ≡ some q
      → register_client os table fd s.next_ptr store s ≡ ok s'
      → Evicted fd q s s'
  unfolding register_client own_client queue_event
  register_client-Evicted fd q store s s' stale e =
      let ((started, store1, w1), a, e1) =
        first_link (Handler.init_connection table store s.world) s' e in
      let ((added, scheduler, store2, w3), b, e2) =
        first_link
          (EventScheduler.add_socket os s.event_scheduler s.next_ptr store1
            (set_non_blocking os fd w1))
          s' e1 in
      subst (Evicted fd q s) (same_server _ s' e2)
        (rw stale (delete_self _ q), lookup-insert_self fd s.next_ptr s.client_event_stores, refl)

  handle_io_event-register :
      (uninit : Uninit) (p : Ptr) (st : EventStore) (s : Server W) (text : Bytes)
      → s.cell p ≡ some st
      → let (fd, address, w1) = os.accept st.socket_id s.world in
        let (ip, w2) = os.inet_ntop address.sin_addr w1 in
        is_negative fd ≡ false
        → ip ≡ some text
        → handle_io_event os table uninit p s
          ≡ register_client os table fd s.next_ptr
              (client_store uninit fd address text s.socket_operation_handler)
              (record s { world = w2 })
  unfolding handle_io_event deref
  handle_io_event-register uninit p st s text live taken known =
      rw (live, handle_io_event, deref, taken, known) refl

  -- With handlers that keep their laws, on a working server: `accept` gives the descriptor of a
  -- client that is still in the map. The new client takes its entry, and the store of the old one
  -- is deleted, with no call of `connectionClosedEvent`; a task of the pool for the old client that
  -- has not run yet reads the deleted store.
  pub handle_io_event-evicts :
      (laws : (c : HandlerClass) → HandlerLaws (table c)) (uninit : Uninit) (p q : Ptr)
      (st : EventStore) (s : Server W) (text : Bytes)
      → IsWorking s
      → s.cell p ≡ some st
      → let (fd, address, w1) = os.accept st.socket_id s.world in
        is_negative fd ≡ false
        → (os.inet_ntop address.sin_addr w1).0 ≡ some text
        → lookup fd s.client_event_stores ≡ some q
        → Returns
            (λ s'.
              IsWorking s'
              × Evicted fd q s s'
              × (handle_call_back_event (some q) s' ≡ err dangling))
            (handle_io_event os table uninit p s)
  handle_io_event-evicts laws uninit p q st s text v live taken known stale =
      let w2 =
        (os.inet_ntop (os.accept st.socket_id s.world).1.sin_addr
          (os.accept st.socket_id s.world).2).1 in
      Returns-map _ _ (handle_io_event os table uninit p s)
        (Returns-ok IsWorking (handle_io_event os table uninit p s)
          (handle_io_event-IsWorking os table laws uninit p s v (st, live))
          (λ s' ran.
            register_client-Evicted _ q _ (record s { world = w2 }) s' stale
              (sym (handle_io_event-register uninit p st s text live taken known) ∙ ran)))
        λ s' (good, gone). (good, gone, handle_call_back_event-dead q s' gone.0)
