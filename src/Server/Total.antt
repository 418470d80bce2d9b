-- ===== src/Server/Total.antt =====
-- src/socket/server/TcpServerSocket.cpp: no event of a working server meets a dangling pointer, a
-- missing handler or an index out of range, and each keeps the ownership of the stores.
use eventplus.Prelude.{
  ℕ, ◌<◌, ◌≡◌, refl, sym, ◌∙◌, subst, inl, inr, ℤ, Bool, Option, none, some, ok, Returns,
  Returns->>=, arith, Bool-cases, Option-cases, get_elem?_lt,
}
use eventplus.Common.Details.{
  Ptr, Poller, EventStore, HandlerClass, closed_connection, listener, client_poller, scheduled,
}
use eventplus.Common.Os.{Os}
use eventplus.Common.Handler.{BaseSocketHandler, KeepsStore, HandlerLaws, with_handler}
use eventplus.Common.Handler
use eventplus.TcpHandler.{is_negative}
use eventplus.NetworkEvent.SocketEventHandler.{SocketEventHandler}
use eventplus.NetworkEvent.EventScheduler
use eventplus.NetworkEvent.EventScheduler.{EventScheduler}
use eventplus.NetworkEvent.EventScheduler.Loops.{IsValid}
use eventplus.NetworkEvent.EventScheduler.RoundRobin.{AfterAdd, add_socket-AfterAdd, RegisteredAt}
use eventplus.Server.State.{Server, deref, write, poller}
use eventplus.Server.Connections.{
  Uninit, client_store, queue_event, own_client, disown_client, register_client, handle_io_event,
  unwatch, remove_socket,
}
use eventplus.Server.Registry.{update_same}
use eventplus.Server.Ownership.{
  WatchedBy, HasHandler, IsReady, Ownership, write-Ownership, insert-Ownership, erase-Ownership,
}

module _ {W : Type 0} where
  pub record IsWorking (s : Server W) : Type 0 where
    pub owners :
        Ownership s.client_event_stores s.cell s.event_store s.next_ptr
          s.event_scheduler.num_threads
    pub threads : IsValid s.event_scheduler
    pub handler : HasHandler s.socket_operation_handler

  abbrev pub Live : Ptr → Server W → Type 0
  Live p s = (st : EventStore) × (s.cell p ≡ some st)

module _ {W : Type 0} (table : HandlerClass → BaseSocketHandler W)
    (laws : (c : HandlerClass) → HandlerLaws (table c)) where
  init_connection-Keeps :
      (st : EventStore) (w : W)
      → HasHandler st.socket_operation_handler
      → Returns (λ r. KeepsStore st r.1) (Handler.init_connection table st w)
  unfolding Handler.init_connection
  init_connection-Keeps st w h = go st.socket_operation_handler h
    where
      go :
          (o : Option HandlerClass)
          → HasHandler o
          → Returns
              (λ (r : Bool × EventStore × W). KeepsStore st r.1)
              (with_handler table o (λ x. x.init_connection st w))
      go none h = absurd h
      go (some c) h = (laws c).opens st w

  pub close_connection-Keeps :
      (st : EventStore) (w : W)
      → HasHandler st.socket_operation_handler
      → Returns (λ r. KeepsStore st r.0) (Handler.close_connection table st w)
  unfolding Handler.close_connection
  close_connection-Keeps st w h = go st.socket_operation_handler h
    where
      go :
          (o : Option HandlerClass)
          → HasHandler o
          → Returns
              (λ (r : EventStore × W). KeepsStore st r.0)
              (with_handler table o (λ x. ok (x.close_connection st w)))
      go none h = absurd h
      go (some c) h = (laws c).closes st w

IsReady-keeps : (n : ℕ) (s s' : EventStore) → KeepsStore s s' → IsReady n s → IsReady n s'
IsReady-keeps n s s' (i, w, h) (a, b) = (subst (WatchedBy n) (sym w) a, subst HasHandler (sym h) b)

-- The chosen thread watches the store, or nobody new does.
IsReady-RegisteredAt :
    (n i : ℕ) (s s' : EventStore)
    → i < n
    → RegisteredAt i s s'
    → IsReady n s
    → IsReady n s' × (s'.socket_id ≡ s.socket_id)
IsReady-RegisteredAt n i s s' lt (inl e) r = rw e (r, refl)
IsReady-RegisteredAt n i s s' lt (inr e) r = rw e ((lt, r.1), refl)

module _ {W : Type 0} (os : Os W) (table : HandlerClass → BaseSocketHandler W)
    (laws : (c : HandlerClass) → HandlerLaws (table c)) where
  register_client-IsWorking :
      (fd : ℤ) (st : EventStore) (s : Server W)
      → IsWorking s
      → st.socket_id ≡ fd
      → IsReady s.event_scheduler.num_threads st
      → Returns IsWorking (register_client os table fd s.next_ptr st s)
  unfolding register_client own_client queue_event
  register_client-IsWorking fd st s v i r =
      Returns->>= (λ a. KeepsStore st a.1) IsWorking (Handler.init_connection table st s.world) _
        (init_connection-Keeps table laws st s.world r.1)
        λ (started, st1, w1) k.
          Returns->>= (AfterAdd os s.event_scheduler st1) IsWorking
            (EventScheduler.add_socket os s.event_scheduler s.next_ptr st1 _) _
            (add_socket-AfterAdd os s.event_scheduler s.next_ptr st1 _ v.threads)
            λ (added, scheduler, st2, w3) (v', n, c, reg).
              let threads = s.event_scheduler.num_threads in
              let lt : scheduler.current_index < threads = omega (arith, v'.served, n) in
              let (ready, same) =
                IsReady-RegisteredAt threads scheduler.current_index st1 st2 lt reg
                  (IsReady-keeps threads st st1 k r) in
              record {
                owners =
                    subst (Ownership _ _ _ _) (sym n)
                      (insert-Ownership v.owners fd st2 (same ∙ k.0 ∙ i) ready);
                threads = v';
                handler = v.handler;
              }

  in_world : (s : Server W) (w : W) → IsWorking s → IsWorking (record s { world = w })
  in_world s w v = record { owners = v.owners; threads = v.threads; handler = v.handler }

  pub deref-live :
      (p : Ptr) (st : EventStore) (s : Server W)
      → s.cell p ≡ some st
      → deref (some p) s ≡ ok (p, st)
  unfolding deref
  deref-live p st s e = rw (e, deref)

  -- A connection comes in. Whether it is accepted, refused or has no printable address, and
  -- whatever its handler and its thread say to it, the server goes on working.
  pub handle_io_event-IsWorking :
      (uninit : Uninit) (p : Ptr) (s : Server W)
      → IsWorking s
      → Live p s
      → Returns IsWorking (handle_io_event os table uninit p s)
  unfolding handle_io_event client_store
  handle_io_event-IsWorking uninit p s v (st, live) =
      let (fd, address, w1) = os.accept st.socket_id s.world in
      let (ip, w2) = os.inet_ntop address.sin_addr w1 in
      rw (deref-live p st s live) (elim (Bool-cases (is_negative fd)) [
        | inl refused ↦ rw refused (in_world s w1 v)
        | inr taken ↦ rw taken (elim (Option-cases ip) [
          | inl e ↦ rw e (in_world s w2 v)
          | inr (text, e) ↦ rw e (
              register_client-IsWorking fd
                (client_store uninit fd address text s.socket_operation_handler)
                (record s { world = w2 }) (in_world s w2 v) refl (tt, v.handler))
        ])
      ])

  pub poller-watches :
      (who : Poller) (s : Server W)
      → IsValid s.event_scheduler
      → WatchedBy s.event_scheduler.num_threads (some who)
      → (h : SocketEventHandler) × (poller who s ≡ some h)
  unfolding poller
  poller-watches listener s v b = (s.socket_event_handler, refl)
  poller-watches client_poller s v b = absurd b
  poller-watches (scheduled i) s v b =
      get_elem?_lt s.event_scheduler.socket_event_handlers i (omega (arith, v.counted, b))

  pub write-IsWorking :
      (p : Ptr) (old new : EventStore) (s : Server W)
      → IsWorking s
      → s.cell p ≡ some old
      → KeepsStore old new
      → IsWorking (write p new s)
  write-IsWorking p old new s v live k = record {
    owners =
        write-Ownership v.owners p old new live k.0
          (IsReady-keeps _ old new k (v.owners.ready p old live));
    threads = v.threads;
    handler = v.handler;
  }

  -- What taking a store from its thread leaves alone.
  abbrev pub Unwatched : Server W → Server W → Type 0
  Unwatched s s' =
      IsWorking s' × (s'.client_event_stores ≡ s.client_event_stores) × (s'.io_worker ≡ s.io_worker)

  pub unwatch-Unwatched :
      (p : Ptr) (st : EventStore) (s : Server W) (o : Option Poller)
      → st.socket_event_handler ≡ o
      → IsWorking s
      → s.cell p ≡ some st
      → Returns (Unwatched s) (unwatch os table p st s)
  unfolding unwatch
  unwatch-Unwatched p st s none e v live = rw (e, unwatch) (v, refl, refl)
  unwatch-Unwatched p st s (some who) e v live =
      let ready = v.owners.ready p st live in
      let (h, f) = poller-watches who s v.threads (rw e at ready.0) in
      rw (e, unwatch, f)
        (Returns->>= (λ a. KeepsStore st a.0) (Unwatched s) (Handler.close_connection table st _) _
          (close_connection-Keeps table laws st _ ready.1)
          λ (st', w2) k. (
            write-IsWorking p st st' (record s { world = w2 }) (in_world s w2 v) live k,
            refl,
            refl,
          ))

  -- A client is gone: its store is taken from its thread, closed, queued for the receiver and
  -- deleted, and the server goes on working.
  pub remove_socket-IsWorking :
      (p : Ptr) (s : Server W)
      → IsWorking s
      → Live p s
      → Returns IsWorking (remove_socket os table (some p) s)
  unfolding remove_socket disown_client queue_event
  remove_socket-IsWorking p s v (st, live) =
      let closing = record st { event_type = closed_connection } in
      rw (deref-live p st s live) (
        Returns->>= (Unwatched (write p closing s)) IsWorking
          (unwatch os table p closing (write p closing s)) _
          (unwatch-Unwatched p closing (write p closing s) closing.socket_event_handler refl
            (write-IsWorking p st closing s v live (refl, refl, refl)) (update_same s.cell p _))
          λ s1 (v1, m, q). record {
            owners = erase-Ownership v1.owners st.socket_id;
            threads = v1.threads;
            handler = v1.handler;
          })
