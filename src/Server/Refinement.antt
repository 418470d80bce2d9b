-- ===== src/Server/Refinement.antt =====
-- The events of src/socket/server/TcpServerSocket.cpp against the set of connected clients: the map
-- of stores changes as `Server.Roster` tells.
use eventplus.Prelude.{
  ◌≡◌, refl, sym, ap, ◌∙◌, inl, inr, ℤ, Option, none, some, ok, first_link, int_eq, Bool-cases,
  Option-cases,
}
use eventplus.Common.Details.{
  Ptr, EventStore, Poller, HandlerClass, incoming_data, closed_connection,
}
use eventplus.Common.Os.{Os}
use eventplus.Common.Handler.{BaseSocketHandler}
use eventplus.Common.Handler
use eventplus.TcpHandler.{is_negative}
use eventplus.NetworkEvent.EventScheduler
use eventplus.SocketHandler.{set_non_blocking}
use eventplus.Server.State.{Server, lookup, insert, erase, deref, write, poller}
use eventplus.Server.Connections.{
  Uninit, queue_event, own_client, disown_client, register_client, handle_io_event, unwatch,
  remove_socket,
}
use eventplus.Server.Registry.{lookup-insert, lookup-erase}
use eventplus.Server.System.{mark_incoming}
use eventplus.Server.Roster.{Change, joins, leaves, nothing, apply, roster, comes_in}
use eventplus.Certificate.{is_some}

module _ {W : Type 0} where
  -- A run that ended did so in this server.
  pub same_server : (s s' : Server W) → ok s ≡ ok s' → s ≡ s'
  same_server s s' e = cc

  -- The roster of `s'` is that of `s` after change `c`.
  abbrev pub Changed : Change → Server W → Server W → Type 0
  Changed c s s' = (j : ℤ) → roster s' j ≡ apply c (roster s) j

  pub same_clients-Changed :
      (s s' : Server W) → s'.client_event_stores ≡ s.client_event_stores → Changed nothing s s'
  same_clients-Changed s s' e j = ap (λ m. is_some (lookup j m)) e

  pub unchanged :
      (s s' t : Server W)
      → ok t ≡ ok s'
      → t.client_event_stores ≡ s.client_event_stores
      → Changed nothing s s'
  unchanged s s' t e same =
      same_clients-Changed s s' (sym (ap (λ t. t.client_event_stores) (same_server t s' e)) ∙ same)

  insert-Changed :
      (fd : ℤ) (p : Ptr) (s s' : Server W)
      → s'.client_event_stores ≡ insert fd p s.client_event_stores
      → Changed (joins fd) s s'
  insert-Changed fd p s s' e j =
      rw (e, lookup-insert fd j p s.client_event_stores)
        (elim (Bool-cases (int_eq fd j)) [ inl h ↦ rw h | inr h ↦ rw h ])

  erase-Changed :
      (fd : ℤ) (s s' : Server W)
      → s'.client_event_stores ≡ erase fd s.client_event_stores
      → Changed (leaves fd) s s'
  erase-Changed fd s s' e j =
      rw (e, lookup-erase fd j s.client_event_stores)
        (elim (Bool-cases (int_eq fd j)) [ inl h ↦ rw h | inr h ↦ rw h ])

module _ {W : Type 0} (os : Os W) (table : HandlerClass → BaseSocketHandler W) where
  register_client-clients :
      (fd : ℤ) (p : Ptr) (store : EventStore) (s s' : Server W)
      → register_client os table fd p store s ≡ ok s'
      → s'.client_event_stores ≡ insert fd p s.client_event_stores
  unfolding register_client own_client queue_event
  register_client-clients fd p store s s' e =
      let ((started, store1, w1), a, e1) =
        first_link (Handler.init_connection table store s.world) s' e in
      let ((added, scheduler, store2, w3), b, e2) =
        first_link
          (EventScheduler.add_socket os s.event_scheduler p store1 (set_non_blocking os fd w1)) s'
          e1 in
      sym (ap (λ t. t.client_event_stores) (same_server _ s' e2))

  pub handle_io_event-Changed :
      (uninit : Uninit) (p : Ptr) (st : EventStore) (s s' : Server W)
      → s.cell p ≡ some st
      → handle_io_event os table uninit p s ≡ ok s'
      → Changed (comes_in os st s.world) s s'
  unfolding handle_io_event deref
  handle_io_event-Changed uninit p st s s' live e =
      let (fd, address, w1) = os.accept st.socket_id s.world in
      let (ip, w2) = os.inet_ntop address.sin_addr w1 in
      let e1 = rw (live, handle_io_event, deref) at e in
      elim (Bool-cases (is_negative fd)) [
        | inl refused ↦ rw refused (unchanged s s' _ (rw refused at e1) refl)
        | inr taken ↦ rw taken (elim (Option-cases ip) [
          | inl unknown ↦ rw unknown (unchanged s s' _ (rw (taken, unknown) at e1) refl)
          | inr (text, known) ↦ rw known (
              insert-Changed fd s.next_ptr s s' (
                register_client-clients fd s.next_ptr _ (record s { world = w2 }) s'
                  (rw (taken, known) at e1)))
        ])
      ]

  pub mark_incoming-keeps :
      (p : Ptr) (st : EventStore) (s s' : Server W)
      → s.cell p ≡ some st
      → mark_incoming p s ≡ ok s'
      → s' ≡ write p (record st { event_type = incoming_data }) s
  unfolding mark_incoming deref
  mark_incoming-keeps p st s s' live e =
      sym (same_server _ s' (rw (live, mark_incoming, deref) at e))

  pub unwatch-clients :
      (p : Ptr) (st : EventStore) (s s' : Server W) (o : Option Poller)
      → st.socket_event_handler ≡ o
      → unwatch os table p st s ≡ ok s'
      → s'.client_event_stores ≡ s.client_event_stores
  unfolding unwatch
  unwatch-clients p st s s' none f e =
      sym (ap (λ t. t.client_event_stores) (same_server _ s' (rw (f, unwatch) at e)))
  unwatch-clients p st s s' (some who) f e = elim (Option-cases (poller who s)) [
    | inl nobody ↦ let fault = rw (f, unwatch, nobody) at e in absurd (cc)
    | inr (h, there) ↦
        let ((st', w2), closed, e') =
          first_link (Handler.close_connection table st _) s' (rw (f, unwatch, there) at e) in
        sym (ap (λ t. t.client_event_stores) (same_server _ s' e'))
  ]

  pub remove_socket-Changed :
      (p : Ptr) (st : EventStore) (s s' : Server W)
      → s.cell p ≡ some st
      → remove_socket os table (some p) s ≡ ok s'
      → Changed (leaves st.socket_id) s s'
  unfolding remove_socket disown_client queue_event deref
  remove_socket-Changed p st s s' live e =
      let closing = record st { event_type = closed_connection } in
      let (s1, taken, e') =
        first_link (unwatch os table p closing (write p closing s)) s'
          (rw (live, remove_socket, deref) at e) in
      let same =
        unwatch-clients p closing (write p closing s) s1 closing.socket_event_handler refl taken in
      erase-Changed st.socket_id s s'
        (sym (ap (λ t. t.client_event_stores) (same_server _ s' e')) ∙ ap (erase st.socket_id) same)
