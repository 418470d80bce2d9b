-- ===== src/Server/Simulation.antt =====
-- A running server of src/socket/server/TcpServerSocket.cpp simulates the set of connected clients
-- of `Server.Roster`.
use eventplus.Prelude.{ℕ, ◌≡◌, refl, inl, inr, Option, none, some, ok, first_link, Bool-cases}
use eventplus.Common.Details.{
  Ptr, EventStore, Poller, HandlerClass, Dispatcher, server_socket, io_worker, tcp_client,
  tls_client_socket, RemovalHandler, server_removal, incoming_data,
}
use eventplus.Common.Os.{Os}
use eventplus.Common.Handler.{BaseSocketHandler}
use eventplus.NetworkEvent.Polling.{process_event, is_hangup, dispatch, hang_up, handle_event}
use eventplus.Server.State.{Server, write}
use eventplus.Server.Connections.{Uninit, queue_event}
use eventplus.Server.Registry.{update_same}
use eventplus.Server.System.{mark_incoming, own_handler, call_dispatcher, call_removal, callbacks}
use eventplus.Server.Roster.{at_door, gone, comes_in, meaning}
use eventplus.Server.Refinement.{
  Changed, unchanged, handle_io_event-Changed, mark_incoming-keeps, remove_socket-Changed,
}

module _ {W : Type 0} (os : Os W) (table : HandlerClass → BaseSocketHandler W)
    (uninit : Uninit) where
  call_dispatcher-Changed :
      (d : Dispatcher) (p : Ptr) (st : EventStore) (s s' : Server W)
      → s.cell p ≡ some st
      → call_dispatcher os table uninit d p s ≡ ok s'
      → Changed (at_door (some d) (comes_in os st s.world)) s s'
  unfolding call_dispatcher queue_event
  call_dispatcher-Changed server_socket p st s s' live e =
      handle_io_event-Changed os table uninit p st s s' live e
  call_dispatcher-Changed io_worker p st s s' live e = unchanged s s' _ e refl
  call_dispatcher-Changed tcp_client p st s s' live e = unchanged s s' _ e refl
  call_dispatcher-Changed tls_client_socket p st s s' live e = unchanged s s' _ e refl

  dispatch-Changed :
      (who : Poller) (d : Option Dispatcher) (p : Ptr) (st : EventStore) (s s' : Server W)
      → s.cell p ≡ some st
      → dispatch (callbacks os table uninit who) d p s ≡ ok s'
      → Changed (at_door d (comes_in os st s.world)) s s'
  unfolding dispatch
  dispatch-Changed who none p st s s' live e = unchanged s s' _ e refl
  dispatch-Changed who (some d) p st s s' live e =
      let new = record st { event_type = incoming_data } in
      let (s1, marked, e') = first_link (mark_incoming p s) s' e in
      let is_written = mark_incoming-keeps os table p st s s1 live marked in
      call_dispatcher-Changed d p new (write p new s) s' (update_same s.cell p _)
        (rw (← is_written) e')

  hang_up-Changed :
      (who : Poller) (r : Option RemovalHandler) (p : Ptr) (st : EventStore) (s s' : Server W)
      → s.cell p ≡ some st
      → hang_up (callbacks os table uninit who) r (some p) s ≡ ok s'
      → Changed (gone r st.socket_id) s s'
  unfolding hang_up call_removal
  hang_up-Changed who none p st s s' live e = unchanged s s' _ e refl
  hang_up-Changed who (some server_removal) p st s s' live e =
      remove_socket-Changed os table p st s s' live e

  pub process_event-Changed :
      (who : Poller) (events : ℕ) (p : Ptr) (st : EventStore) (s s' : Server W)
      → s.cell p ≡ some st
      → process_event (callbacks os table uninit who) (record { events = events; ptr = some p }) s
        ≡ ok s'
      → Changed (meaning os who events st s) s s'
  unfolding process_event handle_event
  process_event-Changed who events p st s s' live e = elim (Bool-cases (is_hangup events)) [
    | inl left ↦ rw left (hang_up-Changed who _ p st s s' live (rw left at e))
    | inr here ↦ rw here (elim (Bool-cases (own_handler who s).continue_polling) [
      | inl on ↦ rw on (dispatch-Changed who _ p st s s' live (rw (here, on) at e))
      | inr off ↦ rw off (unchanged s s' _ (rw (here, off) at e) refl)
    ])
  ]
