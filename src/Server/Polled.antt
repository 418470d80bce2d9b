-- ===== src/Server/Polled.antt =====
-- src/networkevent/SocketEventHandler.cpp on the server: one event of a polling thread.
use eventplus.Prelude.{ℕ, refl, inl, inr, Option, none, some, Returns, Returns->>=, Bool-cases}
use eventplus.Common.Details.{
  Ptr, Poller, HandlerClass, Dispatcher, server_socket, io_worker, tcp_client, tls_client_socket,
  RemovalHandler, server_removal, incoming_data,
}
use eventplus.Common.Os.{Os}
use eventplus.Common.Handler.{BaseSocketHandler, HandlerLaws}
use eventplus.NetworkEvent.Polling.{process_event, is_hangup, dispatch, hang_up, handle_event}
use eventplus.Server.State.{Server}
use eventplus.Server.Connections.{Uninit, queue_event}
use eventplus.Server.System.{mark_incoming, own_handler, call_dispatcher, call_removal, callbacks}
use eventplus.Server.Total.{
  IsWorking, Live, write-IsWorking, deref-live, handle_io_event-IsWorking, remove_socket-IsWorking,
}
use eventplus.Server.Registry.{update_same}

module _ {W : Type 0} (os : Os W) (table : HandlerClass → BaseSocketHandler W)
    (laws : (c : HandlerClass) → HandlerLaws (table c)) (uninit : Uninit) where
  mark_incoming-IsWorking :
      (p : Ptr) (s : Server W)
      → IsWorking s
      → Live p s
      → Returns (λ s'. IsWorking s' × Live p s') (mark_incoming p s)
  unfolding mark_incoming
  mark_incoming-IsWorking p s v (st, live) =
      let new = record st { event_type = incoming_data } in
      rw (deref-live os table laws p st s live) (
        write-IsWorking os table laws p st new s v live (refl, refl, refl),
        (new, update_same s.cell p _),
      )

  call_dispatcher-IsWorking :
      (d : Dispatcher) (p : Ptr) (s : Server W)
      → IsWorking s
      → Live p s
      → Returns IsWorking (call_dispatcher os table uninit d p s)
  unfolding call_dispatcher queue_event
  call_dispatcher-IsWorking server_socket p s v l =
      handle_io_event-IsWorking os table laws uninit p s v l
  call_dispatcher-IsWorking io_worker p s v l = record {
    owners = v.owners;
    threads = v.threads;
    handler = v.handler;
  }
  call_dispatcher-IsWorking tcp_client p s v l = v
  call_dispatcher-IsWorking tls_client_socket p s v l = v

  dispatch-IsWorking :
      (who : Poller) (d : Option Dispatcher) (p : Ptr) (s : Server W)
      → IsWorking s
      → Live p s
      → Returns IsWorking (dispatch (callbacks os table uninit who) d p s)
  unfolding dispatch
  dispatch-IsWorking who none p s v l = v
  dispatch-IsWorking who (some d) p s v l =
      Returns->>= (λ s'. IsWorking s' × Live p s') IsWorking (mark_incoming p s) _
        (mark_incoming-IsWorking p s v l) λ s' (v', l'). call_dispatcher-IsWorking d p s' v' l'

  hang_up-IsWorking :
      (who : Poller) (r : Option RemovalHandler) (p : Ptr) (s : Server W)
      → IsWorking s
      → Live p s
      → Returns IsWorking (hang_up (callbacks os table uninit who) r (some p) s)
  unfolding hang_up call_removal
  hang_up-IsWorking who none p s v l = v
  hang_up-IsWorking who (some server_removal) p s v l =
      remove_socket-IsWorking os table laws p s v l

-- With handlers that keep their laws, any event that a thread of a working server is told of for a
-- live store, be it data, a hang-up or
-- a client at the door: the thread handles it without a fault, and the server goes on working.
pub process_event-IsWorking :
    {W : Type 0} (os : Os W) (table : HandlerClass → BaseSocketHandler W)
    → ((c : HandlerClass) → HandlerLaws (table c))
    → (uninit : Uninit) (who : Poller) (events : ℕ) (p : Ptr) (s : Server W) → IsWorking s
    → Live p s
    → Returns IsWorking
        (process_event (callbacks os table uninit who) (record { events = events; ptr = some p }) s)
unfolding process_event handle_event
process_event-IsWorking os table laws uninit who events p s v l =
    elim (Bool-cases (is_hangup events)) [
      | inl gone ↦ rw gone (hang_up-IsWorking os table laws uninit who _ p s v l)
      | inr here ↦ rw here (elim (Bool-cases (own_handler who s).continue_polling) [
        | inl on ↦ rw on (dispatch-IsWorking os table laws uninit who _ p s v l)
        | inr off ↦ rw off v
      ])
    ]
