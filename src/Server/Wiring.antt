-- ===== src/Server/Wiring.antt =====
-- The constructor and the start of src/socket/server/TcpServerSocket.cpp: what they tell the
-- threads of src/networkevent/EventScheduler.cpp to call.
use eventplus.Prelude.{
  ◌<◌, ◌≡◌, refl, sym, ap, ◌∙◌, inl, inr, ℤ, Bool, true, List, [], ◌∷◌, Option, some, ok,
  first_link, subst, length, length-map, map, Bool-cases,
}
use eventplus.Common.Details.{Bytes, Ptr, SocketDetails, server_socket, io_worker, server_removal}
use eventplus.Common.Text.{to_string}
use eventplus.Common.Os.{Os}
use eventplus.TcpHandler.{is_negative}
use eventplus.SocketHandler.{create_server_socket}
use eventplus.NetworkEvent.SocketEventHandler
use eventplus.NetworkEvent.SocketEventHandler.{SocketEventHandler, Leftover}
use eventplus.NetworkEvent.EventScheduler
use eventplus.NetworkEvent.EventScheduler.{EventScheduler, for_handlers}
use eventplus.NetworkEvent.EventScheduler.Loops.{
  IsValid, AllDo-ok, over_handlers-map, create_scheduler-IsValid,
}
use eventplus.NetworkEvent.EventScheduler.Every.{Every, Every-map, for_handlers-Every}
use eventplus.Server.State.{Server}
use eventplus.Server.Refinement.{same_server}
use eventplus.Server.Lifecycle.{
  Unset, create_server, listen_on, create_server_socket_and_start_receiving,
  start_receiving_connection,
}

abbrev pub CallsPool : SocketEventHandler → Type 0
CallsPool h = h.event_dispatcher ≡ some io_worker

abbrev pub CallsRemoval : SocketEventHandler → Type 0
CallsRemoval h = h.remove_socket_event_handler ≡ some server_removal

abbrev pub IsLinked : SocketEventHandler → Type 0
IsLinked h = CallsPool h × CallsRemoval h

abbrev Whatever : SocketEventHandler → Type 0
Whatever h = Unit {0}

anything : (hs : List SocketEventHandler) → Every Whatever hs
anything [] = tt
anything (h ∷ hs) = (tt, anything hs)

set_socket_removal_handler-Every :
    (s t : EventScheduler)
    → IsValid s
    → EventScheduler.set_socket_removal_handler (some server_removal) s ≡ ok t
    → Every CallsRemoval t.socket_event_handlers × IsValid t
unfolding EventScheduler.set_socket_removal_handler SocketEventHandler.set_socket_removal_handler
set_socket_removal_handler-Every s t v e =
    let f : SocketEventHandler → SocketEventHandler =
      λ h. SocketEventHandler.set_socket_removal_handler h (some server_removal) in
    let hs = s.socket_event_handlers in
    let done = rw (over_handlers-map _ f s v (AllDo-ok f hs)) at e in
    let same : record s { socket_event_handlers = map f hs } ≡ t = cc in
    subst (λ x. Every CallsRemoval x.socket_event_handlers × IsValid x) same
      (
        Every-map Whatever CallsRemoval f (λ h _. refl) hs (anything hs),
        record { counted = length-map hs f ∙ v.counted; served = v.served },
      )

set_event_dispatcher_ptr-Every :
    (s t : EventScheduler)
    → IsValid s
    → Every CallsRemoval s.socket_event_handlers
    → EventScheduler.set_event_dispatcher_ptr (some io_worker) s ≡ ok t
    → Every IsLinked t.socket_event_handlers
unfolding EventScheduler.set_event_dispatcher_ptr SocketEventHandler.set_event_dispatcher_ptr
set_event_dispatcher_ptr-Every s t v all e =
    let f : SocketEventHandler → SocketEventHandler =
      λ h. SocketEventHandler.set_event_dispatcher_ptr h (some io_worker) in
    let hs = s.socket_event_handlers in
    let done = rw (over_handlers-map _ f s v (AllDo-ok f hs)) at e in
    let same : record s { socket_event_handlers = map f hs } ≡ t = cc in
    subst (λ x. Every IsLinked x.socket_event_handlers) same
      (Every-map CallsRemoval IsLinked f (λ h r. (refl, r)) hs all)

start_event_receiver_thread-IsLinked :
    (h h' : SocketEventHandler)
    → SocketEventHandler.start_event_receiver_thread h ≡ ok h'
    → IsLinked h
    → IsLinked h'
unfolding SocketEventHandler.start_event_receiver_thread
start_event_receiver_thread-IsLinked h h' e (d, r) = elim (Bool-cases h.started) [
  | inl again ↦ let fault = rw again at e in absurd (cc)
  | inr idle ↦
      let same : record h { started = true } ≡ h' = let done = rw idle at e in cc in
      subst IsLinked same (d, r)
]

start_all_event_handler-Every :
    (s t : EventScheduler)
    → Every IsLinked s.socket_event_handlers
    → EventScheduler.start_all_event_handler s ≡ ok t
    → Every IsLinked t.socket_event_handlers
unfolding EventScheduler.start_all_event_handler
start_all_event_handler-Every s t all e =
    let change = SocketEventHandler.start_event_receiver_thread in
    let (hs, ran, done) =
      first_link (for_handlers change s.num_threads 0 s.socket_event_handlers) t e in
    let same : record s { socket_event_handlers = hs } ≡ t = cc in
    subst (λ x. Every IsLinked x.socket_event_handlers) same
      (for_handlers-Every IsLinked change start_event_receiver_thread-IsLinked s.num_threads 0 _ hs
        all ran)

module _ {W : Type 0} where
  -- The threads hand events and hang-ups to the right objects.
  pub record IsLinkedServer (s : Server W) : Type 0 where
    pub to_door : s.socket_event_handler.event_dispatcher ≡ some server_socket
    pub threads : Every IsLinked s.event_scheduler.socket_event_handlers

  pub start_receiving_connection-IsLinkedServer :
      (s s' : Server W)
      → s.socket_event_handler.event_dispatcher ≡ some server_socket
      → IsValid s.event_scheduler
      → Every CallsRemoval s.event_scheduler.socket_event_handlers
      → start_receiving_connection s ≡ ok s'
      → IsLinkedServer s'
  unfolding start_receiving_connection
  start_receiving_connection-IsLinkedServer s s' door v all e =
      let (told, a, e1) =
        first_link (EventScheduler.set_event_dispatcher_ptr (some io_worker) s.event_scheduler) s'
          e in
      let (started, b, e2) = first_link (EventScheduler.start_all_event_handler told) s' e1 in
      subst IsLinkedServer (same_server _ s' e2) (record {
        to_door = door;
        threads =
            start_all_event_handler-Every told started
              (set_event_dispatcher_ptr-Every _ told v all a) b;
      })

module _ {W : Type 0} (os : Os W) where
  pub create_server-CallsRemoval :
      (unset : Unset) (left : List Leftover) (ip : Bytes) (port : ℤ) (w : W) (s : Server W)
      → 0 < length left
      → create_server os unset left ip port w ≡ ok s
      → (s.socket_event_handler.event_dispatcher ≡ some server_socket)
        × IsValid s.event_scheduler
        × Every CallsRemoval s.event_scheduler.socket_event_handlers
  unfolding create_server SocketEventHandler.set_event_dispatcher_ptr
  create_server-CallsRemoval unset left ip port w s h e =
      let w1 = (SocketEventHandler.create_handler os unset.listener w).1 in
      let sch = (EventScheduler.create_scheduler os left w1).0 in
      let (told, a, e1) =
        first_link (EventScheduler.set_socket_removal_handler (some server_removal) sch) s e in
      let (all, v) =
        set_socket_removal_handler-Every sch told (create_scheduler-IsValid os left w1 h) a in
      let same = same_server _ s e1 in
      (
        ap (λ x. x.socket_event_handler.event_dispatcher) (sym same),
        subst (λ x. IsValid x.event_scheduler) same v,
        subst (λ x. Every CallsRemoval x.event_scheduler.socket_event_handlers) same all,
      )

  listen_on-IsLinkedServer :
      (uninit : Option Ptr) (d : SocketDetails) (s s' : Server W)
      → IsLinkedServer s
      → listen_on os uninit d s ≡ ok s'
      → IsLinkedServer s'
  unfolding listen_on SocketEventHandler.start_event_receiver_thread
  listen_on-IsLinkedServer uninit d s s' l e =
      let (own, a, e1) =
        first_link (SocketEventHandler.start_event_receiver_thread s.socket_event_handler) s' e in
      subst IsLinkedServer (same_server _ s' e1) (record {
        to_door = elim (Bool-cases s.socket_event_handler.started) [
          | inl again ↦ let fault = rw again at a in absurd (cc)
          | inr idle ↦
              let same : record s.socket_event_handler { started = true } ≡ own =
                let done = rw idle at a in cc in
              ap (λ h. h.event_dispatcher) (sym same) ∙ l.to_door
        ];
        threads = l.threads;
      })

  pub create_server_socket_and_start_receiving-IsLinkedServer :
      (uninit : Option Ptr) (s s' : Server W) (listens : Bool)
      → IsLinkedServer s
      → create_server_socket_and_start_receiving os uninit s ≡ ok (listens, s')
      → IsLinkedServer s'
  unfolding create_server_socket_and_start_receiving
  create_server_socket_and_start_receiving-IsLinkedServer uninit s s' listens l e =
      let (made, d, w) =
        create_server_socket os s.server_ip (to_string s.server_port) s.socket_details s.world in
      let (fd, a, e1) = first_link made (listens, s') e in
      elim (Bool-cases (is_negative fd)) [
        | inl bad ↦
            let same : record s { socket_details = d; world = w } ≡ s' =
              let done = rw bad at e1 in cc in
            subst IsLinkedServer same (record { to_door = l.to_door; threads = l.threads })
        | inr good ↦
            let s0 = record s { world = w } in
            let (s1, b, e2) = first_link (listen_on os uninit d s0) (listens, s') (rw good at e1) in
            let same : s1 ≡ s' = cc in
            subst IsLinkedServer same (
              listen_on-IsLinkedServer uninit d s0 s1
                (record { to_door = l.to_door; threads = l.threads }) b)
      ]
