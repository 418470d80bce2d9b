-- ===== src/Server/Boot.antt =====
-- The constructor and the start of src/socket/server/TcpServerSocket.cpp: they give a working
-- server.
use eventplus.Prelude.{
  ℕ, ◌+◌, ◌<◌, ◌≡◌, ◌≢◌, sym, subst, ◌∙◌, ◌⊎◌, inl, inr, ℤ, List, [], Option, none, some, err, refl,
  true, false, aborted, runtime_error, Returns, Returns->>=, arith, length, Bool-cases, ap,
  minus_one, int_eq,
}
use eventplus.Common.Details.{
  Bytes, Ptr, SocketDetails, EventStore, HandlerClass, listener, store_of_details,
  set_socket_handler, io_worker,
}
use eventplus.Common.Text.{to_string}
use eventplus.Common.Os.{Os}
use eventplus.TcpHandler.{is_negative}
use eventplus.SocketHandler.{create_server_socket}
use eventplus.SocketHandler.Server.{create_server_socket_cases}
use eventplus.NetworkEvent.SocketEventHandler
use eventplus.NetworkEvent.SocketEventHandler.{SocketEventHandler, Leftover}
use eventplus.NetworkEvent.EventScheduler
use eventplus.NetworkEvent.EventScheduler.{EventScheduler, for_handlers}
use eventplus.NetworkEvent.EventScheduler.Loops.{
  AllIdle, StaysIdle, start_idle, start_again, create_scheduler-AllIdle, create_scheduler-IsValid,
  Rewired, set_socket_removal_handler-Rewired, set_event_dispatcher_ptr-Rewired,
  start_all_event_handler-Rewired,
}
use eventplus.Server.State.{Server, lookup, update, delete}
use eventplus.Server.Lifecycle.{
  Unset, create_server, set_socket_operation_handler, listen_on,
  create_server_socket_and_start_receiving, start_receiving_connection,
}
use eventplus.Server.Registry.{
  update_same, update_other, delete_other, delete_survivor, update_survivor,
}
use eventplus.Server.Ownership.{IsReady, Ownership}
use eventplus.Server.Total.{IsWorking}

empty-Ownership : (n : ℕ) → Ownership [] (λ p. none) none 0 n
unfolding lookup
empty-Ownership n = record {
  registered = λ fd p l. cc;
  owned = λ p st c. cc;
  distinct = tt;
  apart = λ fd p l. cc;
  listening = λ p l. cc;
  fresh = λ p st c. cc;
  ready = λ p st c. cc;
}

-- The listening socket's store is replaced by a new one.
module _ {m : List (ℤ × Ptr)} {cell : Ptr → Option EventStore} {e : Option Ptr} {next : Ptr} {n : ℕ}
    (o : Ownership m cell e next n) where
  listen-Ownership :
      (new : EventStore)
      → IsReady n new
      → Ownership m (update (delete cell e) next (some new)) (some next) (next + 1) n
  listen-Ownership new good =
      let unused : (q : Ptr) (st : EventStore) → cell q ≡ some st → next ≢ q =
        λ q st c h. absurd (omega (arith, o.fresh q st c)) in
      record {
        registered = λ fd q l.
            let (st, c, i) = o.registered fd q l in
            (
              st,
              update_other (delete cell e) next q _ (unused q st c)
                  ∙ delete_other cell e q (o.apart fd q l)
                  ∙ c,
              i,
            );
        owned = λ q st c. elim (update_survivor (delete cell e) next q new st c) [
          | inl (h, k) ↦ inl (ap some h)
          | inr (h, k) ↦
              let (k', gone) = delete_survivor cell e q st k in
              elim (o.owned q st k') [ inl l ↦ absurd (gone l) | inr l ↦ inr l ]
        ];
        distinct = o.distinct;
        apart = λ fd q l h. let (st, c, i) = o.registered fd q l in unused q st c cc;
        listening = λ q h.
            (new, let here : next ≡ q = cc in rw (← here) (update_same (delete cell e) next _));
        fresh = λ q st c. elim (update_survivor (delete cell e) next q new st c) [
          | inl (h, k) ↦ rw (← h) (omega arith)
          | inr (h, k) ↦ omega (arith, o.fresh q st (delete_survivor cell e q st k).0)
        ];
        ready = λ q st c. elim (update_survivor (delete cell e) next q new st c) [
          | inl (h, k) ↦ rw (← k) good
          | inr (h, k) ↦ o.ready q st (delete_survivor cell e q st k).0
        ];
      }

module _ {W : Type 0} where
  -- None of the server's threads has been started.
  abbrev pub IsIdle : Server W → Type 0
  IsIdle s =
      (s.socket_event_handler.started ≡ false) × AllIdle s.event_scheduler.socket_event_handlers

module _ {W : Type 0} (os : Os W) where
  -- The constructor and the setting of a handler, with at least one event thread: the server works,
  -- and none of its threads has been started.
  pub create_server-IsWorking :
      (unset : Unset) (left : List Leftover) (ip : Bytes) (port : ℤ) (w : W) (c : HandlerClass)
      → 0 < length left
      → Returns
          (λ s. IsWorking (set_socket_operation_handler (some c) s) × IsIdle s)
          (create_server os unset left ip port w)
  unfolding create_server set_socket_operation_handler EventScheduler.set_socket_removal_handler
      SocketEventHandler.create_handler SocketEventHandler.create_epoll
      SocketEventHandler.set_event_dispatcher_ptr
  create_server-IsWorking unset left ip port w c h =
      let (own, w1) = SocketEventHandler.create_handler os unset.listener w in
      let v = create_scheduler-IsValid os left w1 h in
      let e = (EventScheduler.create_scheduler os left w1).0 in
      Returns->>= (λ t. Rewired e t × StaysIdle e t) _
        (EventScheduler.set_socket_removal_handler _ e) _ (set_socket_removal_handler-Rewired e v _)
        λ t ((v', n), idle). (
          record { owners = empty-Ownership t.num_threads; threads = v'; handler = tt },
          (refl, idle (create_scheduler-AllIdle os left w1)),
        )

  listened-IsReady :
      (n : ℕ) (h : SocketEventHandler) (p : Ptr) (st : EventStore) (w : W)
      → IsReady n st
      → IsReady n (SocketEventHandler.add_socket os listener h p st w).1
  unfolding SocketEventHandler.add_socket
  listened-IsReady n h p st w ready =
      elim (Bool-cases (
        int_eq (os.epoll_ctl_add h.epoll_file_descriptor st.socket_id h.poll_event (some p) w).0
          minus_one)) [ inl refused ↦ rw refused ready | inr added ↦ rw added (tt, ready.1) ]

  listen_on-IsWorking :
      (uninit : Option Ptr) (d : SocketDetails) (s : Server W)
      → IsWorking s
      → s.socket_event_handler.started ≡ false
      → Returns IsWorking (listen_on os uninit d s)
  unfolding listen_on store_of_details set_socket_handler
  listen_on-IsWorking uninit d s v idle = rw (start_idle s.socket_event_handler idle) (record {
    owners = listen-Ownership v.owners _ (
        listened-IsReady s.event_scheduler.num_threads s.socket_event_handler s.next_ptr _ s.world
          (tt, v.handler));
    threads = v.threads;
    handler = v.handler;
  })

  listen_on_again :
      (uninit : Option Ptr) (d : SocketDetails) (s : Server W)
      → s.socket_event_handler.started ≡ true
      → listen_on os uninit d s ≡ err aborted
  unfolding listen_on
  listen_on_again uninit d s e = rw (start_again s.socket_event_handler e)

  -- On a working server `createServerSocketAndStartReceiving` leaves it working, whether it listens
  -- or not, with an older listening store deleted; or it throws `runtime_error`; or it ends the
  -- program, since the listening thread had been started before.
  pub create_server_socket_and_start_receiving-Started :
      (uninit : Option Ptr) (s : Server W)
      → IsWorking s
      → Returns (λ r. IsWorking r.1) (create_server_socket_and_start_receiving os uninit s)
        ⊎ (create_server_socket_and_start_receiving os uninit s ≡ err runtime_error)
        ⊎ ((s.socket_event_handler.started ≡ true)
            × (create_server_socket_and_start_receiving os uninit s ≡ err aborted))
  unfolding create_server_socket_and_start_receiving
  create_server_socket_and_start_receiving-Started uninit s v =
      let (result, d, w) =
        create_server_socket os s.server_ip (to_string s.server_port) s.socket_details s.world in
      let s0 = record s { world = w } in
      elim (create_server_socket_cases os s.server_ip (to_string s.server_port) s.socket_details
        s.world) [
          | inr thrown ↦ inr (inl (rw thrown))
          | inl (fd, made) ↦ elim (Bool-cases (is_negative fd)) [
            | inl bad ↦ inl (
                rw (made, bad)
                  (record { owners = v.owners; threads = v.threads; handler = v.handler }))
            | inr good ↦ elim (Bool-cases s.socket_event_handler.started) [
              | inl again ↦ inr (inr (again, rw (made, good, listen_on_again uninit d s0 again)))
              | inr idle ↦ inl (
                  rw (made, good)
                    (Returns->>= IsWorking _ (listen_on os uninit d s0) _
                      (listen_on-IsWorking uninit d s0
                        (record { owners = v.owners; threads = v.threads; handler = v.handler })
                        idle)
                      λ s' v'. v'))
            ]
          ]
        ]

  -- `startReceivingConnection` on a working server none of whose event threads has been started
  -- reaches every thread, throws nothing, and leaves the server working and its listening thread as
  -- it was.
  pub start_receiving_connection-IsWorking :
      (s : Server W)
      → IsWorking s
      → AllIdle s.event_scheduler.socket_event_handlers
      → Returns
          (λ s'. IsWorking s' × (s'.socket_event_handler ≡ s.socket_event_handler))
          (start_receiving_connection s)
  unfolding start_receiving_connection
  start_receiving_connection-IsWorking s v idle =
      let e = s.event_scheduler in
      Returns->>= (λ t. Rewired e t × StaysIdle e t) _
        (EventScheduler.set_event_dispatcher_ptr (some io_worker) e) _
        (set_event_dispatcher_ptr-Rewired e v.threads _)
        λ told ((v1, n1), stays).
          Returns->>= (Rewired told) _ (EventScheduler.start_all_event_handler told) _
            (start_all_event_handler-Rewired told v1 (stays idle))
            λ started (v2, n2). (
              record {
                owners = subst (Ownership _ _ _ _) (sym (n2 ∙ n1)) v.owners;
                threads = v2;
                handler = v.handler;
              },
              refl,
            )
