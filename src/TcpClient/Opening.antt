-- ===== src/TcpClient/Opening.antt =====
-- `createClientSocketAndStartReceiving` of src/socket/client/TcpClientSocket.cpp: what a connection
-- opens.
use eventplus.Prelude.{
  aborted, Result, ◌>>=◌, ℕ, ok, ◌≡◌, refl, ◌∙◌, ◌⊎◌, inl, inr, ℤ, pos, minus_one, Bool, true,
  false, List, ◌∷◌, Option, none, some, err, Returns, int_eq, Bool-cases, Option-cases,
}
use eventplus.Common.Details.{Ptr, EventStore, client_poller, store_of_details}
use eventplus.Common.Text.{to_string}
use eventplus.Common.Os.{Os}
use eventplus.SocketHandler.{create_client_socket}
use eventplus.SocketHandler.Server.{DescriptorLaws}
use eventplus.SocketHandler.Client.{create_client_socket-Connected}
use eventplus.NetworkEvent.SocketEventHandler
use eventplus.NetworkEvent.SocketEventHandler.{SocketEventHandler, Leftover}
use eventplus.NetworkEvent.EventScheduler.Loops.{start_idle, start_again}
use eventplus.Server.State.{delete}
use eventplus.Server.Registry.{update_same}
use eventplus.TcpClient.{TcpClient, event_thread, watch, create_client_socket_and_start_receiving}

module _ {W : Type 0} where
  -- The client owns a store for socket `fd`, which has no handler, and its thread runs.
  pub record Watched (fd : ℤ) (c : TcpClient W) : Type 0 where
    pub socket : c.socket_details.socket_id ≡ fd
    pub place : Ptr
    pub owned : c.client_socket ≡ some place
    pub store : EventStore
    pub live : c.cell place ≡ some store
    pub same : store.socket_id ≡ fd
    pub no_handler : store.socket_operation_handler ≡ none
    pub thread : SocketEventHandler
    pub has_thread : c.socket_event_handler ≡ some thread
    pub runs : thread.started ≡ true

-- The thread of the client has been started before.
abbrev pub HasStarted : {W : Type 0} → TcpClient W → Type 0
HasStarted c = (h : SocketEventHandler) × (c.socket_event_handler ≡ some h) × (h.started ≡ true)

module _ {W : Type 0} (opened : W → List ℤ) where
  -- False, and as many sockets as before; or no value, and one more, which the client watches; or
  -- the end of the program.
  abbrev pub Outcome : TcpClient W → Result (Option Bool × TcpClient W) → Type 0
  Outcome c (err e) = (e ≡ aborted) × HasStarted c
  Outcome c (ok (r, c')) =
      ((r ≡ some false)
        × (opened c'.world ≡ opened c.world)
        × (c'.client_socket ≡ c.client_socket)
        × (c'.socket_event_handler ≡ c.socket_event_handler))
      ⊎ ((n : ℕ) × (r ≡ none) × (opened c'.world ≡ pos n ∷ opened c.world) × Watched (pos n) c')

module _ {W : Type 0} (os : Os W) (opened : W → List ℤ) (laws : DescriptorLaws os opened) where
  added_store :
      (h : SocketEventHandler) (p : Ptr) (st : EventStore) (w : W)
      → let r = SocketEventHandler.add_socket os client_poller h p st w in
        (r.1.socket_id ≡ st.socket_id)
        × (r.1.socket_operation_handler ≡ st.socket_operation_handler)
        × (opened r.2 ≡ opened w)
  unfolding SocketEventHandler.add_socket
  added_store h p st w =
      let kept = laws.epoll_ctl_add h.epoll_file_descriptor st.socket_id h.poll_event (some p) w in
      elim (Bool-cases (
        int_eq (os.epoll_ctl_add h.epoll_file_descriptor st.socket_id h.poll_event (some p) w).0
          minus_one)) [
            | inl refused ↦ rw refused (refl, refl, kept)
            | inr added ↦ rw added (refl, refl, kept)
          ]

  opened-event_thread :
      (left : Leftover) (c : TcpClient W) → opened (event_thread os left c).1 ≡ opened c.world
  unfolding event_thread SocketEventHandler.create_handler SocketEventHandler.create_epoll
  opened-event_thread left c = elim (Option-cases c.socket_event_handler) [
    | inl e ↦ rw e (laws.epoll_create 5000 c.world)
    | inr (h, e) ↦ rw e
  ]

  event_thread-started :
      (left : Leftover) (c : TcpClient W) → (event_thread os left c).0.started ≡ true → HasStarted c
  unfolding event_thread SocketEventHandler.create_handler SocketEventHandler.create_epoll
  event_thread-started left c again = elim (Option-cases c.socket_event_handler) [
    | inl e ↦ let no = rw (e, event_thread) at again in absurd (cc)
    | inr (h, e) ↦ (h, e, rw (e, event_thread) at again)
  ]

  watch_again :
      (left : Leftover) (uninit : Option Ptr) (fd : ℤ) (c : TcpClient W)
      → (event_thread os left c).0.started ≡ true
      → watch os left uninit fd c ≡ err aborted
  unfolding watch
  watch_again left uninit fd c again = rw (start_again (event_thread os left c).0 again)

  watch-Watched :
      (left : Leftover) (uninit : Option Ptr) (fd : ℤ) (c : TcpClient W)
      → (event_thread os left c).0.started ≡ false
      → Returns
          (λ c'. Watched fd c' × (opened c'.world ≡ opened c.world))
          (watch os left uninit fd c)
  unfolding watch store_of_details
  watch-Watched left uninit fd c idle =
      let (h, w1) = event_thread os left c in
      let made = store_of_details (record c.socket_details { socket_id = fd }) none uninit in
      let r = SocketEventHandler.add_socket os client_poller h c.next_ptr made w1 in
      let (i, o, k) = added_store h c.next_ptr made w1 in
      rw (start_idle h idle) (
        record {
          socket = refl;
          place = c.next_ptr;
          owned = refl;
          store = r.1;
          live = update_same (delete c.cell c.client_socket) c.next_ptr (some r.1);
          same = i;
          no_handler = o;
          thread = record h { started = true };
          has_thread = refl;
          runs = refl;
        },
        k ∙ opened-event_thread left c,
      )

  connected :
      (c : TcpClient W) (m : Result (TcpClient W)) (n : ℕ) {w : W}
      → opened w ≡ pos n ∷ opened c.world
      → Returns (λ c'. Watched (pos n) c' × (opened c'.world ≡ opened w)) m
      → Outcome opened c (m >>= λ c'. ok (none, c'))
  connected c (ok c') n more (watched, kept) = inr (n, refl, kept ∙ more, watched)
  connected c (err e) n more h = absurd h

  -- On a system that keeps `DescriptorLaws`, `createClientSocketAndStartReceiving` returns false,
  -- with no more sockets open than before and its store and thread as they were; or it returns no
  -- value at all, one socket more is open, and the client owns a store for it and a running thread.
  -- With a thread that had been started before, the program may end instead.
  pub create_client_socket_and_start_receiving-Outcome :
      (left : Leftover) (uninit : Option Ptr) (c : TcpClient W)
      → Outcome opened c (create_client_socket_and_start_receiving os left uninit c)
  unfolding create_client_socket_and_start_receiving
  create_client_socket_and_start_receiving-Outcome left uninit c =
      let text = to_string c.server_port in
      let (fd, w) = create_client_socket os c.server_ip text c.world in
      elim (create_client_socket-Connected os opened laws c.server_ip text c.world) [
        | inl (e, same) ↦ rw e (inl (refl, same, refl, refl))
        | inr (n, e, more) ↦
            let c0 = record c { world = w } in
            rw e (elim (Bool-cases (event_thread os left c0).0.started) [
              | inl again ↦
                  rw (watch_again left uninit (pos n) c0 again)
                    (refl, event_thread-started left c0 again)
              | inr idle ↦
                  connected c (watch os left uninit (pos n) c0) n more
                    (watch-Watched left uninit (pos n) c0 idle)
            ])
      ]
