-- ===== src/TcpClient/Closing.antt =====
-- `closeSocket` of src/socket/client/TcpClientSocket.cpp: what is left of a connection, and what
-- its events come to.
use eventplus.Prelude.{
  aborted, Result, ℕ, suc, ok, Returns-map, arith, ap, ◌≡◌, refl, ◌∙◌, ◌⊎◌, inl, inr, ℤ, pos, Bool,
  true, false, List, ◌∷◌, Option, none, some, err, null_pointer, Returns,
}
use eventplus.Common.Details.{Ptr, HandlerClass}
use eventplus.Common.Os.{Os}
use eventplus.Common.Handler.{BaseSocketHandler}
use eventplus.Common.Handler
use eventplus.SocketHandler.Server.{DescriptorLaws}
use eventplus.NetworkEvent.SocketEventHandler
use eventplus.NetworkEvent.SocketEventHandler.{SocketEventHandler, Leftover}
use eventplus.NetworkEvent.Polling.{start_polling, start_polling-off}
use eventplus.TcpClient.{
  TcpClient, create_client_socket_and_start_receiving, close_socket, handle_io_event,
  socket_accept_thread, client_handler, client_callbacks,
}
use eventplus.TcpClient.Opening.{
  Watched, HasStarted, Outcome, create_client_socket_and_start_receiving-Outcome,
}

stop_polling-off :
    (h : SocketEventHandler) → (SocketEventHandler.stop_polling h).continue_polling ≡ false
unfolding SocketEventHandler.stop_polling
stop_polling-off h = ground arith

abbrev HasStopped : {W : Type 0} → TcpClient W → Type 0
HasStopped c =
    (h : SocketEventHandler) × (c.socket_event_handler ≡ some h) × (h.continue_polling ≡ false)

module _ {W : Type 0} (os : Os W) (opened : W → List ℤ) (laws : DescriptorLaws os opened) where
  close_socket-Watched :
      (fd : ℤ) (c : TcpClient W) (before : List ℤ)
      → Watched fd c
      → opened c.world ≡ fd ∷ before
      → Returns
          (λ (r : Bool × TcpClient W). (r.0 ≡ true) × (opened r.1.world ≡ before) × HasStopped r.1)
          (close_socket os c)
  unfolding close_socket
  close_socket-Watched fd c before v e =
      rw (v.has_thread, close_socket, v.socket)
        (refl, laws.close fd c.world before e, (_, refl, stop_polling-off v.thread))

module _ {W : Type 0} (os : Os W) (opened : W → List ℤ) (laws : DescriptorLaws os opened)
    (table : HandlerClass → BaseSocketHandler W) where
  socket_accept_thread_ends :
      (fuel : ℕ) (c : TcpClient W)
      → HasStopped c
      → socket_accept_thread os table (suc fuel) c ≡ ok c
  unfolding socket_accept_thread
  socket_accept_thread_ends fuel c (h, e, off) =
      let same : client_handler h c.socket_event_handler ≡ h = ap (client_handler h) e in
      ap
        (λ o. elim o [
          | none ↦ err null_pointer
          | some made ↦ start_polling (client_callbacks os table made) (suc fuel) c
        ])
        e
      ∙ start_polling-off (client_callbacks os table h) fuel c
          (ap (λ x. x.continue_polling) same ∙ off)

  -- What a client that watches a socket can do with it.
  abbrev pub Closable : List ℤ → TcpClient W → Type 0
  Closable before c =
      Returns
        (λ (r : Bool × TcpClient W).
          (r.0 ≡ true)
          × (opened r.1.world ≡ before)
          × ((fuel : ℕ) → socket_accept_thread os table (suc fuel) r.1 ≡ ok r.1))
        (close_socket os c)
      × ((p : Ptr) → c.client_socket ≡ some p → handle_io_event table p c ≡ err null_pointer)

  -- After the connecting of `c`: no more sockets are open, or the client can close the one that is;
  -- or the program ends, since the thread had been started before.
  abbrev pub AfterConnect : TcpClient W → Result (Option Bool × TcpClient W) → Type 0
  AfterConnect c (err e) = (e ≡ aborted) × HasStarted c
  AfterConnect c (ok (r, c')) = (opened c'.world ≡ opened c.world) ⊎ Closable (opened c.world) c'

  Watched-Closable :
      (n : ℕ) (c : TcpClient W) (before : List ℤ)
      → Watched (pos n) c
      → opened c.world ≡ pos n ∷ before
      → Closable before c
  unfolding handle_io_event Handler.receive_data
  Watched-Closable n c before v more = (
    Returns-map _ _ (close_socket os c)
        (close_socket-Watched os opened laws (pos n) c before v more)
        λ (closed, c') (done, same, stopped).
          (done, same, λ fuel. socket_accept_thread_ends fuel c' stopped),
    λ p owned.
        let here : v.place ≡ p = cc (v.owned, owned) in
        rw (← here, v.live, handle_io_event, v.no_handler),
  )

  Outcome-AfterConnect :
      (c : TcpClient W) (m : Result (Option Bool × TcpClient W))
      → Outcome opened c m
      → AfterConnect c m
  Outcome-AfterConnect c (err e) o = o
  Outcome-AfterConnect c (ok (r, c')) (inl (f, same, a, b)) = inl same
  Outcome-AfterConnect c (ok (r, c')) (inr (n, f, more, v)) =
      inr (Watched-Closable n c' (opened c.world) v more)

  -- On a system that keeps `DescriptorLaws`, after `createClientSocketAndStartReceiving` on a
  -- client whose thread has not been started before, either no more sockets are open than before;
  -- or `closeSocket` returns true, leaves as many open as before the call, and ends the thread's
  -- loop at its next test, and `handleIOEvent` for the client's store calls through a null handler.
  -- With a thread that had been started before, the program may end instead.
  pub create_client_socket_and_start_receiving-close_socket :
      (left : Leftover) (uninit : Option Ptr) (c : TcpClient W)
      → AfterConnect c (create_client_socket_and_start_receiving os left uninit c)
  create_client_socket_and_start_receiving-close_socket left uninit c =
      Outcome-AfterConnect c _
        (create_client_socket_and_start_receiving-Outcome os opened laws left uninit c)
