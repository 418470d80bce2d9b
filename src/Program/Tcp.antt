-- ===== src/Program/Tcp.antt =====
-- `sendDataUsingTCP` of src/main.cpp, with the destructors that run when it ends.
use eventplus.Prelude.{
  ◌≡◌, ◌⊎◌, inl, inr, ℤ, pos, true, false, List, Option, none, some, Result, err, ok, ◌∙◌, refl,
  Bool, null_pointer, aborted, ◌>>=◌, arith,
}
use eventplus.Common.Details.{Ptr, SocketDetails}
use eventplus.Common.Os.{Os}
use eventplus.SocketHandler.Server.{DescriptorLaws}
use eventplus.NetworkEvent.SocketEventHandler.{
  SocketEventHandler, Leftover, stop_polling, destroy_thread,
}
use eventplus.TcpClient
use eventplus.TcpClient.{
  TcpClient, create_tcp_client, create_client_socket_and_start_receiving, close_socket,
}
use eventplus.TcpClient.Opening.{Outcome, create_client_socket_and_start_receiving-Outcome}
use eventplus.Program.{send_data_using_tcp, local_host}

-- A thread that was told to stop still has to be joined.
started-stop_polling : (h : SocketEventHandler) → (stop_polling h).started ≡ h.started
unfolding stop_polling
started-stop_polling h = ground arith

module _ {W : Type 0} (os : Os W) where
  abbrev ending : TcpClient W → Result W
  ending c = close_socket os (TcpClient.send_data os c).1 >>= λ (closed, c').
      destroy_thread c'.socket_event_handler c'.world

  ending-null : (c : TcpClient W) → c.socket_event_handler ≡ none → ending c ≡ err null_pointer
  unfolding close_socket TcpClient.send_data
  ending-null c e = rw (e, close_socket)

  ending-aborted :
      (c : TcpClient W) (h : SocketEventHandler)
      → c.socket_event_handler ≡ some h
      → h.started ≡ true
      → ending c ≡ err aborted
  unfolding close_socket TcpClient.send_data destroy_thread
  ending-aborted c h e s = rw (e, close_socket, started-stop_polling h, s)

  -- A client connected or not, and how `sendDataUsingTCP` ends after it.
  abbrev pub Ended : Result (Option Bool × TcpClient W) → Result W → Type 0
  Ended (err e) r = ⊥
  Ended (ok (told, c)) r =
      ((told ≡ some false) × (r ≡ err null_pointer)) ⊎ ((told ≡ none) × (r ≡ err aborted))

  Outcome-Ended :
      (opened : W → List ℤ) (c : TcpClient W) (m : Result (Option Bool × TcpClient W))
      → c.socket_event_handler ≡ none
      → Outcome opened c m
      → Ended m (m >>= λ (told, c'). ending c')
  Outcome-Ended opened c (err e) no_thread (f, (h, there, s)) = absurd (cc)
  Outcome-Ended opened c (ok (told, c')) no_thread (inl (r, a, b, same)) =
      inl (r, ending-null c' (same ∙ no_thread))
  Outcome-Ended opened c (ok (told, c')) no_thread (inr (n, r, a, v)) =
      inr (r, ending-aborted c' v.thread v.has_thread v.runs)

-- On a system that keeps `DescriptorLaws`, `sendDataUsingTCP` never returns. Without a connection,
-- `closeSocket` reads through a null pointer; with one, its client is destroyed while the epoll
-- thread has not been joined, which ends the program.
pub send_data_using_tcp_faults :
    {W : Type 0} (os : Os W) (opened : W → List ℤ)
    → DescriptorLaws os opened
    → (uninit : SocketDetails) (left : Leftover) (uninit_ssl : Option Ptr) (w : W)
    → let c = create_tcp_client uninit uninit_ssl local_host (pos 8089) w in
      Ended os
        (create_client_socket_and_start_receiving os left uninit_ssl c)
        (send_data_using_tcp os uninit left uninit_ssl w)
unfolding send_data_using_tcp create_tcp_client
send_data_using_tcp_faults os opened laws uninit left uninit_ssl w =
    let c = create_tcp_client uninit uninit_ssl local_host (pos 8089) w in
    Outcome-Ended os opened c _ refl
      (create_client_socket_and_start_receiving-Outcome os opened laws left uninit_ssl c)
