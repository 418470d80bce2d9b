-- ===== src/Program.antt =====
-- src/main.cpp: the program that starts a TLS server and calls it with a client. The waits between
-- its steps are no part of the model.
pub mod Receiver
pub mod Calls
pub mod Tcp
pub mod Start
pub mod Runs
pub mod Main
pub mod Together
use eventplus.Prelude.{
  ℕ, ◌^◌, ◌%◌, ℤ, pos, Bool, true, false, List, [], ◌∷◌, Option, none, some, Result, ok, err, ◌>>=◌,
  minus_one, aborted, null_pointer, int_eq, ◌==◌, ◌||◌, to_word, of_word, if◌then◌else◌,
}
use eventplus.Common.Details.{Bytes, Ptr, SocketDetails, EventStore, HandlerClass, tls_server}
use eventplus.Common.Os.{Os}
use eventplus.Common.Ssl.{Ssl}
use eventplus.Common.Handler.{BaseSocketHandler}
use eventplus.Common.Handler
use eventplus.TcpHandler.{is_negative}
use eventplus.TlsHandler
use eventplus.NetworkEvent.SocketEventHandler.{destroy_thread, SocketEventHandler, Leftover}
use eventplus.Server.State.{Server}
use eventplus.Server.Lifecycle.{
  Unset, create_server, set_socket_operation_handler, set_event_receiver,
  start_receiving_connection, create_server_socket_and_start_receiving,
}
use eventplus.TcpClient
use eventplus.TcpClient.{
  TcpClient, create_tcp_client, create_client_socket_and_start_receiving, close_socket,
}
use eventplus.TlsClient
use eventplus.TlsClient.{TlsClient, create_tls_client, init, connect, close}

-- "127.0.0.1"
abbrev pub local_host : Bytes
local_host = b'1' ∷ b'2' ∷ b'7' ∷ b'.' ∷ b'0' ∷ b'.' ∷ b'0' ∷ b'.' ∷ b'1' ∷ []

-- "8089"
abbrev pub port_text : Bytes
port_text = b'8' ∷ b'0' ∷ b'8' ∷ b'9' ∷ []

-- "Hello, TLS server!"
abbrev pub message : Bytes
message =
    b'H' ∷ b'e' ∷ b'l' ∷ b'l' ∷ b'o' ∷ b',' ∷ b' ' ∷ b'T' ∷ b'L' ∷ b'S' ∷ b' ' ∷ b's' ∷ b'e' ∷ b'r'
    ∷ b'v' ∷ b'e' ∷ b'r' ∷ b'!' ∷ []

abbrev is_empty : Bytes → Bool
is_empty [] = true
is_empty (c ∷ text) = false

-- `std::thread::hardware_concurrency()` may not know: then it returns 0.
unfoldable pub num_cores : ℕ → ℕ
num_cores cores = if cores == 0 then 2 else cores

module _ {W : Type 0} (os : Os W) where
  -- `sendDataUsingTCP`, with the destructor of its client.
  unfoldable pub send_data_using_tcp : SocketDetails → Leftover → Option Ptr → W → Result W
  send_data_using_tcp uninit left uninit_ssl w =
      let c = create_tcp_client uninit uninit_ssl local_host (pos 8089) w in
      create_client_socket_and_start_receiving os left uninit_ssl c >>= λ (r, c1).
      let (sent, c2) = TcpClient.send_data os c1 in
      close_socket os c2 >>= λ (closed, c3). destroy_thread c3.socket_event_handler c3.world

module _ {W : Type 0} (os : Os W) (ssl : Ssl W) where
  -- A `return`, with the destructor of the client.
  unfoldable pub finish : ℤ → TlsClient W → Result (ℤ × W)
  finish r c = close os ssl c >>= λ c'. ok (r, c'.world)

  -- From step 5 on.
  unfoldable pub exchange : TlsClient W → Result (ℤ × W)
  exchange c = do
    (sent, c1) ← TlsClient.send_data ssl message c
    let answered = do
      (response, c2) ← TlsClient.receive_data ssl (pos 1024) c1
      close os ssl c2 >>= finish (if is_empty response then minus_one else pos 0)
    if is_negative sent || int_eq sent (pos 0)
        then close os ssl c1 >>= finish minus_one
        else answered

  unfoldable pub send_data_using_tls : SocketDetails → Option Ptr → W → Result (ℤ × W)
  send_data_using_tls uninit uninit_ssl w =
      let (ready, c) = init ssl (create_tls_client uninit local_host port_text w) in
      let (connected, c') = connect os ssl uninit_ssl c in
      if ready then if connected then exchange c' else finish minus_one c' else finish minus_one c

  -- `main` up to the start of the server, or its `return -1`. `left` is what the memory of that
  -- many event threads holds.
  unfoldable pub start_program :
      ℕ → Bytes → Bytes → Unset → (ℕ → List Leftover) → Option Ptr → W → Result (Option (Server W))
  start_program cores certificate key unset left uninit_ssl w = do
    (loaded, h, w1) ← TlsHandler.load_certificate ssl certificate key w
    let started = do
      s ← create_server os unset (left (num_cores cores)) local_host (pos 8089) w1
      s1 ← start_receiving_connection (set_socket_operation_handler (some tls_server) s)
      (listens, s2) ← create_server_socket_and_start_receiving os uninit_ssl s1
      ok (some (set_event_receiver true s2))
    if loaded then started else ok none
