-- ===== src/Tests/Program.antt =====
-- src/main.cpp and the clients of src/socket/client on the simulated system and library.
use eventplus.Prelude.{
  ◌≡◌, refl, ◌⊎◌, inl, [], ◌∷◌, pos, none, some, true, false, err, null_pointer, Returns, replicate,
  length-replicate,
}
use eventplus.Common.Os.{AddrInfo}
use eventplus.TlsHandler
use eventplus.TcpClient.{TcpClient, create_tcp_client, create_client_socket_and_start_receiving}
use eventplus.TcpClient.Closing.{
  AfterConnect, create_client_socket_and_start_receiving-close_socket,
}
use eventplus.TlsClient.{TlsClient, create_tls_client, create_socket, init, close}
use eventplus.TlsClient.Closing.{SslKeeps, Holds, close-Holds}
use eventplus.Program.{
  local_host, port_text, send_data_using_tcp, send_data_using_tls, start_program,
}
use eventplus.Program.Calls.{send_data_using_tls-closes}
use eventplus.Program.Tcp.{Ended, send_data_using_tcp_faults}
use eventplus.Program.Runs.{Runs, start_program-Runs}
use eventplus.Tests.Simulated.{Wire, simulated, quiet_wire, reads-opened, simulated-DescriptorLaws}
use eventplus.Tests.TcpHandler.{connection}
use eventplus.Tests.Tls.{library}
use eventplus.Tests.Scheduler.{left}
use eventplus.Tests.Server.{table, unset}

library-SslKeeps : SslKeeps library (λ w. w.opened)
library-SslKeeps = record {
  client_ctx_new = λ w. refl;
  ctx_free = λ c w. refl;
  new = λ c w. refl;
  set_fd = λ p fd w. refl;
  connect = λ p w. refl;
  get_error = λ p c w. refl;
  write = λ p text w. refl;
  read = λ p n w. reads-opened w.plan n w;
  shutdown = λ p w. refl;
  free = λ p w. refl;
}

abbrev peer : AddrInfo
peer = record { family = 2; socktype = 1; protocol = 6; addr = [] }

-- The first address refuses.
abbrev pub reachable : Wire
reachable = record (quiet_wire [] []) {
  refuses_epoll = pos 7 ∷ [];
  opened = pos 3 ∷ [];
  addresses = peer ∷ peer ∷ [];
}

abbrev tcp_client : TcpClient Wire
tcp_client = create_tcp_client connection.details none local_host (pos 8089) reachable

create_client_socket_and_start_receiving-close_socket_example :
    AfterConnect simulated
      (λ w. w.opened)
      simulated-DescriptorLaws
      table
      tcp_client
      (create_client_socket_and_start_receiving simulated left none tcp_client)
create_client_socket_and_start_receiving-close_socket_example =
    create_client_socket_and_start_receiving-close_socket simulated (λ w. w.opened)
      simulated-DescriptorLaws table left none tcp_client

send_data_using_tcp_faults_example :
    let c = create_tcp_client connection.details none local_host (pos 8089) reachable in
    Ended simulated
      (create_client_socket_and_start_receiving simulated left none c)
      (send_data_using_tcp simulated connection.details left none reachable)
send_data_using_tcp_faults_example =
    send_data_using_tcp_faults simulated (λ w. w.opened) simulated-DescriptorLaws connection.details
      left none reachable

abbrev tls_client : TlsClient Wire
tls_client = record (create_tls_client connection.details local_host port_text reachable) {
  client_socket = some connection;
  socket_details = record connection.details { socket_id = pos 3 };
}

close-Holds_example :
    Returns
      (λ c'. Holds (λ w. w.opened) [] c' × (c'.world.opened ≡ []))
      (close simulated library tls_client)
unfolding create_tls_client
close-Holds_example =
    close-Holds simulated library (λ w. w.opened) simulated-DescriptorLaws library-SslKeeps
      tls_client [] ((connection, refl), inl (3, refl, refl))

send_data_using_tls-closes_example :
    let (ready, c) =
      init library (create_tls_client connection.details local_host port_text reachable) in
    let made = (create_socket simulated c).0 in
    ((ready ≡ true)
      × (made ≡ true)
      × Returns
          (λ r. r.1.opened ≡ pos 3 ∷ [])
          (send_data_using_tls simulated library connection.details none reachable))
    ⊎ (((ready ≡ false) ⊎ (made ≡ false))
        × (send_data_using_tls simulated library connection.details none reachable
            ≡ err null_pointer))
send_data_using_tls-closes_example =
    send_data_using_tls-closes simulated library (λ w. w.opened) simulated-DescriptorLaws
      library-SslKeeps connection.details none reachable

start_program-Runs_example :
    Runs simulated library (TlsHandler.load_certificate library (b'c' ∷ []) (b'k' ∷ []) reachable) (
      start_program simulated library 4
        (b'c' ∷ [])
        (b'k' ∷ [])
        unset
        (λ n. replicate n left)
        none
        reachable)
start_program-Runs_example =
    start_program-Runs simulated library 4 (b'c' ∷ []) (b'k' ∷ []) unset (λ n. replicate n left)
      (λ n. length-replicate n left) none reachable
