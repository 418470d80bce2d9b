-- ===== src/Tests/Sockets.antt =====
-- src/socket/SocketHandler.cpp on the simulated system.
use eventplus.Prelude.{◌≡◌, refl, [], ◌∷◌, pos}
use eventplus.Common.Details.{Bytes}
use eventplus.Common.Text.{to_string, atoi}
use eventplus.Common.Os.{AddrInfo}
use eventplus.SocketHandler.{
  create_server_socket, create_client_socket, connect_first, set_non_blocking, after_loop,
  port_of_text, swap_bytes,
}
use eventplus.SocketHandler.Server.{Outcome, create_server_socket-Outcome}
use eventplus.SocketHandler.Client.{Connected, create_client_socket-Connected}
use eventplus.Tests.Simulated.{Wire, simulated, quiet_wire, simulated-DescriptorLaws}
use eventplus.Tests.TcpHandler.{connection}

abbrev port_8080 : Bytes
port_8080 = to_string (pos 8080)

port_of_text_run : port_of_text port_8080 ≡ 0x901f
unfolding to_string port_of_text atoi swap_bytes
port_of_text_run = refl

-- The address is taken: `bind` fails for the next descriptor.
abbrev taken : Wire
taken = record (quiet_wire [] []) { refuses_epoll = pos 7 ∷ []; opened = pos 3 ∷ [] }

create_server_socket-Outcome_example :
    Outcome
      (λ w. w.opened)
      (pos 3 ∷ [])
      (create_server_socket simulated (49 ∷ []) port_8080 connection.details taken)
create_server_socket-Outcome_example =
    create_server_socket-Outcome simulated (λ w. w.opened) simulated-DescriptorLaws (49 ∷ [])
      port_8080 connection.details taken

abbrev address : AddrInfo
address = record { family = 2; socktype = 1; protocol = 6; addr = [] }

abbrev two_addresses : Wire
two_addresses = record taken { addresses = address ∷ address ∷ [] }

create_client_socket_run : (create_client_socket simulated [] port_8080 two_addresses).0 ≡ pos 8
unfolding create_client_socket connect_first after_loop set_non_blocking
create_client_socket_run = refl

create_client_socket-Connected_example :
    Connected simulated
      (λ w. w.opened)
      (pos 3 ∷ [])
      (create_client_socket simulated [] port_8080 two_addresses)
create_client_socket-Connected_example =
    create_client_socket-Connected simulated (λ w. w.opened) simulated-DescriptorLaws [] port_8080
      two_addresses
