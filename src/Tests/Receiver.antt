-- ===== src/Tests/Receiver.antt =====
-- The receiver of src/main.cpp, told of data on the simulated connections.
use eventplus.Prelude.{pos, ℤ, ◌≡◌, arith, none, some, refl, [], ◌∷◌, ◌++◌, Returns}
use eventplus.Common.Details.{Bytes, EventStore, incoming_data, tcp_server, tls_server}
use eventplus.Common.Text.{to_string}
use eventplus.TcpHandler.{tcp_server_handler}
use eventplus.TcpHandler.Receive.{Received}
use eventplus.TlsHandler.{tls_server_handler}
use eventplus.Program.Receiver.{
  receive_event, Shows, count_label, data_label, receive_event-Shows, receive_event-Received,
}
use eventplus.Tests.Simulated.{
  Wire, moves, interrupts, waits, patience, simulated, quiet_wire, simulated-ReadLaws,
}
use eventplus.Tests.TcpHandler.{connection}
use eventplus.Tests.Tls.{library, library-SslLaws}

-- "hello"
abbrev text : Bytes
text = 104 ∷ 101 ∷ 108 ∷ 108 ∷ 111 ∷ []

abbrev over_tls : EventStore
over_tls = record connection { socket_operation_handler = some tls_server; ssl = some 30 }

abbrev paused : Wire
paused = quiet_wire text (moves 3 ∷ waits ∷ [])

receive_event-Shows_example :
    Returns (Shows simulated library (λ w. w.incoming) 30 paused) (
      receive_event
        (λ c. tls_server_handler simulated library 6 none)
        incoming_data
        over_tls
        paused)
receive_event-Shows_example =
    receive_event-Shows simulated library (λ w. w.incoming) 6 none tls_server over_tls 30 paused
      (library-SslLaws 30) refl refl (omega arith)

abbrev over_tcp : EventStore
over_tcp = record connection { socket_operation_handler = some tcp_server }

abbrev interrupted : Wire
interrupted = quiet_wire text (interrupts ∷ moves 3 ∷ [])

receive_event-Received_example :
    Returns
      (λ (lines, w').
        (r : ℤ) × (new : Bytes) × (lines
          ≡ (count_label ++ to_string (pos 5)) ∷ (data_label ++ new) ∷ [])
        × Received simulated over_tcp (λ w. w.incoming) patience 5 [] interrupted (r, new, w'))
      (receive_event
        (λ c. tcp_server_handler simulated 7 0xabcd_0000_0000_1234)
        incoming_data
        over_tcp
        interrupted)
receive_event-Received_example =
    receive_event-Received simulated (λ w. w.incoming) patience 7 0xabcd_0000_0000_1234 0 0 5 5
      tcp_server over_tcp interrupted (simulated-ReadLaws (pos 7)) refl (omega arith) (omega arith)
      (omega arith) refl refl refl refl (omega arith)
