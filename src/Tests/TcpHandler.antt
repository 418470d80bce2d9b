-- ===== src/Tests/TcpHandler.antt =====
-- The TCP connections of src/datatrasaction/server/TCPSocketHandler.cpp on the simulated system.
use eventplus.Prelude.{
  ℕ, ◌≡◌, refl, ◌++◌, [], ◌∷◌, pos, minus_one, none, Returns, ok, length, arith,
}
use eventplus.Common.Details.{Bytes, SocketDetails, EventStore, no_type, new, blank}
use eventplus.TcpHandler.{send_loop, send_data, read_loop, finish_read, receive_partial_data}
use eventplus.TcpHandler.Send.{Delivered, send_data-Delivered}
use eventplus.TcpHandler.Receive.{Received, receive_partial_data-Received}
use eventplus.TcpHandler.Available.{receive_partial_data_drops}
use eventplus.Tests.Simulated.{
  moves, interrupts, breaks, Wire, patience, reset, simulated, quiet_wire, simulated-SendLaws,
  simulated-ReadLaws,
}

abbrev details : SocketDetails
details = record {
  socket_id = pos 7;
  event_source_address = record { sin_family = 2; sin_port = 0; sin_addr = 0 };
  str_client_socket_address = [];
  event_source_port = pos 0;
  poll_id = pos 0;
  event_socket_type = no_type;
  socket_status = new;
  epoll_event = 0;
}

abbrev pub connection : EventStore
connection = record {
  details = details;
  parameters = none;
  socket_event_handler = none;
  event_type = blank;
  socket_operation_handler = none;
  ssl = none;
}

abbrev text : Bytes
text = 104 ∷ 101 ∷ 108 ∷ 108 ∷ 111 ∷ []

abbrev busy : Wire
busy = quiet_wire text (moves 2 ∷ interrupts ∷ moves 1 ∷ [])

send_data_run :
    send_data simulated 9 connection text busy
    ≡ ok (pos 5, record (quiet_wire text []) { sent = text; last_error = 4 })
unfolding send_data send_loop
send_data_run = refl

send_data-Delivered_example :
    Returns (λ r. Delivered text [] r.1.sent r.0) (send_data simulated 7 connection text busy)
send_data-Delivered_example =
    send_data-Delivered simulated connection (λ w. w.sent) patience (simulated-SendLaws (pos 7))
      text busy 7 (omega arith)

receive_partial_data_run :
    receive_partial_data simulated 9 connection (pos 4) (1 ∷ []) busy
    ≡ ok (
      pos 4,
      1 ∷ 104 ∷ 101 ∷ 108 ∷ 108 ∷ [],
      record (quiet_wire (111 ∷ []) []) { last_error = 4 },
    )
unfolding receive_partial_data read_loop finish_read
receive_partial_data_run = refl

receive_partial_data-Received_example :
    Returns
      (Received simulated connection (λ w. w.incoming) patience 4 (1 ∷ []) busy)
      (receive_partial_data simulated 6 connection (pos 4) (1 ∷ []) busy)
receive_partial_data-Received_example =
    receive_partial_data-Received simulated connection (λ w. w.incoming) patience
      (simulated-ReadLaws (pos 7)) 4 (1 ∷ []) busy 6 (omega arith)

abbrev closed_wire : Wire
closed_wire = record (quiet_wire text []) { closed = pos 7 ∷ [] }

abbrev breaking : Wire
breaking = quiet_wire text (moves 2 ∷ breaks ∷ [])

receive_partial_data_drops_example :
    (receive_partial_data simulated 2 connection (pos 5) [] breaking
      ≡ ok (minus_one, [], record (quiet_wire (108 ∷ 108 ∷ 111 ∷ []) []) { last_error = reset }))
    × (text ≡ (104 ∷ 101 ∷ []) ++ 108 ∷ 108 ∷ 111 ∷ [])
    × (length {A = ℕ} (104 ∷ 101 ∷ []) ≡ 2)
receive_partial_data_drops_example =
    receive_partial_data_drops simulated connection (λ w. w.incoming) patience
      (simulated-ReadLaws (pos 7)) 5 1 0 0 [] breaking (omega arith) refl refl (omega arith)
      (omega arith)
