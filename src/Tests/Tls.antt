-- ===== src/Tests/Tls.antt =====
-- src/datatrasaction/server/TLSSocketHandler.cpp and src/ssl/SSLCertificateHandler.cpp on a
-- simulated library: sessions are numbered, and a session reads what the simulated peer sends.
use eventplus.Prelude.{
  err, length_error, if◌then◌else◌, ◌+◌, ◌≡◌, refl, ◌++◌, ◌==◌, List, [], ◌∷◌, pos, minus_one, none,
  some, ok, Returns, length, inr, arith, if◌then◌else◌, ==_iff,
}
use eventplus.Common.Details.{Bytes, Ptr, EventStore}
use eventplus.Common.Ssl.{Ssl}
use eventplus.Certificate
use eventplus.Certificate.{
  CertificateHandler, set_certificate_and_key_file_name, init_certification_manager,
  create_certificate_context, load_certificate_from_file, load_certificate, load_private_key,
  load_file,
}
use eventplus.Certificate.Outcome.{Outcome, is_unreadable, init_certification_manager-Outcome}
use eventplus.TlsHandler.{
  receive_loop, append_received, init_connection, close_connection, receive_data,
  receive_partial_data,
}
use eventplus.TlsHandler.Receive.{
  SslLaws, Ended, Decrypted, UpTo, receive_data-Decrypted, receive_partial_data-Decrypted,
}
use eventplus.TlsHandler.Session.{
  SessionLaws, Opened, init_connection-Opened, init_connection-close_connection,
}
use eventplus.TlsClientHandler
use eventplus.TlsClientHandler.Closing.{Closed, client_session-Closed}
use eventplus.Tests.Simulated.{
  moves, waits, Wire, simulated, quiet_wire, reads, reads-stored, reads-refused,
}
use eventplus.Tests.TcpHandler.{connection}

abbrev without_session : Ptr → List Ptr → List Ptr
without_session p [] = []
without_session p (q ∷ qs) = if q == p then qs else q ∷ without_session p qs

-- The peer breaks the handshake when something is waiting to be read before it.
abbrev pub library : Ssl Wire
library = record {
  ctx_new = λ w. (some 3, w);
  client_ctx_new = λ w. (some 3, w);
  load_verify_locations = λ c cert key w. (pos 1, w);
  use_certificate_file = λ c cert w. (pos 1, w);
  use_private_key_file = λ c key w. (pos 1, w);
  check_private_key = λ c w. (pos 1, w);
  set_verify_peer = λ c depth w. w;
  read_file =
      λ name w. if length name == 0 then (minus_one, none, w) else (pos 2, some (1 ∷ 2 ∷ []), w);
  read_x509 = λ text w. (some 4, w);
  read_rsa = λ text w. (some 5, w);
  new = λ c w.
      (some w.next_fd, record w { next_fd = w.next_fd + 1; sessions = w.next_fd ∷ w.sessions });
  ctx_free = λ c w. w;
  set_fd = λ p fd w. w;
  accept = λ p w. (if length w.incoming == 0 then pos 1 else minus_one, w);
  connect = λ p w. (if length w.incoming == 0 then pos 1 else minus_one, w);
  get_error = λ p c w. (if w.last_error == 11 then 2 else 5, w);
  write = λ p text w. (pos (length text), record w { sent = w.sent ++ text });
  read = λ p n w. reads w.plan n w;
  shutdown = λ p w. (pos 0, w);
  free = λ p w. record w { sessions = without_session p w.sessions };
}

pub library-SslLaws : (p : Ptr) → SslLaws library p (λ w. w.incoming)
library-SslLaws p = record {
  stored = λ n w k e. reads-stored w.plan n w k e;
  refused = λ n w k e. let (a, b, c) = reads-refused w.plan n w k e in b;
  asked = λ c w. refl;
}

library-SessionLaws : SessionLaws simulated library (λ w. w.sessions) (λ w. w.closed)
library-SessionLaws = record {
  new = λ c w. inr (w.next_fd, refl, refl);
  new_closed = λ c w. refl;
  set_fd = λ p fd w. (refl, refl);
  accept = λ p w. (refl, refl);
  connect = λ p w. (refl, refl);
  get_error = λ p c w. (refl, refl);
  shutdown = λ p w. (refl, refl);
  free = λ p w rest e. (rw (e, (==_iff p p).1 refl) refl, refl);
  close = λ fd w. (refl, refl);
}

abbrev secured : EventStore
secured = record connection { ssl = some 30 }

abbrev text : Bytes
text = 104 ∷ 101 ∷ 108 ∷ 108 ∷ 111 ∷ []

abbrev paused : Wire
paused = quiet_wire text (moves 3 ∷ waits ∷ [])

receive_data_run :
    receive_data library 6 secured [] paused
    ≡ ok
        (pos 3, 104 ∷ 101 ∷ 108 ∷ [], record (quiet_wire (108 ∷ 111 ∷ []) []) { plan = waits ∷ [] })
unfolding receive_data receive_loop append_received
receive_data_run = refl

receive_data-Decrypted_example :
    Returns
      (Decrypted library 30
        (λ w. w.incoming)
        (λ new w'. Ended library 30 (λ w. w.incoming) w')
        []
        paused)
      (receive_data library 6 secured [] paused)
receive_data-Decrypted_example =
    receive_data-Decrypted library secured 30 (λ w. w.incoming) (library-SslLaws 30) refl [] paused
      6 (omega arith)

receive_partial_data-Decrypted_example :
    Returns
      (Decrypted library 30 (λ w. w.incoming) (UpTo library 30 (λ w. w.incoming) 4) [] paused)
      (receive_partial_data library 5 secured (pos 4) [] paused)
receive_partial_data-Decrypted_example =
    receive_partial_data-Decrypted library secured 30 (λ w. w.incoming) (library-SslLaws 30) refl 4
      [] paused 5 (omega arith)

abbrev certified : CertificateHandler
certified = record Certificate.create_handler { ssl_context = some 3 }

init_connection-Opened_example :
    Returns
      (Opened (λ w. w.sessions) (λ w. w.closed) secured paused)
      (init_connection simulated library (some certified) secured paused)
init_connection-Opened_example =
    init_connection-Opened simulated library (λ w. w.sessions) (λ w. w.closed) library-SessionLaws
      certified secured 30 paused refl

init_connection-close_connection_example :
    Returns
      (λ r.
        let w' = (close_connection simulated library r.1 r.2).1 in
        (w'.sessions ≡ []) × (w'.closed ≡ pos 7 ∷ []))
      (init_connection simulated library (some certified) secured paused)
init_connection-close_connection_example =
    init_connection-close_connection simulated library (λ w. w.sessions) (λ w. w.closed)
      library-SessionLaws certified secured 30 paused refl

init_certification_manager-Outcome_example :
    if is_unreadable library Certificate.create_handler paused
    then (init_certification_manager library Certificate.create_handler paused ≡ err length_error)
    else Outcome (init_certification_manager library Certificate.create_handler paused)
init_certification_manager-Outcome_example =
    init_certification_manager-Outcome library Certificate.create_handler paused

client_session-Closed_example :
    let r = TlsClientHandler.init_connection library (some 3) connection paused in
    let t = TlsClientHandler.close_connection simulated library r.1 r.2 in
    Closed simulated library (λ w. w.sessions) (λ w. w.closed) (pos 7) [] [] t
    × (TlsClientHandler.close_connection simulated library t.0 t.1 ≡ t)
client_session-Closed_example =
    client_session-Closed simulated library (λ w. w.sessions) (λ w. w.closed) library-SessionLaws
      (some 3) connection paused (λ e. cc)
