-- ===== src/Program/Together.antt =====
-- The server of src/main.cpp with all its threads, from the end of the start on: its polling threads
-- and the pool's.
use eventplus.Prelude.{
  ℕ, ◌<◌, ◌≡◌, inl, inr, true, false, pos, List, Option, some, Result, ok, err, first_link, Returns,
  Bool, Bool-cases, length, get_elem?_lt, arith, subst,
}
use eventplus.Common.Details.{Bytes, Ptr, Poller, tls_server}
use eventplus.Common.Os.{Os}
use eventplus.Common.Ssl.{Ssl}
use eventplus.Certificate.{CertificateHandler}
use eventplus.TlsHandler
use eventplus.TlsHandler.Session.{tls_server_handler-HandlerLaws}
use eventplus.NetworkEvent.SocketEventHandler.{Leftover}
use eventplus.NetworkEvent.EventScheduler.Every.{Every-get_elem?}
use eventplus.NetworkEvent.Turns.{at_test, polling_turn}
use eventplus.Server.State.{Server, poller}
use eventplus.Server.Connections.{Uninit}
use eventplus.Server.Lifecycle.{
  Unset, create_server, set_socket_operation_handler, set_event_receiver,
  start_receiving_connection, create_server_socket_and_start_receiving,
}
use eventplus.Server.System.{own_handler, callbacks}
use eventplus.Server.Total.{IsWorking}
use eventplus.Server.Threads.{System, move, Promises, Reaches}
use eventplus.Server.Threads.Steady.{IsWired, IsSteady}
use eventplus.Server.Threads.Safety.{reached_threads-handle}
use eventplus.Server.Wiring.{
  IsLinked, IsLinkedServer, start_receiving_connection-IsLinkedServer, create_server-CallsRemoval,
  create_server_socket_and_start_receiving-IsLinkedServer,
}
use eventplus.Program.{start_program, num_cores, local_host}
use eventplus.Program.Start.{Started, num_cores-pos, start_program-Started}
use eventplus.Program.Runs.{handlers}

module _ {W : Type 0} where
  -- Every polling thread is at the test of its loop.
  abbrev pub all_at_test : Server W → System W
  all_at_test s = record { server = s; place = λ who. at_test }

  same_program : (s s' : Server W) → ok (some s) ≡ ok (some s') → s ≡ s'
  same_program s s' e = cc

  IsLinkedServer-IsWired : (s : Server W) → IsWorking s → IsLinkedServer s → IsWired s
  unfolding own_handler poller
  IsLinkedServer-IsWired s v l = record {
    to_door = l.to_door;
    to_pool = λ i lt.
        let (h, there) =
          get_elem?_lt s.event_scheduler.socket_event_handlers i
            (omega (arith, v.threads.counted, lt)) in
        rw (there, own_handler, poller)
          (Every-get_elem? IsLinked s.event_scheduler.socket_event_handlers i h l.threads there).0;
  }

module _ {W : Type 0} (os : Os W) (ssl : Ssl W) where
  start_program-IsLinkedServer :
      (cores : ℕ) (certificate key : Bytes) (unset : Unset) (left : ℕ → List Leftover)
      → ((n : ℕ) → length (left n) ≡ n)
      → (uninit_ssl : Option Ptr) (w : W) (s : Server W)
      → start_program os ssl cores certificate key unset left uninit_ssl w ≡ ok (some s)
      → IsLinkedServer s
  unfolding start_program set_socket_operation_handler set_event_receiver
  start_program-IsLinkedServer cores certificate key unset left counts uninit_ssl w s e =
      let threads = left (num_cores cores) in
      let some_thread : 0 < length threads = rw (counts (num_cores cores)) (num_cores-pos cores) in
      let ((loaded, h, w1), a, e1) =
        first_link (TlsHandler.load_certificate ssl certificate key w) (some s) e in
      elim (Bool-cases loaded) [
        | inr refused ↦ let no_server = rw refused at e1 in absurd (cc)
        | inl good ↦
            let (s1, b, e2) =
              first_link (create_server os unset threads local_host (pos 8089) w1) (some s)
                (rw good at e1) in
            let (s2, c, e3) =
              first_link
                (start_receiving_connection (set_socket_operation_handler (some tls_server) s1))
                (some s) e2 in
            let ((listens, s3), d, e4) =
              first_link (create_server_socket_and_start_receiving os uninit_ssl s2) (some s) e3 in
            let (door, valid, removes) =
              create_server-CallsRemoval os unset threads local_host (pos 8089) w1 s1 some_thread
                b in
            let l2 = start_receiving_connection-IsLinkedServer _ s2 door valid removes c in
            let l3 =
              create_server_socket_and_start_receiving-IsLinkedServer os uninit_ssl s2 s3 listens l2
                d in
            let same = same_program (record s3 { event_receiver = true }) s e4 in
            subst IsLinkedServer same (record { to_door = l3.to_door; threads = l3.threads })
      ]

  Started-IsWorking :
      (m : Result (Bool × Option CertificateHandler × W)) (r : Result (Option (Server W)))
      (s : Server W)
      → Started m r
      → r ≡ ok (some s)
      → IsWorking s
  Started-IsWorking (ok (true, h, w)) r s (inl begun) e =
      let (s0, same, v, receives) = rw e at begun in let one : s0 ≡ s = cc in subst IsWorking one v
  Started-IsWorking (ok (true, h, w)) r s (inr thrown) e = absurd (cc)
  Started-IsWorking (ok (false, h, w)) r s none_made e = absurd (cc)
  Started-IsWorking (err f) r s (same, which) e = absurd (cc)

module _ {W : Type 0} (os : Os W) (ssl : Ssl W) (cores : ℕ) (certificate key : Bytes)
    (unset : Unset) (left : ℕ → List Leftover) (counts : (n : ℕ) → length (left n) ≡ n)
    (uninit_ssl : Option Ptr) (w : W) (s : Server W)
    (starts : start_program os ssl cores certificate key unset left uninit_ssl w
      ≡ ok (some s)) where
  start_program-IsSteady : IsSteady (all_at_test s)
  start_program-IsSteady =
      let v =
        Started-IsWorking os ssl _ _ s
          (start_program-Started os ssl cores certificate key unset left counts uninit_ssl w)
          starts in
      record {
        working = v;
        wired = IsLinkedServer-IsWired s v (
            start_program-IsLinkedServer os ssl cores certificate key unset left counts uninit_ssl w
              s starts);
        pending = λ who. tt;
      }

  -- `main` has started its server. However many cores there are, whatever the certificates and the
  -- TLS library say to its clients, and however its polling threads, each somewhere in its loop,
  -- the threads of the pool and the world take turns: if the calls of the system keep their
  -- promises, every polling thread makes its next step without a fault, and what each has been told
  -- of stays good until it is handled.
  pub start_program-threads :
      (fuel : ℕ) (h : CertificateHandler) (uninit : Uninit) (y : System W)
      → Reaches os (handlers os ssl fuel h) uninit (all_at_test s) y
      → (who : Poller) → Promises os (handlers os ssl fuel h) uninit who (y.place who) y
      → Returns
          (λ (place, s'). IsSteady (record { server = s'; place = move y.place who place }))
          (polling_turn (callbacks os (handlers os ssl fuel h) uninit who) (y.place who) y.server)
  start_program-threads fuel h uninit y reached who promised =
      reached_threads-handle os (handlers os ssl fuel h)
        (λ c. tls_server_handler-HandlerLaws os ssl fuel h) uninit (all_at_test s) y
        start_program-IsSteady reached who promised
