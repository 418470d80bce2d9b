-- ===== src/Program/Runs.antt =====
-- src/main.cpp with the handler of src/datatrasaction/server/TLSSocketHandler.cpp: from its start
-- on, its server handles whatever comes.
use eventplus.Prelude.{
  ℕ, ◌≡◌, ◌⊎◌, inl, inr, Bool, true, false, List, Option, none, some, Result, ok, err, Returns,
  Returns-map, length_error, runtime_error, aborted, length,
}
use eventplus.Common.Details.{Bytes, Ptr, Poller, HandlerClass}
use eventplus.Common.Os.{Os}
use eventplus.Common.Ssl.{Ssl}
use eventplus.Common.Handler.{BaseSocketHandler}
use eventplus.Certificate
use eventplus.Certificate.{
  CertificateHandler, set_certificate_and_key_file_name, init_certification_manager,
}
use eventplus.TlsHandler
use eventplus.TlsHandler.{tls_server_handler}
use eventplus.TlsHandler.Session.{tls_server_handler-HandlerLaws}
use eventplus.NetworkEvent.SocketEventHandler.{Leftover}
use eventplus.NetworkEvent.Polling.{process_event}
use eventplus.Server.State.{Server}
use eventplus.Server.Connections.{Uninit}
use eventplus.Server.Lifecycle.{Unset}
use eventplus.Server.System.{callbacks}
use eventplus.Server.Total.{IsWorking, Live}
use eventplus.Server.Reachable.{Reaches, reached_server-handles}
use eventplus.Program.{start_program}
use eventplus.Program.Start.{Started, with_handler, start_program-Started}

module _ {W : Type 0} (os : Os W) (ssl : Ssl W) where
  -- `main` makes one handler, which its server and the stores point to: every virtual call reaches
  -- it.
  abbrev pub handlers : ℕ → CertificateHandler → HandlerClass → BaseSocketHandler W
  handlers fuel h c = tls_server_handler os ssl fuel (some h)

  -- However the threads of the server take turns, and whatever happens outside: it works, and an
  -- event for a store that is there is handled.
  abbrev pub GoesOn : CertificateHandler → Server W → Type 0
  GoesOn h s =
      (fuel : ℕ) (uninit : Uninit) (s' : Server W)
      → Reaches os (handlers fuel h) uninit s s'
      → IsWorking s'
        × ((who : Poller) (events : ℕ) (p : Ptr)
            → Live p s'
            → Returns IsWorking (
                process_event (callbacks os (handlers fuel h) uninit who)
                  (record { events = events; ptr = some p }) s'))

  abbrev pub Runs :
      Result (Bool × Option CertificateHandler × W) → Result (Option (Server W)) → Type 0
  Runs (ok (true, none, w)) r = ⊥
  Runs (ok (true, some h, w)) r =
      Returns (λ o. (s : Server W) × (o ≡ some s) × GoesOn h s) r ⊎ (r ≡ err runtime_error)
  Runs (ok (false, h, w)) r = r ≡ ok none
  Runs (err e) r = (r ≡ err e) × ((e ≡ length_error) ⊎ (e ≡ aborted))

  IsWorking-GoesOn : (h : CertificateHandler) (s : Server W) → IsWorking s → GoesOn h s
  IsWorking-GoesOn h s v fuel uninit s' reached =
      reached_server-handles os (handlers fuel h)
        (λ c. tls_server_handler-HandlerLaws os ssl fuel h) uninit s s' v reached

  Started-Runs :
      (m : Result (Bool × CertificateHandler × W)) (r : Result (Option (Server W)))
      → Started (with_handler m) r
      → Runs (with_handler m) r
  Started-Runs (ok (true, h, w)) r (inl begun) =
      inl (Returns-map _ _ r begun λ o (s, e, v, receives). (s, e, IsWorking-GoesOn h s v))
  Started-Runs (ok (true, h, w)) r (inr thrown) = inr thrown
  Started-Runs (ok (false, h, w)) r e = e
  Started-Runs (err e) r f = f

  -- With its certificates loaded, `main` throws `runtime_error`, or goes on with a server that
  -- works and handles every event for a store that is there, however its threads take turns and
  -- whatever the system, the TLS library and the peers do; without them, it ends with -1, or as the
  -- loading did.
  pub start_program-Runs :
      (cores : ℕ) (certificate key : Bytes) (unset : Unset) (left : ℕ → List Leftover)
      → ((n : ℕ) → length (left n) ≡ n)
      → (uninit_ssl : Option Ptr) (w : W)
      → Runs
          (TlsHandler.load_certificate ssl certificate key w)
          (start_program os ssl cores certificate key unset left uninit_ssl w)
  unfolding TlsHandler.load_certificate
  start_program-Runs cores certificate key unset left counts uninit_ssl w =
      Started-Runs
        (init_certification_manager ssl
          (set_certificate_and_key_file_name certificate key Certificate.create_handler) w)
        _ (start_program-Started os ssl cores certificate key unset left counts uninit_ssl w)
