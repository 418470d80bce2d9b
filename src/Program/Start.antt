-- ===== src/Program/Start.antt =====
-- The start of src/main.cpp, as the composition of certificates, handler and server.
use eventplus.Prelude.{
  ℕ, ◌<◌, ◌≡◌, refl, ◌⊎◌, inl, inr, pos, ap, ◌∙◌, Bool, true, false, List, Option, none, some,
  Result, ok, err, length_error, runtime_error, aborted, Returns, ◌>>=◌, arith, length,
  if◌then◌else◌,
}
use eventplus.Common.Details.{Bytes, Ptr, tls_server}
use eventplus.Common.Os.{Os}
use eventplus.Common.Ssl.{Ssl}
use eventplus.Certificate
use eventplus.Certificate.{
  CertificateHandler, set_certificate_and_key_file_name, init_certification_manager,
}
use eventplus.Certificate.Outcome.{Outcome, is_unreadable, init_certification_manager-Outcome}
use eventplus.TlsHandler
use eventplus.NetworkEvent.SocketEventHandler.{Leftover}
use eventplus.Server.State.{Server}
use eventplus.Server.Lifecycle.{
  Unset, create_server, set_socket_operation_handler, set_event_receiver,
  start_receiving_connection, create_server_socket_and_start_receiving,
}
use eventplus.Server.Total.{IsWorking}
use eventplus.Server.Boot.{
  create_server-IsWorking, start_receiving_connection-IsWorking,
  create_server_socket_and_start_receiving-Started,
}
use eventplus.Program.{num_cores, start_program, local_host}

module _ {W : Type 0} where
  -- A working server that has a receiver, unless its socket could not be made.
  abbrev pub Begun : Result (Option (Server W)) → Type 0
  Begun r =
      Returns (λ o. (s : Server W) × (o ≡ some s) × IsWorking s × (s.event_receiver ≡ true)) r
      ⊎ (r ≡ err runtime_error)

  -- What becomes of the program by what became of its certificates.
  abbrev pub Started :
      Result (Bool × Option CertificateHandler × W) → Result (Option (Server W)) → Type 0
  Started (ok (true, h, w)) r = Begun r
  Started (ok (false, h, w)) r = r ≡ ok none
  Started (err e) r = (r ≡ err e) × ((e ≡ length_error) ⊎ (e ≡ aborted))

pub num_cores-pos : (cores : ℕ) → 0 < num_cores cores
unfolding num_cores
num_cores-pos cores = ground arith

module _ {W : Type 0} where
  Begun->>= :
      {A : Type 0} (P : A → Type 0) (m : Result A) (f : A → Result (Option (Server W)))
      → Returns P m
      → ((a : A) → P a → Begun (f a))
      → Begun (m >>= f)
  Begun->>= P (ok a) f h step = step a h
  Begun->>= P (err e) f h step = absurd h

  abbrev finished : Bool × Server W → Result (Option (Server W))
  finished (listens, s) = ok (some (set_event_receiver true s))

  after_listening :
      (b : Bool) (r : Result (Bool × Server W))
      → b ≡ false
      → Returns (λ r. IsWorking r.1) r ⊎ (r ≡ err runtime_error) ⊎ ((b ≡ true) × (r ≡ err aborted))
      → Begun (r >>= finished)
  unfolding set_event_receiver
  after_listening b (ok (listens, s)) idle (inl v) =
      inl (_, refl, record { owners = v.owners; threads = v.threads; handler = v.handler }, refl)
  after_listening b (ok (listens, s)) idle (inr (inl e)) = absurd (cc)
  after_listening b (ok (listens, s)) idle (inr (inr (again, e))) = absurd (cc)
  after_listening b (err e) idle (inl v) = absurd v
  after_listening b (err e) idle (inr (inl thrown)) = inr (cc)
  after_listening b (err e) idle (inr (inr (again, ended))) = absurd (cc)

  abbrev pub with_handler :
      Result (Bool × CertificateHandler × W) → Result (Bool × Option CertificateHandler × W)
  with_handler m = m >>= λ (loaded, h, w). ok (loaded, some h, w)

  either_way :
      (unreadable : Bool) (m : Result (Bool × CertificateHandler × W))
      → if unreadable then (m ≡ err length_error) else Outcome m
      → (m ≡ err length_error) ⊎ Outcome m
  either_way true m thrown = inl thrown
  either_way false m o = inr o

  after_loading :
      (m : Result (Bool × CertificateHandler × W))
      (f : Bool × Option CertificateHandler × W → Result (Option (Server W)))
      → (m ≡ err length_error) ⊎ Outcome m
      → ((h : Option CertificateHandler) (w : W) → Begun (f (true, h, w)))
      → ((h : Option CertificateHandler) (w : W) → f (false, h, w) ≡ ok none)
      → Started (with_handler m) (with_handler m >>= f)
  after_loading (ok (true, h, w)) f (inr o) good bad = good (some h) w
  after_loading (ok (false, h, w)) f (inr o) good bad = bad (some h) w
  after_loading (ok r) f (inl thrown) good bad = absurd (cc)
  after_loading (err e) f (inl thrown) good bad = (refl, inl (cc))
  after_loading (err e) f (inr o) good bad = (refl, inr o)

-- However many cores the system tells of, and if it tells of none: with its certificates loaded,
-- the program goes on with a working server that has a receiver, or its socket cannot be made and
-- `runtime_error` is thrown; without them, it ends with -1, or as the loading did: a file throws
-- `length_error`, or the program is ended.
pub start_program-Started :
    {W : Type 0} (os : Os W) (ssl : Ssl W) (cores : ℕ) (certificate key : Bytes) (unset : Unset)
    (left : ℕ → List Leftover)
    → ((n : ℕ) → length (left n) ≡ n)
    → (uninit_ssl : Option Ptr) (w : W)
    → Started
        (TlsHandler.load_certificate ssl certificate key w)
        (start_program os ssl cores certificate key unset left uninit_ssl w)
unfolding start_program TlsHandler.load_certificate set_socket_operation_handler
start_program-Started os ssl cores certificate key unset left counts uninit_ssl w =
    let h = set_certificate_and_key_file_name certificate key Certificate.create_handler in
    let threads = left (num_cores cores) in
    let some_thread : 0 < length threads = rw (counts (num_cores cores)) (num_cores-pos cores) in
    after_loading (init_certification_manager ssl h w) _
      (either_way (is_unreadable ssl h w) _ (init_certification_manager-Outcome ssl h w))
      (λ handler w1.
        Begun->>= _ (create_server os unset threads local_host (pos 8089) w1) _
          (create_server-IsWorking os unset threads local_host (pos 8089) w1 tls_server some_thread)
          λ s (v, (own, idle)).
            let s0 = set_socket_operation_handler (some tls_server) s in
            Begun->>= (λ s'. IsWorking s' × (s'.socket_event_handler ≡ s0.socket_event_handler))
              (start_receiving_connection s0) _ (start_receiving_connection-IsWorking os s0 v idle)
              λ s1 (v1, same).
                after_listening s1.socket_event_handler.started
                  (create_server_socket_and_start_receiving os uninit_ssl s1)
                  (ap (λ x. x.started) same ∙ own)
                  (create_server_socket_and_start_receiving-Started os uninit_ssl s1 v1))
      (λ handler w1. refl)
