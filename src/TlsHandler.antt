-- ===== src/TlsHandler.antt =====
-- src/datatrasaction/server/TLSSocketHandler.cpp and TLSServerSocketHandler.h: TLS connections. A
-- loop takes fuel, one unit for a round.
pub mod Receive
pub mod Session
use Prim.Native.Nat.{min}
use eventplus.Prelude.{
  ℕ, zero, suc, ◌+◌, ◌-◌, Bool, true, false, List, [], ◌∷◌, ◌++◌, ℤ, pos, negsuc, minus_one, Option,
  none, some, Result, ok, err, ◌>>=◌, out_of_fuel, null_pointer, int_eq, ltb, ◌==◌, ◌||◌,
  if◌then◌else◌, length, take, replicate,
}
use eventplus.Common.Details.{Bytes, Ptr, EventStore}
use eventplus.Common.Os.{Os}
use eventplus.Common.Ssl.{Ssl, ssl_error_want_read, ssl_error_want_write, ssl_error_zero_return}
use eventplus.Common.Handler.{BaseSocketHandler}
use eventplus.Certificate
use eventplus.Certificate.{
  CertificateHandler, set_certificate_and_key_file_name, init_certification_manager,
  get_new_certificate,
}
use eventplus.TcpHandler.{is_negative, magnitude, overwrite}

-- The bytes that a call put at the start of a new buffer of `size`.
abbrev pub filled : ℕ → ℕ → Bytes → Bytes
filled size n new = take n (overwrite (replicate size 0) 0 new)

abbrev pub is_pause : ℕ → Bool
is_pause e = e == ssl_error_want_read || e == ssl_error_want_write || e == ssl_error_zero_return

-- A loop ends with the bytes that it received, or by an error.
unfoldable pub append_received {ℓ} : {W : Type ℓ} → Bytes → Option Bytes × W → ℤ × Bytes × W
append_received text (none, w) = (minus_one, text, w)
append_received text (some received, w) =
    (pos (length received), (if ltb 0 (length received) then text ++ received else text), w)

module _ {W : Type 0} (ssl : Ssl W) where
  -- A call of `SSL_read` that did not read: `break` or `return -1`.
  unfoldable pub stop_reading : Ptr → ℤ → Bytes → W → Option Bytes × W
  stop_reading p count received w =
      let (e, w') = ssl.get_error p count w in
      if is_pause e then (some received, w') else (none, w')

  -- The `while (true)` of `receiveData`.
  unfoldable pub receive_loop : ℕ → Ptr → Bytes → W → Result (Option Bytes × W)
  receive_loop zero p received w = err out_of_fuel
  receive_loop (suc fuel) p received w =
      let (count, new, w') = ssl.read p 1000 w in
      let more = received ++ filled 1000 (magnitude count) new in
      let again = receive_loop fuel p more w' in
      if ltb 0 (magnitude count)
      then if ltb (magnitude count) 1000 then ok (some more, w') else again
      else ok (stop_reading p count received w')

  -- The `while` of `receivePartialData`.
  unfoldable pub partial_loop : ℕ → Ptr → ℕ → Bytes → W → Result (Option Bytes × W)
  partial_loop zero p remaining received w = err out_of_fuel
  partial_loop (suc fuel) p remaining received w =
      let size = min remaining 1000 in
      let (count, new, w') = ssl.read p size w in
      let more = received ++ filled size (magnitude count) new in
      let again = partial_loop fuel p (remaining - magnitude count) more w' in
      if ltb 0 remaining
      then if ltb 0 (magnitude count)
        then if ltb (magnitude count) size then ok (some more, w') else again
        else ok (stop_reading p count received w')
      else ok (some received, w)

  unfoldable pub send_data : EventStore → Bytes → W → Result (ℤ × W)
  send_data s text w = elim s.ssl [ none ↦ ok (minus_one, w) | some p ↦ ok (ssl.write p text w) ]

  unfoldable pub receive_data : ℕ → EventStore → Bytes → W → Result (ℤ × Bytes × W)
  receive_data fuel s text w = elim s.ssl [
    | none ↦ ok (minus_one, text, w)
    | some p ↦ receive_loop fuel p [] w >>= λ r. ok (append_received text r)
  ]

  -- With a size below one the loop does not run.
  unfoldable pub receive_partial_data : ℕ → EventStore → ℤ → Bytes → W → Result (ℤ × Bytes × W)
  receive_partial_data fuel s size text w = elim s.ssl [
    | none ↦ ok (minus_one, text, w)
    | some p ↦ elim size [
      | negsuc n ↦ ok (append_received text (some [], w))
      | pos n ↦ partial_loop fuel p n [] w >>= λ r. ok (append_received text r)
    ]
  ]

  unfoldable pub get_available_data_in_socket : EventStore → W → ℤ × W
  get_available_data_in_socket s w = (minus_one, w)

  unfoldable pub load_certificate :
      Bytes → Bytes → W → Result (Bool × Option CertificateHandler × W)
  load_certificate cert key w =
      init_certification_manager ssl
        (set_certificate_and_key_file_name cert key Certificate.create_handler) w
      >>= λ (loaded, h, w'). ok (loaded, some h, w')

module _ {W : Type 0} (os : Os W) (ssl : Ssl W) where
  -- From `SSL_set_fd` on, with the new `SSL*` in the store.
  unfoldable pub handshake : Ptr → EventStore → W → Bool × EventStore × W
  handshake p s w =
      let (status, w1) = ssl.accept p (ssl.set_fd p s.socket_id w) in
      let w2 = (ssl.get_error p status w1).1 in
      let w3 = ssl.free p (os.close s.socket_id w2).1 in
      if is_negative status || int_eq status (pos 0)
      then (false, record s { ssl = none }, w3)
      else (true, s, w1)

  -- `m_sslCertificateHandler` is null until `loadCertificate` makes it.
  unfoldable pub init_connection :
      Option CertificateHandler → EventStore → W → Result (Bool × EventStore × W)
  init_connection none s w = elim s.ssl [ none ↦ ok (false, s, w) | some p ↦ err null_pointer ]
  init_connection (some h) s w =
      let (made, w') = get_new_certificate ssl h w in
      let started : Bool × EventStore × W = elim made [
        | none ↦ (false, record s { ssl = none }, (os.close s.socket_id w').1)
        | some p ↦ handshake p (record s { ssl = some p }) w'
      ] in
      elim s.ssl [ none ↦ ok (false, s, w) | some old ↦ ok started ]

  unfoldable pub close_connection : EventStore → W → EventStore × W
  close_connection s w = elim s.ssl [
    | none ↦ (s, w)
    | some p ↦
        (let (status, w1) = ssl.shutdown p w in
          let w2 = if is_negative status then (ssl.get_error p status w1).1 else w1 in
          (record s { ssl = none }, ssl.free p (os.close s.socket_id w2).1))
  ]

  -- The class as the server sees it.
  abbrev pub tls_server_handler : ℕ → Option CertificateHandler → BaseSocketHandler W
  tls_server_handler fuel h = record {
    init_connection = init_connection h;
    send_data = send_data ssl;
    receive_data = receive_data ssl fuel;
    receive_partial_data = receive_partial_data ssl fuel;
    get_available_data_in_socket = get_available_data_in_socket ssl;
    close_connection = close_connection;
  }
