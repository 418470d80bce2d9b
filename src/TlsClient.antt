-- ===== src/TlsClient.antt =====
-- src/socket/client/TLSClient.{h,cpp}: a client with one TLS connection, read and written directly.
pub mod Closing
use eventplus.Prelude.{
  ℕ, ℤ, pos, negsuc, Bool, true, false, List, [], ◌∷◌, Option, none, some, Result, ok, err, ◌>>=◌,
  minus_one, int_eq, length_error, null_pointer, ◌||◌, if◌then◌else◌,
}
use eventplus.Common.Details.{Bytes, Ptr, SocketDetails, EventStore, store_of_details}
use eventplus.Common.Os.{Os, AddrInfo}
use eventplus.Common.Ssl.{Ssl}
use eventplus.Certificate.{is_some}
use eventplus.TcpHandler.{is_negative, magnitude}
use eventplus.TlsHandler.{filled}

pub record TlsClient (W : Type 0) : Type 0 where
  pub address : Bytes
  pub port : Bytes
  pub ctx : Option Ptr
  pub socket_details : SocketDetails
  pub client_socket : Option EventStore  -- the store that the unique pointer owns
  pub world : W

module _ {W : Type 0} where
  unfoldable pub create_tls_client : SocketDetails → Bytes → Bytes → W → TlsClient W
  create_tls_client uninit address port w = record {
    address = address;
    port = port;
    ctx = none;
    socket_details = uninit;
    client_socket = none;
    world = w;
  }

  abbrev with_socket : ℤ → W → TlsClient W → TlsClient W
  with_socket fd w c = record c {
    socket_details = record c.socket_details { socket_id = fd };
    world = w;
  }

module _ {W : Type 0} (os : Os W) where
  -- The `for` over the addresses, with `m_socketDetails.m_socketId` as it is before a round.
  unfoldable pub try_addresses : List AddrInfo → ℤ → W → Bool × ℤ × W
  try_addresses [] fd w = (false, fd, w)
  try_addresses (a ∷ later) fd w =
      let (fd', w1) = os.socket a.family a.socktype a.protocol w in
      let (status, w2) = os.connect fd' a.addr w1 in
      let without = try_addresses later fd' w1 in
      let after_close = try_addresses later minus_one (os.close fd' w2).1 in
      if int_eq fd' minus_one
      then without
      else if int_eq status (pos 0)
      then (true, fd', w2)
      else after_close

  unfoldable pub create_socket : TlsClient W → Bool × TlsClient W
  create_socket c =
      let (status, addresses, w) = os.getaddrinfo c.address c.port c.world in
      let (made, fd, w') = try_addresses addresses c.socket_details.socket_id w in
      if int_eq status (pos 0) then (made, with_socket fd w' c) else (false, record c { world = w })

module _ {W : Type 0} (ssl : Ssl W) where
  unfoldable pub init : TlsClient W → Bool × TlsClient W
  init c =
      let (ctx, w) = ssl.client_ctx_new c.world in (is_some ctx, record c { ctx = ctx; world = w })

  -- `Connect` from the new store on.
  unfoldable pub open_session : Option Ptr → TlsClient W → Bool × TlsClient W
  unfolding store_of_details
  open_session uninit_ssl c =
      let store = store_of_details c.socket_details none uninit_ssl in
      let (made, w1) = ssl.new c.ctx c.world in
      let owner = record c { client_socket = some (record store { ssl = made }); world = w1 } in
      elim made [
        | none ↦ (false, owner)
        | some p ↦
            (let (status, w2) = ssl.connect p (ssl.set_fd p c.socket_details.socket_id w1) in
              if is_negative status || int_eq status (pos 0)
              then (false, record owner { world = (ssl.get_error p minus_one w2).1 })
              else (true, record owner { world = w2 }))
      ]

  -- A null session is a fault of the library's call.
  unfoldable pub session : TlsClient W → Result Ptr
  session c = elim c.client_socket [
    | none ↦ err null_pointer
    | some store ↦ elim store.ssl [ none ↦ err null_pointer | some p ↦ ok p ]
  ]

  unfoldable pub send_data : Bytes → TlsClient W → Result (ℤ × TlsClient W)
  send_data text c =
      session c >>= λ p. let (n, w) = ssl.write p text c.world in ok (n, record c { world = w })

  -- `std::string data(size, '\0')` throws at a negative size.
  unfoldable pub receive_data : ℤ → TlsClient W → Result (Bytes × TlsClient W)
  receive_data (negsuc n) c = err length_error
  receive_data (pos size) c = session c >>= λ p.
      let (count, new, w) = ssl.read p size c.world in
      ok (filled size (magnitude count) new, record c { world = w })

  unfoldable pub free_session : EventStore → W → W
  free_session store w = elim store.ssl [ none ↦ w | some p ↦ ssl.free p (ssl.shutdown p w).1 ]

  unfoldable pub free_context : Option Ptr → W → W
  free_context none w = w
  free_context (some ctx) w = ssl.ctx_free ctx w

module _ {W : Type 0} (os : Os W) (ssl : Ssl W) where
  unfoldable pub connect : Option Ptr → TlsClient W → Bool × TlsClient W
  connect uninit_ssl c =
      let (made, c') = create_socket os c in
      if made then open_session ssl uninit_ssl c' else (false, c')

  -- Also the destructor. The pointer to the store is read whether or not there is one.
  unfoldable pub close : TlsClient W → Result (TlsClient W)
  close c = elim c.client_socket [
    | none ↦ err null_pointer
    | some store ↦
        (let fd = c.socket_details.socket_id in
          let w1 = free_session ssl store c.world in
          let w2 = if int_eq fd minus_one then w1 else (os.close fd w1).1 in
          ok (record c {
            client_socket = some (record store { ssl = none });
            socket_details = record c.socket_details { socket_id = minus_one };
            ctx = none;
            world = free_context ssl c.ctx w2;
          }))
  ]
