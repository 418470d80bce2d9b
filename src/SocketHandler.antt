-- ===== src/SocketHandler.antt =====
-- src/socket/SocketHandler.{h,cpp}: making sockets and setting their mode.
pub mod Server
pub mod Client
pub mod Port
use Prim.Native.Nat.{bit_or, bit_and, bit_xor}
use eventplus.Prelude.{
  ℕ, ◌+◌, ◌-◌, ◌*◌, ◌/◌, ◌%◌, ◌^◌, ℤ, pos, negsuc, Bool, true, false, List, [], ◌∷◌, minus_one,
  int_eq, Result, ok, err, runtime_error, if◌then◌else◌, ltb, leb, ◌&&◌, to_word,
}
use eventplus.Common.Details.{Bytes, SocketAddress, SocketDetails}
use eventplus.Common.Text.{atoi}
use eventplus.Common.Os.{Os, AddrInfo}
use eventplus.TcpHandler.{is_negative, magnitude}

-- O_NONBLOCK
abbrev pub o_nonblock : ℕ
o_nonblock = 2048

abbrev pub af_inet : ℕ
af_inet = 2

abbrev pub sock_stream : ℕ
sock_stream = 1

abbrev pub somaxconn : ℕ
somaxconn = 4096

-- `htons` and `ntohs`: the two bytes change places.
unfoldable pub swap_bytes : ℕ → ℕ
swap_bytes p = p % 256 * 256 + p / 256 % 256

-- `htons(atoi(…))`: the value in 16 bits.
unfoldable pub port_of_text : Bytes → ℕ
unfolding swap_bytes
port_of_text text = swap_bytes (to_word (2 ^ 16) (atoi text))

module _ {W : Type 0} (os : Os W) where
  unfoldable pub is_socket_closed : ℤ → W → Bool × W
  is_socket_closed fd w =
      let (status, w') = os.fcntl_getfd fd w in
      (if int_eq status minus_one then true else false, w')

  unfoldable pub set_non_blocking : ℤ → W → W
  set_non_blocking fd w =
      let (flags, w') = os.fcntl_getfl fd w in
      if int_eq flags minus_one
      then w'
      else (os.fcntl_setfl fd (pos (bit_or (magnitude flags) o_nonblock)) w').1

  -- `flags &= ~O_NONBLOCK` in 32 bits.
  unfoldable pub set_blocking : ℤ → W → W
  set_blocking fd w =
      let (flags, w') = os.fcntl_getfl fd w in
      if int_eq flags minus_one
      then w'
      else (os.fcntl_setfl fd (pos (bit_and (magnitude flags) (bit_xor (2 ^ 32 - 1) o_nonblock)))
          w').1

  -- A thrown `runtime_error` leaves its world behind: the result is a fault or a descriptor, with
  -- the details and the world as they are then.
  unfoldable pub server_details : Bytes → Bytes → ℤ → SocketDetails → SocketDetails
  server_details ip port fd d = record d {
    event_source_address = record {
      sin_family = af_inet;
      sin_port = port_of_text port;
      sin_addr = os.inet_addr ip;
    };
    socket_id = fd;
  }

  unfoldable pub start_listening : ℤ → SocketDetails → W → Result ℤ × SocketDetails × W
  start_listening fd d w =
      let (status, w') = os.listen fd somaxconn w in
      if int_eq status (pos 0)
      then (ok fd, d, set_non_blocking fd w')
      else (err runtime_error, d, (os.close fd w').1)

  unfoldable pub bind_and_listen : ℤ → SocketDetails → W → Result ℤ × SocketDetails × W
  unfolding start_listening
  bind_and_listen fd d w =
      let (status, w') = os.bind fd d.event_source_address w in
      if int_eq status (pos 0)
      then start_listening fd d w'
      else (err runtime_error, d, (os.close fd w').1)

  unfoldable pub create_server_socket :
      Bytes → Bytes → SocketDetails → W → Result ℤ × SocketDetails × W
  unfolding server_details bind_and_listen
  create_server_socket ip port d w =
      let (fd, w') = os.socket af_inet sock_stream 0 w in
      if is_negative fd
      then (err runtime_error, d, w')
      else bind_and_listen fd (server_details ip port fd d) w'

  -- The `for` over the addresses: the first that takes a connection, or -1.
  unfoldable pub connect_first : List AddrInfo → W → ℤ × W
  connect_first [] w = (minus_one, w)
  connect_first (a ∷ later) w =
      let (fd, w1) = os.socket a.family a.socktype a.protocol w in
      let (status, w2) = os.connect fd a.addr w1 in
      let without = connect_first later w1 in
      let after_close = connect_first later (os.close fd w2).1 in
      if int_eq fd minus_one
      then without
      else if int_eq status (pos 0)
      then (fd, w2)
      else after_close

  unfoldable pub after_loop : ℤ × W → ℤ × W
  after_loop (fd, w) = if int_eq fd minus_one then (minus_one, w) else (fd, set_non_blocking fd w)

  unfoldable pub create_client_socket : Bytes → Bytes → W → ℤ × W
  create_client_socket ip port w =
      let (status, addresses, w1) = os.getaddrinfo ip port w in
      if int_eq status (pos 0) then after_loop (connect_first addresses w1) else (minus_one, w1)
