-- ===== src/TcpHandler.antt =====
-- src/datatrasaction/server/TCPSocketHandler.cpp and TCPServerSocketHandler.h: plain TCP
-- connections. A loop takes fuel, one unit for a round; proofs of totality say how much is enough.
pub mod Send
pub mod Receive
pub mod Available
pub mod Laws
use eventplus.Prelude.{
  ℕ, zero, suc, ◌+◌, ◌-◌, ◌*◌, ◌/◌, ◌%◌, ◌^◌, Bool, true, false, List, [], ◌∷◌, ◌++◌, ℤ, pos,
  negsuc, minus_one, to_word, of_word, Result, ok, err, ◌>>=◌, length_error, out_of_fuel, int_eq,
  ltb, ◌==◌, if◌then◌else◌, length, take, drop, replicate,
}
use eventplus.Common.Details.{Bytes, EventStore}
use eventplus.Common.Os.{Os, eintr, eagain}
use eventplus.Common.Handler.{BaseSocketHandler}

-- What the loops read of a result: its sign, and its value if that is not negative.
abbrev pub is_negative : ℤ → Bool
is_negative (pos n) = false
is_negative (negsuc n) = true

abbrev pub magnitude : ℤ → ℕ
magnitude (pos n) = n
magnitude (negsuc n) = 0

-- `buffer.data() + offset` filled with what a call stored there.
abbrev pub overwrite : Bytes → ℕ → Bytes → Bytes
overwrite [] offset new = []
overwrite (b ∷ buffer) (suc offset) new = b ∷ overwrite buffer offset new
overwrite (b ∷ buffer) zero [] = b ∷ buffer
overwrite (b ∷ buffer) zero (n ∷ new) = n ∷ overwrite buffer zero new

-- How the loop of `receivePartialData` ends: with its buffer and `totalBytesRead`, or by an error.
pub data Read : Type 0 where
  done : Bytes → ℕ → Read
  failed : Read

-- `data.append(buffer.data(), totalBytesRead)` and the return value.
unfoldable pub finish_read {ℓ} : {W : Type ℓ} → Bytes → Read × W → ℤ × Bytes × W
finish_read text (failed, w) = (minus_one, text, w)
finish_read text (done buffer total, w) =
    (pos total, (if ltb 0 total then text ++ take total buffer else text), w)

module _ {W : Type 0} (os : Os W) where
  unfoldable pub init_connection : EventStore → W → Result (Bool × EventStore × W)
  init_connection s w = ok (true, s, w)

  -- The `while` of `sendData`: `total` is `totalSent`.
  unfoldable pub send_loop : ℕ → EventStore → Bytes → ℕ → W → Result (ℤ × W)
  send_loop zero s text total w = err out_of_fuel
  send_loop (suc fuel) s text total w =
      let (sent, w') = os.send s.socket_id (drop total text) w in
      let again = send_loop fuel s text total w' in
      let more = send_loop fuel s text (total + magnitude sent) w' in
      if ltb total (length text)
      then if is_negative sent
        then if os.errno w' == eintr then again else ok (minus_one, w')
        else if magnitude sent == 0
        then ok (pos 0, w')
        else more
      else ok (pos total, w)

  unfoldable pub send_data : ℕ → EventStore → Bytes → W → Result (ℤ × W)
  send_data fuel s text w = send_loop fuel s text 0 w

  -- The `while` of `receivePartialData`.
  unfoldable pub read_loop : ℕ → EventStore → ℕ → Bytes → ℕ → W → Result (Read × W)
  read_loop zero s size buffer total w = err out_of_fuel
  read_loop (suc fuel) s size buffer total w =
      let (count, new, w') = os.read s.socket_id (size - total) w in
      let buffer' = overwrite buffer total new in
      let again = read_loop fuel s size buffer' total w' in
      let more = read_loop fuel s size buffer' (total + magnitude count) w' in
      if ltb total size
      then if is_negative count
        then if os.errno w' == eintr
          then again
          else if os.errno w' == eagain
          then ok (done buffer' total, w')
          else ok (failed, w')
        else if magnitude count == 0
        then ok (done buffer' total, w')
        else more
      else ok (done buffer total, w)

  -- `std::vector<char> buffer(dataSize)` throws at a negative size, which it reads as a huge one.
  unfoldable pub receive_partial_data : ℕ → EventStore → ℤ → Bytes → W → Result (ℤ × Bytes × W)
  receive_partial_data fuel s (negsuc n) text w = err length_error
  receive_partial_data fuel s (pos size) text w =
      read_loop fuel s size (replicate size 0) 0 w >>= λ r. ok (finish_read text r)

  -- `ioctl` stores an `int` into the low half of an uninitialised `ssize_t`: `uninit` is the bit
  -- pattern that was there.
  unfoldable pub get_available_data_in_socket : ℕ → EventStore → W → ℤ × W
  get_available_data_in_socket uninit s w =
      let (status, stored, w') = os.ioctl_fionread s.socket_id w in
      if int_eq status minus_one
      then (minus_one, w')
      else (of_word (2 ^ 63) (uninit / 2 ^ 32 * 2 ^ 32 + stored), w')

  -- `size_t availableAmount` is passed on as `int dataSize`.
  unfoldable pub int_of_size : ℤ → ℤ
  int_of_size v = of_word (2 ^ 31) (to_word (2 ^ 64) v % 2 ^ 32)

  unfoldable pub receive_data : ℕ → ℕ → EventStore → Bytes → W → Result (ℤ × Bytes × W)
  receive_data fuel uninit s text w =
      let (available, w') = get_available_data_in_socket uninit s w in
      receive_partial_data fuel s (int_of_size available) text w'

  unfoldable pub close_connection : EventStore → W → EventStore × W
  close_connection s w = (s, (os.close s.socket_id w).1)

  -- The class as the server sees it.
  abbrev pub tcp_server_handler : ℕ → ℕ → BaseSocketHandler W
  tcp_server_handler fuel uninit = record {
    init_connection = init_connection;
    send_data = send_data fuel;
    receive_data = receive_data fuel uninit;
    receive_partial_data = receive_partial_data fuel;
    get_available_data_in_socket = get_available_data_in_socket uninit;
    close_connection = close_connection;
  }
