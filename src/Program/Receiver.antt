-- ===== src/Program/Receiver.antt =====
-- `Ctest` of src/main.cpp, the receiver of the server's events: the lines that it prints.
use eventplus.Prelude.{
  ℕ, ◌+◌, ◌^◌, ◌%◌, ◌<◌, ◌≡◌, refl, ap, ◌⊎◌, inl, inr, ℤ, pos, minus_one, List, [], ◌∷◌, ◌++◌,
  Option, some, Result, ok, ◌>>=◌, Returns, Returns->>=, length, to_word, of_word,
}
use eventplus.Common.Details.{
  Bytes, Ptr, EventStore, EventType, blank, new_connection, closed_connection, incoming_data,
  HandlerClass,
}
use eventplus.Common.Text.{to_string}
use eventplus.Common.Os.{Os}
use eventplus.Common.Ssl.{Ssl}
use eventplus.Common.Handler.{BaseSocketHandler, with_handler}
use eventplus.Common.Handler
use eventplus.Certificate.{CertificateHandler}
use eventplus.TcpHandler
use eventplus.TcpHandler.{tcp_server_handler, int_of_size}
use eventplus.TcpHandler.Receive.{ReadLaws, Received}
use eventplus.TcpHandler.Available.{int_of_size-told, after-available, receive_data-Received}
use eventplus.TlsHandler
use eventplus.TlsHandler.{tls_server_handler}
use eventplus.TlsHandler.Receive.{SslLaws, Ended, Decrypted, receive_data-Decrypted}

-- "newConnectionEvent:"
abbrev connection_line : Bytes
connection_line =
    b'n' ∷ b'e' ∷ b'w' ∷ b'C' ∷ b'o' ∷ b'n' ∷ b'n' ∷ b'e' ∷ b'c' ∷ b't' ∷ b'i' ∷ b'o' ∷ b'n' ∷ b'E'
    ∷ b'v' ∷ b'e' ∷ b'n' ∷ b't' ∷ b':' ∷ []

-- "connectionClosedEvent:"
abbrev closed_line : Bytes
closed_line =
    b'c' ∷ b'o' ∷ b'n' ∷ b'n' ∷ b'e' ∷ b'c' ∷ b't' ∷ b'i' ∷ b'o' ∷ b'n' ∷ b'C' ∷ b'l' ∷ b'o' ∷ b's'
    ∷ b'e' ∷ b'd' ∷ b'E' ∷ b'v' ∷ b'e' ∷ b'n' ∷ b't' ∷ b':' ∷ []

-- "EventReceiver:"
abbrev pub count_label : Bytes
count_label =
    b'E' ∷ b'v' ∷ b'e' ∷ b'n' ∷ b't' ∷ b'R' ∷ b'e' ∷ b'c' ∷ b'e' ∷ b'i' ∷ b'v' ∷ b'e' ∷ b'r' ∷ b':'
    ∷ []

-- "data:"
abbrev pub data_label : Bytes
data_label = b'd' ∷ b'a' ∷ b't' ∷ b'a' ∷ b':' ∷ []

module _ {W : Type 0} (table : HandlerClass → BaseSocketHandler W) where
  -- The size goes from `ssize_t` through `size_t` to `int`; what `receiveData` returns is ignored.
  unfoldable pub data_event : EventStore → W → Result (List Bytes × W)
  data_event s w = do
    (available, w1) ← Handler.get_available_data_in_socket table s w
    let size = of_word (2 ^ 31) (to_word (2 ^ 64) available % 2 ^ 32)
    (n, text, w2) ← Handler.receive_data table s [] w1
    ok ((count_label ++ to_string size) ∷ (data_label ++ text) ∷ [], w2)

  -- The receiver's method for the kind of an event.
  unfoldable pub receive_event : EventType → EventStore → W → Result (List Bytes × W)
  unfolding data_event
  receive_event blank s w = ok ([], w)
  receive_event new_connection s w = ok (connection_line ∷ [], w)
  receive_event closed_connection s w = ok (closed_line ∷ [], w)
  receive_event incoming_data s w = data_event s w

  -- A store that has a handler is asked twice.
  pub data_event_lem :
      (c : HandlerClass) (s : EventStore) (w : W)
      → s.socket_operation_handler ≡ some c
      → data_event s w ≡ (
          let (available, w1) = (table c).get_available_data_in_socket s w in
          let size = of_word (2 ^ 31) (to_word (2 ^ 64) available % 2 ^ 32) in
          (table c).receive_data s [] w1 >>= λ (n, text, w2).
          ok ((count_label ++ to_string size) ∷ (data_label ++ text) ∷ [], w2))
  unfolding data_event Handler.get_available_data_in_socket Handler.receive_data
  data_event_lem c s w handled =
      ap
        (λ o.
          with_handler table o (λ h. ok (h.get_available_data_in_socket s w)) >>= λ (available, w1).
          with_handler table o (λ h. h.receive_data s [] w1) >>= λ (n, text, w2). ok (
            (count_label ++ to_string (of_word (2 ^ 31) (to_word (2 ^ 64) available % 2 ^ 32)))
                ∷ (data_label ++ text)
                ∷ [],
            w2,
          ))
        handled

module _ {W : Type 0} (os : Os W) (ssl : Ssl W) (incoming : W → Bytes) where
  -- The lines of a call of `dataEvent`, with what they show of the stream.
  abbrev pub Shows : Ptr → W → List Bytes × W → Type 0
  Shows p w (lines, w') =
      (new : Bytes) × (lines ≡ (count_label ++ to_string minus_one) ∷ (data_label ++ new) ∷ [])
      × (((incoming w ≡ new ++ incoming w') × Ended ssl p incoming w')
          ⊎ ((new ≡ []) × ((lost : Bytes) × (incoming w ≡ lost ++ incoming w'))))

  -- The server tells the receiver of data on a TLS connection, over a session that keeps `SslLaws`.
  -- With more fuel than the peer has bytes to send, `dataEvent` ends. It prints -1 for the number
  -- of bytes, whatever is there, and then the next bytes of the stream, up to a read that gave less
  -- than it was asked for; or no bytes, if the connection broke, and what was read is lost.
  pub receive_event-Shows :
      (fuel : ℕ) (h : Option CertificateHandler) (c : HandlerClass) (s : EventStore) (p : Ptr)
      (w : W)
      → SslLaws ssl p incoming
      → s.socket_operation_handler ≡ some c
      → s.ssl ≡ some p
      → length (incoming w) < fuel
      → Returns
          (Shows p w)
          (receive_event (λ c. tls_server_handler os ssl fuel h) incoming_data s w)
  unfolding receive_event TlsHandler.get_available_data_in_socket
  receive_event-Shows fuel h c s p w laws handled session enough =
      rw (data_event_lem (λ c. tls_server_handler os ssl fuel h) c s w handled) (
        Returns->>= (Decrypted ssl p incoming (λ new w'. Ended ssl p incoming w') [] w) (Shows p w)
          (TlsHandler.receive_data ssl fuel s [] w) _
          (receive_data-Decrypted ssl s p incoming laws session [] w fuel enough)
          λ (n, text, w') end. elim end [
            | inl (new, count, text_is, stream, stops) ↦ (new, rw text_is refl, inl (stream, stops))
            | inr (lost, minus, same, stream) ↦ ([], rw same refl, inr (refl, (lost, stream)))
          ])

module _ {W : Type 0} (os : Os W) (incoming : W → Bytes) (patience : W → ℕ) where
  -- The server tells the receiver of data on a TCP connection, on a system that keeps `ReadLaws`
  -- and tells, both times that it is asked, how many bytes are there, fewer than 2^31: `size`, and
  -- then `size'`. With enough fuel `dataEvent` ends, whatever the uninitialised half of the
  -- variable held. It prints `size`, and then what `receivePartialData` gets when it asks for
  -- `size'` bytes.
  pub receive_event-Received :
      (fuel uninit n n' size size' : ℕ) (c : HandlerClass) (s : EventStore) (w : W)
      → ReadLaws os s.socket_id incoming patience
      → s.socket_operation_handler ≡ some c
      → uninit < 2 ^ 64
      → size < 2 ^ 31
      → size' < 2 ^ 31
      → let (status, stored, w1) = os.ioctl_fionread s.socket_id w in
        let (status', stored', w2) = os.ioctl_fionread s.socket_id w1 in
        status ≡ pos n
        → stored ≡ size
        → status' ≡ pos n'
        → stored' ≡ size'
        → size' + patience w2 < fuel
        → Returns
            (λ (lines, w').
              (r : ℤ) × (text : Bytes) × (lines
                ≡ (count_label ++ to_string (pos size)) ∷ (data_label ++ text) ∷ [])
              × Received os s incoming patience size' [] w2 (r, text, w'))
            (receive_event (λ c. tcp_server_handler os fuel uninit) incoming_data s w)
  unfolding receive_event int_of_size
  receive_event-Received fuel uninit n n' size size' c s w laws handled hu hs hs' a b a' b' enough =
      let w1 = (os.ioctl_fionread s.socket_id w).2 in
      let counted = int_of_size-told os s w uninit n size hu a b hs in
      rw
        (
          data_event_lem (λ c. tcp_server_handler os fuel uninit) c s w handled,
          after-available os s w uninit,
        )
        (Returns->>= (Received os s incoming patience size' [] (os.ioctl_fionread s.socket_id w1).2)
          _ (TcpHandler.receive_data os fuel uninit s [] w1) _
          (receive_data-Received os s incoming patience laws w1 uninit n' size' fuel [] hu a' b' hs'
            enough)
          λ (r, text, w') end. (
            r,
            text,
            ap (λ v. (count_label ++ to_string v) ∷ (data_label ++ text) ∷ []) counted,
            end,
          ))
