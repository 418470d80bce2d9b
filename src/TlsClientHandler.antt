-- ===== src/TlsClientHandler.antt =====
-- src/datatrasaction/client/TLSClientSocketHandler.{h,cpp}: the client side of TLS connections. Its
-- reads and writes are stubs in the source.
pub mod Closing
use eventplus.Prelude.{
  ℕ, ◌≡◌, refl, ap, ◌∙◌, ◌≢◌, inl, inr, Bool, true, false, List, ◌∷◌, ℤ, pos, minus_one, Option,
  none, some, Result, ok, Returns, Bool-cases, Option-cases, int_eq, int_eq_iff, arith, ◌||◌,
  if◌then◌else◌,
}
use eventplus.Common.Details.{Bytes, Ptr, EventStore}
use eventplus.Common.Os.{Os}
use eventplus.Common.Ssl.{Ssl}
use eventplus.Certificate.{is_some}
use eventplus.TcpHandler.{is_negative}
use eventplus.TlsHandler.Session.{SessionLaws}

module _ {W : Type 0} (ssl : Ssl W) where
  -- `Init`, which the constructor calls: the context, and whether there is one.
  unfoldable pub init : W → Bool × Option Ptr × W
  init w = let (ctx, w') = ssl.client_ctx_new w in (is_some ctx, ctx, w')

  -- The destructor.
  unfoldable pub destroy_handler : Option Ptr → W → Option Ptr × W
  destroy_handler none w = (none, w)
  destroy_handler (some ctx) w = (none, ssl.ctx_free ctx w)

  -- A session whose handshake fails stays in the store.
  unfoldable pub connect_session : Ptr → EventStore → W → Bool × EventStore × W
  connect_session p s w =
      let (status, w1) = ssl.connect p (ssl.set_fd p s.socket_id w) in
      if is_negative status || int_eq status (pos 0)
      then (false, s, (ssl.get_error p minus_one w1).1)
      else (true, s, w1)

  unfoldable pub init_connection : Option Ptr → EventStore → W → Bool × EventStore × W
  init_connection ctx s w =
      let (made, w') = ssl.new ctx w in
      elim made [
        | none ↦ (false, record s { ssl = none }, w')
        | some p ↦ connect_session p (record s { ssl = some p }) w'
      ]

  unfoldable pub send_data : EventStore → Bytes → W → ℤ × W
  send_data s text w = (pos 0, w)

  unfoldable pub receive_data : EventStore → Bytes → W → ℤ × Bytes × W
  receive_data s text w = (pos 0, text, w)

  unfoldable pub receive_partial_data : EventStore → ℤ → Bytes → W → ℤ × Bytes × W
  receive_partial_data s size text w = (pos 0, text, w)

  unfoldable pub get_available_data_in_socket : EventStore → W → ℤ × W
  get_available_data_in_socket s w = (pos 0, w)

  unfoldable pub end_session : EventStore → W → EventStore × W
  end_session s w = elim s.ssl [
    | none ↦ (s, w)
    | some p ↦ (record s { ssl = none }, ssl.free p (ssl.shutdown p w).1)
  ]

module _ {W : Type 0} (os : Os W) where
  unfoldable pub end_socket : EventStore × W → EventStore × W
  end_socket (s, w) = if int_eq s.socket_id minus_one then (s, w) else (
    record s { details = record s.details { socket_id = minus_one } },
    (os.close s.socket_id w).1,
  )

module _ {W : Type 0} (os : Os W) (ssl : Ssl W) where
  unfoldable pub close_connection : EventStore → W → EventStore × W
  close_connection s w = end_socket os (end_session ssl s w)
