-- ===== src/Common/Handler.antt =====
-- src/common/BaseSocketHandler.h, the interface of the connection handlers, and the members of
-- `EventStorePointer` that call through it (src/common/SocketDetails.h). A call returns the new
-- store and the new world; what it appends to a text comes back as the new text.
use eventplus.Prelude.{ℤ, ◌≡◌, Returns, Bool, Option, none, some, Result, ok, err, null_pointer}
use eventplus.Common.Details.{Bytes, EventStore, HandlerClass}

pub record BaseSocketHandler (W : Type 0) : Type 0 where
  pub init_connection : EventStore → W → Result (Bool × EventStore × W)
  pub send_data : EventStore → Bytes → W → Result (ℤ × W)
  pub receive_data : EventStore → Bytes → W → Result (ℤ × Bytes × W)
  pub receive_partial_data : EventStore → ℤ → Bytes → W → Result (ℤ × Bytes × W)
  pub get_available_data_in_socket : EventStore → W → ℤ × W
  pub close_connection : EventStore → W → EventStore × W

-- What the server relies on: opening and closing a connection end, and leave the store's socket,
-- its thread and its class alone.
abbrev pub KeepsStore : EventStore → EventStore → Type 0
KeepsStore s s' =
    (s'.socket_id ≡ s.socket_id)
    × (s'.socket_event_handler ≡ s.socket_event_handler)
    × (s'.socket_operation_handler ≡ s.socket_operation_handler)

pub record HandlerLaws {W : Type 0} (h : BaseSocketHandler W) : Type 0 where
  pub opens : (s : EventStore) (w : W) → Returns (λ r. KeepsStore s r.1) (h.init_connection s w)
  pub closes : (s : EventStore) (w : W) → KeepsStore s (h.close_connection s w).0

-- The virtual call: the object's class picks the implementation; a null pointer is a fault.
module _ {W : Type 0} (table : HandlerClass → BaseSocketHandler W) where
  abbrev pub with_handler {ℓ} :
      {A : Type ℓ} → Option HandlerClass → (BaseSocketHandler W → Result A) → Result A
  with_handler none call = err null_pointer
  with_handler (some c) call = call (table c)

  unfoldable pub init_connection : EventStore → W → Result (Bool × EventStore × W)
  init_connection s w = with_handler s.socket_operation_handler (λ h. h.init_connection s w)

  unfoldable pub send_data : EventStore → Bytes → W → Result (ℤ × W)
  send_data s text w = with_handler s.socket_operation_handler (λ h. h.send_data s text w)

  unfoldable pub receive_data : EventStore → Bytes → W → Result (ℤ × Bytes × W)
  receive_data s text w = with_handler s.socket_operation_handler (λ h. h.receive_data s text w)

  unfoldable pub receive_partial_data : EventStore → ℤ → Bytes → W → Result (ℤ × Bytes × W)
  receive_partial_data s size text w =
      with_handler s.socket_operation_handler (λ h. h.receive_partial_data s size text w)

  unfoldable pub get_available_data_in_socket : EventStore → W → Result (ℤ × W)
  get_available_data_in_socket s w =
      with_handler s.socket_operation_handler (λ h. ok (h.get_available_data_in_socket s w))

  unfoldable pub close_connection : EventStore → W → Result (EventStore × W)
  close_connection s w = with_handler s.socket_operation_handler (λ h. ok (h.close_connection s w))
