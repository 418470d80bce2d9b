-- ===== src/Server/Late.antt =====
-- `stopPolling` of src/socket/server/TcpServerSocket.cpp while the accept thread of
-- src/networkevent/SocketEventHandler.cpp is past its test of the flag and waits for
-- `clientEventStoresMutex`, which `stopPolling` takes for the closing of the clients only.
use eventplus.Prelude.{◌≡◌, ℤ, Bool, true, false, [], Option, none, some}
use eventplus.Common.Details.{Bytes, Ptr, EventStore, HandlerClass}
use eventplus.Common.Os.{Os}
use eventplus.Common.Handler.{BaseSocketHandler}
use eventplus.Common.Handler
use eventplus.TcpHandler.{is_negative}
use eventplus.NetworkEvent.EventScheduler
use eventplus.NetworkEvent.EventScheduler.{stop_handlers}
use eventplus.Server.State.{Server, lookup}
use eventplus.Server.Distinct.{Distinct}

module _ {W : Type 0} (os : Os W) (table : HandlerClass → BaseSocketHandler W) where
  -- `accept` gave this descriptor, of which the flag tells whether it is an error, with this text of
  -- the address: the client is in the map, or the map is empty.
  abbrev pub Came : ℤ → Bool → Option Bytes → Ptr → Server W → Type 0
  Came fd true ip p s = s.client_event_stores ≡ []
  Came fd false none p s = s.client_event_stores ≡ []
  Came fd false (some text) p s = lookup fd s.client_event_stores ≡ some p

  -- What the accept thread leaves, from what the next `accept` gives.
  abbrev pub Latecomer : EventStore → Server W → Server W → Type 0
  Latecomer listening s s' =
      let (fd, address, w) = os.accept listening.socket_id s.world in
      Came fd (is_negative fd) (os.inet_ntop address.sin_addr w).0 s.next_ptr s'
