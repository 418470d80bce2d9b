-- ===== src/Server/Roster.antt =====
-- What src/socket/server/TcpServerSocket.cpp is to those who watch it from outside: a set of
-- clients that are connected, and which event changes it how. How the server keeps them, in a map
-- that owns stores, is forgotten.
use eventplus.Prelude.{ℕ, ℤ, Bool, true, false, Option, none, some, int_eq, if◌then◌else◌}
use eventplus.Common.Details.{
  EventStore, Poller, Dispatcher, server_socket, io_worker, tcp_client, tls_client_socket,
  RemovalHandler,
}
use eventplus.Common.Os.{Os}
use eventplus.TcpHandler.{is_negative}
use eventplus.Certificate.{is_some}
use eventplus.NetworkEvent.Polling.{is_hangup}
use eventplus.Server.State.{Server, lookup}
use eventplus.Server.System.{own_handler}

-- For each socket, whether a client is connected with it.
abbrev pub Roster : Type 0
Roster = ℤ → Bool

pub data Change : Type 0 where
  joins leaves : ℤ → Change
  nothing : Change

abbrev pub apply : Change → Roster → Roster
apply (joins fd) r j = if int_eq fd j then true else r j
apply (leaves fd) r j = if int_eq fd j then false else r j
apply nothing r j = r j

abbrev pub at_door : Option Dispatcher → Change → Change
at_door none c = nothing
at_door (some server_socket) c = c
at_door (some io_worker) c = nothing
at_door (some tcp_client) c = nothing
at_door (some tls_client_socket) c = nothing

abbrev pub gone : Option RemovalHandler → ℤ → Change
gone none fd = nothing
gone (some r) fd = leaves fd

abbrev pub printable {ℓ} : {A : Type ℓ} → Option A → Change → Change
printable none c = nothing
printable (some text) c = c

module _ {W : Type 0} where
  abbrev pub roster : Server W → Roster
  roster s fd = is_some (lookup fd s.client_event_stores)

module _ {W : Type 0} (os : Os W) where
  -- Who comes in when the world lets a connection in at the socket of `store`.
  abbrev pub comes_in : EventStore → W → Change
  comes_in store w =
      let (fd, address, w1) = os.accept store.socket_id w in
      let (ip, w2) = os.inet_ntop address.sin_addr w1 in
      if is_negative fd then nothing else printable ip (joins fd)

  -- What an event that thread `who` is told of for `store` means to the set of clients.
  abbrev pub meaning : Poller → ℕ → EventStore → Server W → Change
  meaning who events store s =
      let h = own_handler who s in
      if is_hangup events
      then gone h.remove_socket_event_handler store.socket_id
      else if h.continue_polling
      then at_door h.event_dispatcher (comes_in store s.world)
      else nothing
