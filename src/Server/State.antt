-- ===== src/Server/State.antt =====
-- The fields of `TcpServerSocket` (src/socket/server/TcpServerSocket.h), and the memory that they
-- point into: the stores that `make_unique` made, each until its owner lets it go.
use eventplus.Prelude.{
  ℤ, Bool, List, [], ◌∷◌, Option, none, some, Result, ok, err, dangling, null_pointer, int_eq, ◌==◌,
  if◌then◌else◌, get_elem?,
}
use eventplus.Common.Details.{
  Bytes, Ptr, SocketDetails, EventStore, EventType, HandlerClass, Poller, listener, client_poller,
  scheduled,
}
use eventplus.NetworkEvent.SocketEventHandler.{SocketEventHandler}
use eventplus.NetworkEvent.EventScheduler.{EventScheduler}
use eventplus.IoWorker.{IoWorker}

-- A call of the `EventReceiver`, with the store it is about.
pub record Delivery : Type 0 where
  pub kind : EventType
  pub store : Ptr

-- `world` is what is outside the program; `deliveries` are the calls of the receiver so far.
pub record Server (W : Type 0) : Type 0 where
  pub server_ip : Bytes
  pub server_port : ℤ
  pub server_socket_id : ℤ
  pub socket_details : SocketDetails
  pub event_store : Option Ptr
  pub socket_event_handler : SocketEventHandler
  pub event_scheduler : EventScheduler
  pub client_event_stores : List (ℤ × Ptr)
  pub socket_operation_handler : Option HandlerClass
  pub event_receiver : Bool  -- whether one is set
  pub io_worker : IoWorker
  pub cell : Ptr → Option EventStore
  pub next_ptr : Ptr
  pub deliveries : List Delivery
  pub world : W

-- `unordered_map<int, unique_ptr<EventStorePointer>>` as a list of its entries.
unfoldable pub lookup : ℤ → List (ℤ × Ptr) → Option Ptr
lookup fd [] = none
lookup fd ((k, p) ∷ m) = if int_eq k fd then some p else lookup fd m

-- `find` and `erase`: the map has no entry for the key afterwards.
unfoldable pub erase : ℤ → List (ℤ × Ptr) → List (ℤ × Ptr)
erase fd [] = []
erase fd ((k, p) ∷ m) = if int_eq k fd then erase fd m else (k, p) ∷ erase fd m

-- `operator[]` and the assignment of a pointer.
unfoldable pub insert : ℤ → Ptr → List (ℤ × Ptr) → List (ℤ × Ptr)
insert fd p [] = (fd, p) ∷ []
insert fd p ((k, q) ∷ m) = if int_eq k fd then (k, p) ∷ m else (k, q) ∷ insert fd p m

abbrev pub update : (Ptr → Option EventStore) → Ptr → Option EventStore → Ptr → Option EventStore
update f p v q = if p == q then v else f q

-- The object that a `unique_ptr` owned, if it owned one, is deleted.
unfoldable pub delete : (Ptr → Option EventStore) → Option Ptr → Ptr → Option EventStore
delete f none = f
delete f (some p) = update f p none

module _ {W : Type 0} where
  -- A read through a pointer.
  unfoldable pub deref : Option Ptr → Server W → Result (Ptr × EventStore)
  deref none s = err null_pointer
  deref (some p) s = elim (s.cell p) [ none ↦ err dangling | some store ↦ ok (p, store) ]

  abbrev pub write : Ptr → EventStore → Server W → Server W
  write p store s = record s { cell = update s.cell p (some store) }

  unfoldable pub poller : Poller → Server W → Option SocketEventHandler
  poller listener s = some s.socket_event_handler
  poller (scheduled i) s = get_elem? s.event_scheduler.socket_event_handlers i
  poller client_poller s = none
