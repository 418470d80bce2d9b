-- ===== src/Server/Threads.antt =====
-- The server of src/socket/server/TcpServerSocket.cpp with its polling threads, each somewhere in
-- the loop of src/networkevent/SocketEventHandler.cpp: between any two steps of one, the others and
-- the pool make theirs.
pub mod Pending
pub mod Steady
pub mod Turn
pub mod Safety
pub mod Ending
pub mod Shutdown
pub mod Calm
use eventplus.Prelude.{ℕ, ◌≡◌, Bool, true, false, List, [], ◌∷◌, some, ok, ◌==◌, if◌then◌else◌}
use eventplus.Common.Details.{
  Ptr, EventStore, Poller, listener, scheduled, client_poller, HandlerClass,
}
use eventplus.Common.Os.{Os, EpollEvent}
use eventplus.Common.Handler.{BaseSocketHandler}
use eventplus.NetworkEvent.Polling.{is_hangup, reported, Callbacks}
use eventplus.NetworkEvent.Turns.{Place, at_test, in_batch, left_loop, polling_turn}
use eventplus.Server.State.{Server, lookup}
use eventplus.Server.Connections.{Uninit}
use eventplus.Server.System.{worker_turn, callbacks}
use eventplus.Server.Beside.{IsClient}
use eventplus.Server.Batch.{Apart}

pub record System (W : Type 0) : Type 0 where
  pub server : Server W
  pub place : Poller → Place

abbrev pub same_poller : Poller → Poller → Bool
same_poller listener listener = true
same_poller client_poller client_poller = true
same_poller (scheduled i) (scheduled j) = i == j
same_poller a b = false

abbrev pub move : (Poller → Place) → Poller → Place → Poller → Place
move places who place other = if same_poller who other then place else places other

-- The events that a thread has been told of and has not handled.
abbrev pub batch : Place → List EpollEvent
batch (in_batch es) = es
batch at_test = []
batch left_loop = []

abbrev pub IsRunning : Place → Type 0
IsRunning left_loop = ⊥
IsRunning at_test = Unit {0}
IsRunning (in_batch es) = Unit

module _ {W : Type 0} where
  -- What an event is for: the accepting thread is told of the listening socket, which nobody hangs
  -- up, and thread `i` of a client that it watches, of no client twice.
  abbrev pub Names : Poller → EpollEvent → List EpollEvent → Server W → Type 0
  Names client_poller e es s = ⊥
  Names listener e es s =
      (p : Ptr) × (e.ptr ≡ some p) × (s.event_store ≡ some p) × (is_hangup e.events ≡ false)
  Names (scheduled i) e es s =
      (p : Ptr) × (st : EventStore) × (e.ptr ≡ some p)
      × IsClient p st s
      × (st.socket_event_handler ≡ some (scheduled i))
      × Apart p es

  abbrev pub Pending : Poller → List EpollEvent → Server W → Type 0
  Pending who [] s = Unit {0}
  Pending who (e ∷ es) s = Names who e es s × Pending who es s

module _ {W : Type 0} (os : Os W) (table : HandlerClass → BaseSocketHandler W)
    (uninit : Uninit) where
  -- What the system promises of the calls of a step. `epoll_wait` tells a thread of sockets that it
  -- watches. `accept` gives a descriptor that is not in use: at any rate not that of a client whose
  -- event is still to be handled.
  abbrev pub Promises : Poller → Place → System W → Type 0
  Promises who at_test x =
      let told = (callbacks os table uninit who).wait x.server in
      Pending who (reported told.0 told.1) x.server
  Promises listener (in_batch (e ∷ es)) x =
      (p : Ptr) (st : EventStore)
      → e.ptr ≡ some p
      → x.server.cell p ≡ some st
      → (q : Ptr)
      → lookup (os.accept st.socket_id x.server.world).0 x.server.client_event_stores ≡ some q
      → (i : ℕ) → Apart q (batch (x.place (scheduled i)))
  Promises who place x = Unit {0}

  -- `polls`: a polling thread makes a step. `works`: a thread of the pool makes one. `passes`: time
  -- passes outside.
  pub data Step : System W → System W → Type 0 where
    polls :
        (who : Poller) (x : System W) {place : Place} {s' : Server W}
        → IsRunning (x.place who)
        → Promises who (x.place who) x
        → polling_turn (callbacks os table uninit who) (x.place who) x.server ≡ ok (place, s')
        → Step x (record { server = s'; place = move x.place who place })
    works :
        (i : ℕ) (x : System W) {s' : Server W}
        → worker_turn i x.server ≡ ok s'
        → Step x (record x { server = s' })
    passes : (w : W) (x : System W) → Step x (record x { server = record x.server { world = w } })

  pub data Reaches : System W → System W → Type 0 where
    stays : {x : System W} → Reaches x x
    followed_by : {x y z : System W} → Reaches x y → Step y z → Reaches x z
