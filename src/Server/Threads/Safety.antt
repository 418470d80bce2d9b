-- ===== src/Server/Threads/Safety.antt =====
-- Any interleaving of the polling threads of src/networkevent/SocketEventHandler.cpp, of the pool
-- of src/threadpool/ThreadPool.cpp and of the world, on a server of
-- src/socket/server/TcpServerSocket.cpp: what a thread has been told of stays good until it is
-- handled.
use eventplus.Prelude.{ℕ, ◌≡◌, refl, ap, ◌∙◌, [], ok, Returns, Returns-map}
use eventplus.Common.Details.{Poller, listener, HandlerClass}
use eventplus.Common.Os.{Os}
use eventplus.Common.Handler.{BaseSocketHandler, HandlerLaws}
use eventplus.NetworkEvent.Turns.{Place, polling_turn}
use eventplus.Server.State.{Server, lookup}
use eventplus.Server.Connections.{Uninit}
use eventplus.Server.System.{worker_turn, callbacks}
use eventplus.Server.Door.{same_handlers}
use eventplus.Server.PoolTurn.{worker_turn-PoolOnly}
use eventplus.Server.Reachable.{worker_turn-IsWorking}
use eventplus.Server.Threads.{
  System, move, batch, Promises, Step, polls, works, passes, Reaches, stays, followed_by,
}
use eventplus.Server.Threads.Pending.{Pending-keeps}
use eventplus.Server.Threads.Turn.{polling_turn-After}
use eventplus.Server.Threads.Steady.{
  IsWired-same, SameHandlers, Pending-world, IsSteady, After, elsewhere, moved,
}

module _ {W : Type 0} where
  After-IsSteady :
      (who : Poller) (place : Place) (x : System W) (s' : Server W)
      → IsSteady x
      → After who (batch place) x s'
      → IsSteady (record { server = s'; place = move x.place who place })
  After-IsSteady who place x s' v (good, same, own, others) = record {
    working = good;
    wired = IsWired-same x.server s' same v.wired;
    pending = moved who x place s' own others;
  }

  worker_turn-SameHandlers : (i : ℕ) (s s' : Server W) → worker_turn i s ≡ ok s' → SameHandlers s s'
  worker_turn-SameHandlers i s s' e =
      let (own, all, door, clients, cells) = worker_turn-PoolOnly i s s' e in
      (
        λ who. same_handlers who s s' own (ap (λ t. t.socket_event_handlers) all),
        ap (λ t. t.num_threads) all,
        door,
      )

  worker_turn-IsSteady :
      (i : ℕ) (x : System W) (s' : Server W)
      → worker_turn i x.server ≡ ok s'
      → IsSteady x
      → IsSteady (record x { server = s' })
  worker_turn-IsSteady i x s' e v =
      let (own, all, door, clients, cells) = worker_turn-PoolOnly i x.server s' e in
      record {
        working = worker_turn-IsWorking i x.server s' e v.working;
        wired = IsWired-same x.server s' (worker_turn-SameHandlers i x.server s' e) v.wired;
        pending = λ who.
            Pending-keeps who (batch (x.place who)) x.server s' door
              (λ q st n is. (ap (λ c. c q) cells ∙ is.0, ap (lookup st.socket_id) clients ∙ is.1))
              (v.pending who);
      }

module _ {W : Type 0} (os : Os W) (table : HandlerClass → BaseSocketHandler W)
    (laws : (c : HandlerClass) → HandlerLaws (table c)) (uninit : Uninit) where
  -- A step keeps what is steady, and the handlers of the threads.
  pub Step-IsSteady :
      {x y : System W}
      → Step os table uninit x y
      → IsSteady x
      → IsSteady y × SameHandlers x.server y.server
  Step-IsSteady (polls who x {place} {s'} runs promised e) v =
      let after =
        polling_turn-After os table laws uninit who x v (x.place who) (v.pending who) promised in
      let done = rw e at after in (After-IsSteady who place x s' v done, done.1)
  Step-IsSteady (works i x {s'} e) v =
      (worker_turn-IsSteady i x s' e v, worker_turn-SameHandlers i x.server s' e)
  Step-IsSteady (passes w x) v =
      let (good, same, none_told, others) = elsewhere listener [] x w v tt in
      (
        record {
          working = good;
          wired = IsWired-same x.server (record x.server { world = w }) same v.wired;
          pending = λ who. Pending-world who (batch (x.place who)) x.server w (v.pending who);
        },
        same,
      )

  pub Reaches-IsSteady : {x y : System W} → Reaches os table uninit x y → IsSteady x → IsSteady y
  Reaches-IsSteady stays v = v
  Reaches-IsSteady (followed_by before step) v = (Step-IsSteady step (Reaches-IsSteady before v)).0

  pub Reaches-door :
      {x y : System W}
      → Reaches os table uninit x y
      → IsSteady x
      → y.server.event_store ≡ x.server.event_store
  Reaches-door stays v = refl
  Reaches-door (followed_by before step) v =
      (Step-IsSteady step (Reaches-IsSteady before v)).1.2 ∙ Reaches-door before v

  -- Handlers keep their laws, the threads of a working server hand clients at the door to the
  -- server and the data of clients to the pool, and the calls of the system keep their promises: a
  -- wait tells a thread only of sockets that it watches, of none twice, and `accept` gives no
  -- socket of a client whose event is still to be handled. Then, however the threads, the pool and
  -- the world take turns, each thread with events of a wait still to be handled between the steps
  -- of the others: every thread makes its next step without a fault, the server goes on working,
  -- and all that any thread still has to handle is for a client that is there, or for the listening
  -- socket.
  pub reached_threads-handle :
      (x y : System W)
      → IsSteady x
      → Reaches os table uninit x y
      → (who : Poller) → Promises os table uninit who (y.place who) y
      → Returns
          (λ (place, s'). IsSteady (record { server = s'; place = move y.place who place }))
          (polling_turn (callbacks os table uninit who) (y.place who) y.server)
  reached_threads-handle x y v reached who promised =
      let v' = Reaches-IsSteady reached v in
      Returns-map _ _ (polling_turn (callbacks os table uninit who) (y.place who) y.server)
        (polling_turn-After os table laws uninit who y v' (y.place who) (v'.pending who) promised)
        λ (place, s') after. After-IsSteady who place y s' v' after
