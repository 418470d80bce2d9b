-- ===== src/Server/Threads/Steady.antt =====
-- What every step of the threads of src/socket/server/TcpServerSocket.cpp and
-- src/networkevent/SocketEventHandler.cpp keeps, whoever makes it.
use eventplus.Prelude.{ℕ, ◌<◌, ◌≡◌, ◌≢◌, refl, sym, ap, ◌∙◌, inl, inr, ℤ, List, some, subst}
use eventplus.Common.Details.{
  Ptr, EventStore, Poller, listener, scheduled, client_poller, server_socket, io_worker,
}
use eventplus.Common.Os.{EpollEvent}
use eventplus.NetworkEvent.Turns.{Place}
use eventplus.Server.State.{Server, lookup}
use eventplus.Server.System.{own_handler}
use eventplus.Server.Beside.{IsClient, Beside}
use eventplus.Server.Batch.{Apart, own_handler-Beside}
use eventplus.Server.Door.{same_handlers, Admits}
use eventplus.Server.Total.{IsWorking}
use eventplus.Server.Threads.{System, move, batch, Pending}
use eventplus.Server.Threads.Pending.{
  poller-cases, Pending-keeps, Pending-Apart, Pending-door, Pending-nobody,
}

module _ {W : Type 0} where
  -- The threads hand what they are told of to the right objects.
  pub record IsWired (s : Server W) : Type 0 where
    pub to_door : (own_handler listener s).event_dispatcher ≡ some server_socket
    pub to_pool :
        (i : ℕ)
        → i < s.event_scheduler.num_threads
        → (own_handler (scheduled i) s).event_dispatcher ≡ some io_worker

  pub record IsSteady (x : System W) : Type 0 where
    pub working : IsWorking x.server
    pub wired : IsWired x.server
    pub pending : (who : Poller) → Pending who (batch (x.place who)) x.server

  -- The handlers of the threads stay what they are, and so does the listening store.
  abbrev pub SameHandlers : Server W → Server W → Type 0
  SameHandlers s s' =
      ((who : Poller) → own_handler who s' ≡ own_handler who s)
      × (s'.event_scheduler.num_threads ≡ s.event_scheduler.num_threads)
      × (s'.event_store ≡ s.event_store)

  pub IsWired-same : (s s' : Server W) → SameHandlers s s' → IsWired s → IsWired s'
  IsWired-same s s' (same, count, door) w = record {
    to_door = ap (λ h. h.event_dispatcher) (same listener) ∙ w.to_door;
    to_pool = λ i lt.
        ap (λ h. h.event_dispatcher) (same (scheduled i))
        ∙ w.to_pool i (subst (λ n. i < n) count lt);
  }

  -- A thread moves, and the events of all are still pending.
  pub moved :
      (who : Poller) (x : System W) (place : Place) (s' : Server W)
      → Pending who (batch place) s'
      → ((other : Poller) → who ≢ other → Pending other (batch (x.place other)) s')
      → (other : Poller) → Pending other (batch (move x.place who place other)) s'
  moved who x place s' own others other = elim (poller-cases who other) [
    | inl (e, t) ↦ rw t (subst (λ w. Pending w (batch place) s') e own)
    | inr (n, f) ↦ rw f (others other n)
  ]

  -- Time passes: the world is another.
  pub Pending-world :
      (who : Poller) (es : List EpollEvent) (s : Server W) (w : W)
      → Pending who es s
      → Pending who es (record s { world = w })
  Pending-world who es s w told =
      Pending-keeps who es s (record s { world = w }) refl (λ q st n is. is) told

  -- What a step of thread `who` from `s` leaves, with `es` still to be handled by it.
  abbrev pub After : Poller → List EpollEvent → System W → Server W → Type 0
  After who es x s' =
      IsWorking s'
      × SameHandlers x.server s'
      × Pending who es s'
      × ((other : Poller) → who ≢ other → Pending other (batch (x.place other)) s')

  -- Time passes outside.
  pub elsewhere :
      (who : Poller) (es : List EpollEvent) (x : System W) (w : W)
      → IsSteady x
      → Pending who es x.server
      → After who es x (record x.server { world = w })
  elsewhere who es x w v told = (
    record { owners = v.working.owners; threads = v.working.threads; handler = v.working.handler },
    (λ other. same_handlers other x.server (record x.server { world = w }) refl refl, refl, refl),
    Pending-world who es x.server w told,
    λ other n. Pending-world other (batch (x.place other)) x.server w (v.pending other),
  )

  pub Beside-After :
      (i : ℕ) (e : EpollEvent) (es : List EpollEvent) (p : Ptr) (st : EventStore) (x : System W)
      (s' : Server W)
      → IsSteady x
      → IsClient p st x.server
      → st.socket_event_handler ≡ some (scheduled i)
      → Apart p es
      → Pending (scheduled i) es x.server
      → Beside p x.server s'
      → IsWorking s'
      → After (scheduled i) es x s'
  Beside-After i e es p st x s' v is watched once told b good = (
    good,
    (
      λ who. own_handler-Beside who p x.server s' b,
      ap (λ t. t.num_threads) b.scheduled_threads,
      b.door,
    ),
    keeps (scheduled i) es once told,
    λ other n.
        keeps other (batch (x.place other))
          (Pending-Apart other _ i p st x.server v.working is watched (λ h. n (sym h))
            (v.pending other))
          (v.pending other),
  )
    where
      keeps :
          (who : Poller) (fs : List EpollEvent)
          → Apart p fs
          → Pending who fs x.server
          → Pending who fs s'
      keeps who fs apart =
          Pending-keeps who fs x.server s' b.door
            (λ q stq n. b.clients q stq (λ h. n (subst (λ r. Apart r fs) h apart)))

  pub Admits-After :
      (fd : ℤ) (es : List EpollEvent) (x : System W) (s' : Server W)
      → IsSteady x
      → ((q : Ptr)
          → lookup fd x.server.client_event_stores ≡ some q
          → (i : ℕ) → Apart q (batch (x.place (scheduled i))))
      → Pending listener es x.server
      → Admits fd x.server s'
      → IsWorking s'
      → After listener es x s'
  Admits-After fd es x s' v free told a good = (
    good,
    (a.handlers, a.count, a.door),
    keeps listener es (λ q l. Pending-door es q x.server (v.working.owners.apart fd q l) told) told,
    others,
  )
    where
      keeps :
          (who : Poller) (fs : List EpollEvent)
          → ((q : Ptr) → lookup fd x.server.client_event_stores ≡ some q → Apart q fs)
          → Pending who fs x.server
          → Pending who fs s'
      keeps who fs apart =
          Pending-keeps who fs x.server s' a.door (λ q stq n. a.clients q stq (λ l. n (apart q l)))

      others : (other : Poller) → listener ≢ other → Pending other (batch (x.place other)) s'
      others listener n = absurd (n refl)
      others client_poller n = Pending-nobody _ x.server s' (v.pending client_poller)
      others (scheduled i) n = keeps (scheduled i) _ (λ q l. free q l i) (v.pending (scheduled i))
