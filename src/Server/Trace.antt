-- ===== src/Server/Trace.antt =====
-- A running server of src/socket/server/TcpServerSocket.cpp and its threads, against the set of
-- connected clients of `Server.Roster`: the whole of a run.
use eventplus.Prelude.{
  ℕ, Returns, Returns-ok, ◌≡◌, ◌≢◌, ◌↔◌, refl, ◌∙◌, inl, inr, ℤ, true, some, Option-cases,
}
use eventplus.Common.Details.{Poller, Ptr, EventStore, HandlerClass}
use eventplus.Common.Os.{Os}
use eventplus.Common.Handler.{BaseSocketHandler, HandlerLaws}
use eventplus.Server.State.{Server, lookup}
use eventplus.Server.Connections.{Uninit}
use eventplus.NetworkEvent.Polling.{process_event}
use eventplus.Server.Polled.{process_event-IsWorking}
use eventplus.Server.System.{callbacks}
use eventplus.Server.Total.{IsWorking}
use eventplus.Server.PoolTurn.{worker_turn-PoolOnly}
use eventplus.Server.Reachable.{
  Step, polls, works, passes, Reaches, stays, followed_by, reached_server-handles,
}
use eventplus.Server.Roster.{Roster, Change, joins, leaves, nothing, apply, roster, meaning}
use eventplus.Server.Refinement.{Changed, same_clients-Changed}
use eventplus.Server.Simulation.{process_event-Changed}

module _ {W : Type 0} (os : Os W) (table : HandlerClass → BaseSocketHandler W)
    (uninit : Uninit) where
  -- What a step means to the set of clients: the pool's threads and the passing of time are nothing
  -- to it.
  abbrev pub change : {s s' : Server W} → Step os table uninit s s' → Change
  change {s} (polls who events p (st, live) e) = meaning os who events st s
  change (works i e) = nothing
  change (passes w) = nothing

  abbrev pub after : {s s' : Server W} → Reaches os table uninit s s' → Roster → Roster
  after stays r = r
  after (followed_by before step) r = apply (change step) (after before r)

  apply-pointwise :
      (c : Change) (q r : Roster) → ((j : ℤ) → q j ≡ r j) → (j : ℤ) → apply c q j ≡ apply c r j
  apply-pointwise (joins fd) q r same j = rw (same j)
  apply-pointwise (leaves fd) q r same j = rw (same j)
  apply-pointwise nothing q r same j = same j

  change-Changed : {s s' : Server W} (step : Step os table uninit s s') → Changed (change step) s s'
  change-Changed {s} {s'} (polls who events p (st, live) e) =
      process_event-Changed os table uninit who events p st s s' live e
  change-Changed {s} {s'} (works i e) = same_clients-Changed s s' (worker_turn-PoolOnly i s s' e).3
  change-Changed {s} {s'} (passes w) = same_clients-Changed s s' refl

  after-roster :
      {s s' : Server W} (reached : Reaches os table uninit s s') (j : ℤ)
      → roster s' j ≡ after reached (roster s) j
  after-roster stays j = refl
  after-roster {s} (followed_by {t = t} before step) j =
      change-Changed step j
      ∙ apply-pointwise (change step) (roster t) (after before (roster s)) (after-roster before) j

module _ {W : Type 0} where
  -- A store is there for socket `j`, and it is not that of the listening socket.
  abbrev pub Connected : ℤ → Server W → Type 0
  Connected j s =
      (p : Ptr) × (st : EventStore) × (s.cell p ≡ some st)
      × (st.socket_id ≡ j)
      × (s.event_store ≢ some p)

  roster-Connected : (s : Server W) (j : ℤ) → IsWorking s → (roster s j ≡ true) ↔ Connected j s
  roster-Connected s j v = (
    λ here. elim (Option-cases (lookup j s.client_event_stores)) [
      | inl e ↦ let no = rw e at here in absurd (cc)
      | inr (p, e) ↦
          let (st, live, same) = v.owners.registered j p e in
          (p, st, live, same, v.owners.apart j p e)
    ],
    λ (p, st, live, same, other). elim (v.owners.owned p st live) [
      | inl listens ↦ absurd (other listens)
      | inr known ↦ rw (rw same at known)
    ],
  )

module _ {W : Type 0} (os : Os W) (table : HandlerClass → BaseSocketHandler W)
    (laws : (c : HandlerClass) → HandlerLaws (table c)) (uninit : Uninit) where
  -- With handlers that keep their laws, any event that a thread of a working server is told of for
  -- a live store is handled without a fault, leaves the server working, and changes the set of
  -- connected clients by what the event means: it is joined by the socket that `accept` gives, left
  -- by the store's socket at a hang-up, or the same.
  pub process_event-refines :
      (who : Poller) (events : ℕ) (p : Ptr) (st : EventStore) (s : Server W)
      → IsWorking s
      → s.cell p ≡ some st
      → Returns
          (λ s'. IsWorking s' × Changed (meaning os who events st s) s s')
          (process_event
            (callbacks os table uninit who)
            (record { events = events; ptr = some p })
            s)
  process_event-refines who events p st s v live =
      let run =
        process_event (callbacks os table uninit who) (record { events = events; ptr = some p })
          s in
      Returns-ok IsWorking run
        (process_event-IsWorking os table laws uninit who events p s v (st, live))
        λ s' e. process_event-Changed os table uninit who events p st s s' live e

  -- With handlers that keep their laws, however the threads of a working server take turns, and
  -- whatever happens outside: the set of connected clients is at any time what the events so far
  -- make of it, and it consists of the sockets of the stores that are there, but the listening one.
  pub reached_server-refines :
      (s s' : Server W) (reached : Reaches os table uninit s s')
      → IsWorking s
      → ((j : ℤ) → roster s' j ≡ after os table uninit reached (roster s) j)
        × ((j : ℤ) → (after os table uninit reached (roster s) j ≡ true) ↔ Connected j s')
  reached_server-refines s s' reached v =
      let same = after-roster os table uninit reached in
      let v' = (reached_server-handles os table laws uninit s s' v reached).0 in
      (same, λ j. rw (← same j) (roster-Connected s' j v'))
