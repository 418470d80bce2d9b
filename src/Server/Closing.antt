-- ===== src/Server/Closing.antt =====
-- `closeAllClientSocket` of src/socket/server/TcpServerSocket.cpp: no client's store is left
-- behind.
use eventplus.Prelude.{
  ◌≡◌, ◌≢◌, refl, ◌∙◌, inl, inr, ℤ, List, [], ◌∷◌, Option, some, Returns, Returns->>=, Returns-map,
  subst, sym,
}
use eventplus.Common.Details.{Ptr, EventStore, HandlerClass}
use eventplus.Common.Os.{Os}
use eventplus.Common.Handler.{BaseSocketHandler, KeepsStore, HandlerLaws}
use eventplus.Common.Handler
use eventplus.Server.State.{Server, lookup, update, delete, write}
use eventplus.Server.Lifecycle.{delete_all, clear_clients, close_clients, close_all_client_socket}
use eventplus.Server.Registry.{
  update_same, update_other, update_survivor, delete_survivor, ptr-cases, int-cases,
}
use eventplus.Server.Distinct.{Distinct, lookup-head, lookup-tail}
use eventplus.Server.Ownership.{HasHandler}
use eventplus.Server.Total.{IsWorking, deref-live, close_connection-Keeps}

-- Each entry's store is there and has a handler.
abbrev pub AllLive : List (ℤ × Ptr) → (Ptr → Option EventStore) → Type 0
AllLive [] cell = Unit {0}
AllLive ((fd, p) ∷ m) cell =
    ((st : EventStore) × (cell p ≡ some st) × HasHandler st.socket_operation_handler)
    × AllLive m cell

pub AllLive-write :
    (m : List (ℤ × Ptr)) (cell : Ptr → Option EventStore) (p : Ptr) (new : EventStore)
    → HasHandler new.socket_operation_handler
    → AllLive m cell
    → AllLive m (update cell p (some new))
AllLive-write [] cell p new h live = tt
AllLive-write ((fd, q) ∷ m) cell p new h ((st, c, g), live) = (
  elim (ptr-cases p q) [
    | inl e ↦ (new, (rw (← e) (update_same cell p _)), h)
    | inr e ↦ (st, update_other cell p q _ e ∙ c, g)
  ],
  AllLive-write m cell p new h live,
)

pub AllLive-Distinct :
    (m : List (ℤ × Ptr)) (cell : Ptr → Option EventStore)
    → Distinct m
    → ((j : ℤ) (q : Ptr)
        → lookup j m ≡ some q
        → (st : EventStore) × (cell q ≡ some st) × HasHandler st.socket_operation_handler)
    → AllLive m cell
AllLive-Distinct [] cell d known = tt
AllLive-Distinct ((k, p) ∷ m) cell (fresh, d) known = (
  known k p (lookup-head k p m),
  AllLive-Distinct m cell d (λ j q l. known j q (lookup-tail k j p q m fresh l)),
)

-- What is there after the deletions was there before, under no key.
pub delete_all_survivor :
    (m : List (ℤ × Ptr)) (cell : Ptr → Option EventStore) (q : Ptr) (st : EventStore)
    → delete_all m cell q ≡ some st
    → (cell q ≡ some st) × ((j : ℤ) → lookup j m ≢ some q)
unfolding delete_all lookup
delete_all_survivor [] cell q st c = (c, λ j l. cc)
delete_all_survivor ((k, p) ∷ m) cell q st c =
    let (c', other) = delete_all_survivor m (delete cell (some p)) q st c in
    let (c'', gone) = delete_survivor cell (some p) q st c' in
    (
      c'',
      λ j l. elim (int-cases k j) [
        | inl (e, t) ↦ gone (rw t at l)
        | inr (e, t) ↦ other j (rw t at l)
      ],
    )

module _ {W : Type 0} (os : Os W) (table : HandlerClass → BaseSocketHandler W)
    (laws : (c : HandlerClass) → HandlerLaws (table c)) where
  -- Closing connections makes no store.
  abbrev Closes : Server W → Server W → Type 0
  Closes s s' =
      (s'.client_event_stores ≡ s.client_event_stores)
      × (s'.event_store ≡ s.event_store)
      × ((q : Ptr) (st' : EventStore)
          → s'.cell q ≡ some st'
          → (st : EventStore) × (s.cell q ≡ some st))

  close_clients-Closes :
      (m : List (ℤ × Ptr)) (s : Server W)
      → AllLive m s.cell
      → Returns (Closes s) (close_clients os table m s)
  unfolding close_clients
  close_clients-Closes [] s live = (refl, refl, λ q st c. (st, c))
  close_clients-Closes ((fd, p) ∷ m) s ((st, c, h), live) = rw (deref-live os table laws p st s c) (
      Returns->>= (λ r. KeepsStore st r.0) (Closes s) (Handler.close_connection table st s.world) _
        (close_connection-Keeps table laws st s.world h)
        λ (st', w) (i, t, g).
          let s1 = write p st' (record s { world = w }) in
          let h' = subst HasHandler (sym g) h in
          Returns-map (Closes s1) (Closes s) (close_clients os table m s1)
            (close_clients-Closes m s1 (AllLive-write m s.cell p st' h' live))
            λ s' (a, b, before). (
              a,
              b,
              λ q st'' c''.
                  let (x, e) = before q st'' c'' in
                  elim (update_survivor s.cell p q st' x e) [
                    | inl (same, k) ↦ (st, (rw (← same) c))
                    | inr (other, k) ↦ (x, k)
                  ],
            ))

  -- With handlers that keep their laws, on a working server `closeAllClientSocket` closes every
  -- client without a fault; afterwards the client map is empty, and no store is left but that of
  -- the listening socket.
  pub close_all_client_socket-Clears :
      (s : Server W)
      → IsWorking s
      → Returns
          (λ s'.
            (s'.client_event_stores ≡ [])
            × ((q : Ptr) (st : EventStore) → s'.cell q ≡ some st → s.event_store ≡ some q))
          (close_all_client_socket os table s)
  unfolding close_all_client_socket clear_clients
  close_all_client_socket-Clears s v =
      let m = s.client_event_stores in
      let live = AllLive-Distinct m s.cell v.owners.distinct (λ j q l.
        let (st, c, i) = v.owners.registered j q l in (st, c, (v.owners.ready q st c).1)) in
      Returns->>= (Closes s) _ (close_clients os table m s) _ (close_clients-Closes m s live)
        λ s1 (same, e, before). (
          refl,
          λ q st c.
              let (c1, gone) = delete_all_survivor s1.client_event_stores s1.cell q st c in
              let (st0, c0) = before q st c1 in
              elim (v.owners.owned q st0 c0) [
                | inl l ↦ l
                | inr l ↦ absurd (gone st0.socket_id (rw same l))
              ],
        )
