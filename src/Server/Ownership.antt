-- ===== src/Server/Ownership.antt =====
-- Who owns which store of src/socket/server/TcpServerSocket.cpp: the client map owns those of the
-- clients, `m_eventStore` that of the listening socket, and nobody any other.
use eventplus.Prelude.{
  ℕ, ◌+◌, ◌<◌, ◌≡◌, ◌≢◌, sym, ◌∙◌, ◌⊎◌, inl, inr, ℤ, List, Option, none, some, arith,
}
use eventplus.Common.Details.{
  Ptr, Poller, listener, client_poller, scheduled, EventStore, HandlerClass,
}
use eventplus.Server.State.{lookup, erase, insert, update, delete}
use eventplus.Server.Distinct.{Distinct, insert-Distinct, erase-Distinct}
use eventplus.Server.Registry.{
  update_same, update_other, delete_other, delete_survivor, update_survivor, ptr-cases,
  insert_entry, erase_entry, lookup-insert_self, lookup-insert_ne, lookup-erase_ne,
}

-- The thread that watches a store is one of the server's `n`, or its listening thread.
abbrev pub WatchedBy : ℕ → Option Poller → Type 0
WatchedBy n none = Unit {0}
WatchedBy n (some listener) = Unit
WatchedBy n (some client_poller) = ⊥
WatchedBy n (some (scheduled i)) = i < n

abbrev pub HasHandler : Option HandlerClass → Type 0
HasHandler none = ⊥
HasHandler (some c) = Unit {0}

abbrev pub IsReady : ℕ → EventStore → Type 0
IsReady n st = WatchedBy n st.socket_event_handler × HasHandler st.socket_operation_handler

-- A map, a memory, the listening socket's store, the next free address and the number of threads.
pub record Ownership (m : List (ℤ × Ptr)) (cell : Ptr → Option EventStore) (e : Option Ptr)
    (next : Ptr) (n : ℕ) : Type 0 where
  pub distinct : Distinct m
  pub registered :
      (fd : ℤ) (p : Ptr)
      → lookup fd m ≡ some p
      → (st : EventStore) × (cell p ≡ some st) × (st.socket_id ≡ fd)
  pub owned :
      (p : Ptr) (st : EventStore)
      → cell p ≡ some st
      → (e ≡ some p) ⊎ (lookup st.socket_id m ≡ some p)
  pub apart : (fd : ℤ) (p : Ptr) → lookup fd m ≡ some p → e ≢ some p
  pub listening : (p : Ptr) → e ≡ some p → (st : EventStore) × (cell p ≡ some st)
  pub fresh : (p : Ptr) (st : EventStore) → cell p ≡ some st → p < next
  pub ready : (p : Ptr) (st : EventStore) → cell p ≡ some st → IsReady n st

module _ {m : List (ℤ × Ptr)} {cell : Ptr → Option EventStore} {e : Option Ptr} {next : Ptr} {n : ℕ}
    (o : Ownership m cell e next n) where
  -- A store is written that keeps its socket.
  pub write-Ownership :
      (p : Ptr) (old new : EventStore)
      → cell p ≡ some old
      → new.socket_id ≡ old.socket_id
      → IsReady n new
      → Ownership m (update cell p (some new)) e next n
  write-Ownership p old new live same ok = record {
    registered = λ fd q l.
        let (st, c, i) = o.registered fd q l in
        elim (ptr-cases p q) [
          | inl h ↦
              let one : old ≡ st = cc in (new, rw (← h) (update_same cell p _), same ∙ (rw one i))
          | inr h ↦ (st, update_other cell p q _ h ∙ c, i)
        ];
    owned = λ q st c. elim (update_survivor cell p q new st c) [
      | inl (h, k) ↦ rw (← h, ← k, same) (o.owned p old live)
      | inr (h, k) ↦ o.owned q st k
    ];
    distinct = o.distinct;
    apart = o.apart;
    listening = λ q l.
        let (st, c) = o.listening q l in
        elim (ptr-cases p q) [
          | inl h ↦ (new, rw (← h) (update_same cell p _))
          | inr h ↦ (st, update_other cell p q _ h ∙ c)
        ];
    fresh = λ q st c. elim (update_survivor cell p q new st c) [
      | inl (h, k) ↦ rw (← h) (o.fresh p old live)
      | inr (h, k) ↦ o.fresh q st k
    ];
    ready = λ q st c. elim (update_survivor cell p q new st c) [
      | inl (h, k) ↦ rw (← k) ok
      | inr (h, k) ↦ o.ready q st k
    ];
  }

  -- A store stands in the map under one socket only.
  one_socket : (fd j : ℤ) (q : Ptr) → lookup fd m ≡ some q → lookup j m ≡ some q → fd ≡ j
  one_socket fd j q g l =
      let (st, c, i) = o.registered fd q g in
      let (st', c', i') = o.registered j q l in let same : st ≡ st' = cc in sym i ∙ rw same i'

  -- A new store comes into the map, and the one that was there for its socket is deleted.
  pub insert-Ownership :
      (fd : ℤ) (new : EventStore)
      → new.socket_id ≡ fd
      → IsReady n new
      → Ownership
          (insert fd next m)
          (delete (update cell next (some new)) (lookup fd m))
          e
          (next + 1)
          n
  insert-Ownership fd new same ok =
      let cell' = update cell next (some new) in
      let unused : (q : Ptr) (st : EventStore) → cell q ≡ some st → next ≢ q =
        λ q st c h. absurd (omega (arith, o.fresh q st c)) in
      let stays : (q : Ptr) (st : EventStore)
          → cell q ≡ some st
          → lookup fd m ≢ some q
          → delete cell' (lookup fd m) q ≡ some st =
        λ q st c h.
          delete_other cell' (lookup fd m) q h ∙ update_other cell next q _ (unused q st c) ∙ c in
      let here : delete cell' (lookup fd m) next ≡ some new =
        delete_other cell' (lookup fd m) next (λ h.
          let (st, c, i) = o.registered fd next h in absurd (omega (arith, o.fresh next st c)))
        ∙ update_same cell next _ in
      record {
        registered = λ j q l. elim (insert_entry fd next m j q l) [
          | inl (h, p) ↦ (new, rw (← p) here, same ∙ h)
          | inr (h, l') ↦
              let (st, c, i) = o.registered j q l' in
              (st, stays q st c (λ g. h (one_socket fd j q g l')), i)
        ];
        owned = λ q st c.
            let (k, gone) = delete_survivor cell' (lookup fd m) q st c in
            elim (update_survivor cell next q new st k) [
              | inl (h, i) ↦ rw (← i, ← h, same) (inr (lookup-insert_self fd next m))
              | inr (h, i) ↦ elim (o.owned q st i) [
                | inl l ↦ inl l
                | inr l ↦ inr (lookup-insert_ne fd next m _ (λ g. gone (rw g l)) ∙ l)
              ]
            ];
        distinct = insert-Distinct fd next m o.distinct;
        apart = λ j q l. elim (insert_entry fd next m j q l) [
          | inl (h, p) ↦
              λ g. let (st, c) = o.listening q g in absurd (omega (arith, o.fresh q st c))
          | inr (h, l') ↦ o.apart j q l'
        ];
        listening =
            λ q l. let (st, c) = o.listening q l in (st, stays q st c (λ h. o.apart fd q h l));
        fresh = λ q st c.
            let (k, gone) = delete_survivor cell' (lookup fd m) q st c in
            elim (update_survivor cell next q new st k) [
              | inl (h, i) ↦ rw (← h) (omega arith)
              | inr (h, i) ↦ omega (arith, o.fresh q st i)
            ];
        ready = λ q st c.
            let (k, gone) = delete_survivor cell' (lookup fd m) q st c in
            elim (update_survivor cell next q new st k) [
              | inl (h, i) ↦ rw (← i) ok
              | inr (h, i) ↦ o.ready q st i
            ];
      }

  -- An entry leaves the map, and its store is deleted.
  pub erase-Ownership : (fd : ℤ) → Ownership (erase fd m) (delete cell (lookup fd m)) e next n
  erase-Ownership fd = record {
    registered = λ j q l.
        let (h, l') = erase_entry fd m j q l in
        let (st, c, i) = o.registered j q l' in
        (st, delete_other cell (lookup fd m) q (λ g. h (one_socket fd j q g l')) ∙ c, i);
    owned = λ q st c.
        let (k, gone) = delete_survivor cell (lookup fd m) q st c in
        elim (o.owned q st k) [
          | inl l ↦ inl l
          | inr l ↦ inr (lookup-erase_ne fd m _ (λ g. gone (rw g l)) ∙ l)
        ];
    distinct = erase-Distinct fd m o.distinct;
    apart = λ j q l. o.apart j q (erase_entry fd m j q l).1;
    listening = λ q l.
        let (st, c) = o.listening q l in
        (st, delete_other cell (lookup fd m) q (λ g. o.apart fd q g l) ∙ c);
    fresh = λ q st c. o.fresh q st (delete_survivor cell (lookup fd m) q st c).0;
    ready = λ q st c. o.ready q st (delete_survivor cell (lookup fd m) q st c).0;
  }
