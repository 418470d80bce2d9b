-- ===== src/Server/Threads/Pending.antt =====
-- What happens to the events that the polling threads of src/networkevent/SocketEventHandler.cpp
-- still have to handle, while others make their steps.
use eventplus.Prelude.{
  ℕ, ◌≡◌, ◌≢◌, refl, sym, ap, ◌∙◌, ◌⊎◌, inl, inr, true, false, List, [], ◌∷◌, some, ◌==◌,
  Bool-cases, ==_iff,
}
use eventplus.Common.Details.{Ptr, EventStore, Poller, listener, scheduled, client_poller}
use eventplus.Common.Os.{EpollEvent}
use eventplus.Server.State.{Server}
use eventplus.Server.Beside.{IsClient}
use eventplus.Server.Batch.{Apart}
use eventplus.Server.Total.{IsWorking}
use eventplus.Server.Threads.{same_poller, Names, Pending}

pub poller-cases :
    (a b : Poller) → ((a ≡ b) × (same_poller a b ≡ true)) ⊎ ((a ≢ b) × (same_poller a b ≡ false))
poller-cases listener listener = inl (refl, refl)
poller-cases listener client_poller = inr (λ e. cc, refl)
poller-cases listener (scheduled j) = inr (λ e. cc, refl)
poller-cases client_poller client_poller = inl (refl, refl)
poller-cases client_poller listener = inr (λ e. cc, refl)
poller-cases client_poller (scheduled j) = inr (λ e. cc, refl)
poller-cases (scheduled i) listener = inr (λ e. cc, refl)
poller-cases (scheduled i) client_poller = inr (λ e. cc, refl)
poller-cases (scheduled i) (scheduled j) = elim (Bool-cases (i == j)) [
  | inl h ↦ inl (ap scheduled ((==_iff i j).0 h), h)
  | inr h ↦ inr (λ e. let both = (==_iff i j).1 (cc) in cc, h)
]

module _ {W : Type 0} where
  -- Events stay what they are while the clients that they name stay.
  pub Pending-keeps :
      (who : Poller) (es : List EpollEvent) (s s' : Server W)
      → s'.event_store ≡ s.event_store
      → ((q : Ptr) (st : EventStore) → ¬ Apart q es → IsClient q st s → IsClient q st s')
      → Pending who es s
      → Pending who es s'
  Pending-keeps who [] s s' door keeps told = tt
  Pending-keeps who (e ∷ es) s s' door keeps (names, told) =
      (go who names, Pending-keeps who es s s' door (λ q st n. keeps q st (λ a. n a.1)) told)
    where
      go : (who : Poller) → Names who e es s → Names who e es s'
      go client_poller nobody = nobody
      go listener (p, there, is, stays) = (p, there, door ∙ is, stays)
      go (scheduled i) (p, st, there, is, watched, once) =
          (p, st, there, keeps p st (λ a. a.0 there) is, watched, once)

  -- A client whose event one thread handles is in no other thread's batch.
  pub Pending-Apart :
      (who : Poller) (es : List EpollEvent) (i : ℕ) (p : Ptr) (st : EventStore) (s : Server W)
      → IsWorking s
      → IsClient p st s
      → st.socket_event_handler ≡ some (scheduled i)
      → who ≢ scheduled i
      → Pending who es s
      → Apart p es
  Pending-Apart who [] i p st s v is watched other told = tt
  Pending-Apart who (e ∷ es) i p st s v is watched other (names, told) =
      (go who other names, Pending-Apart who es i p st s v is watched other told)
    where
      go : (who : Poller) → who ≢ scheduled i → Names who e es s → e.ptr ≢ some p
      go client_poller other nobody h = nobody
      go listener other (q, there, door, stays) h =
          v.owners.apart st.socket_id p is.1 (door ∙ sym there ∙ h)
      go (scheduled j) other (q, stq, there, is_q, watched_q, once) h =
          let same_ptr : q ≡ p = cc in
          let same_store : stq ≡ st = let live = rw same_ptr at is_q.0 in cc in
          other (let watch = rw same_store at watched_q in cc)

  -- The accepting thread is told of no client.
  pub Pending-door :
      (es : List EpollEvent) (q : Ptr) (s : Server W)
      → s.event_store ≢ some q
      → Pending listener es s
      → Apart q es
  Pending-door [] q s other told = tt
  Pending-door (e ∷ es) q s other ((p, there, door, stays), told) =
      (λ h. other (door ∙ sym there ∙ h), Pending-door es q s other told)

  pub Pending-nobody :
      (es : List EpollEvent) (s s' : Server W)
      → Pending client_poller es s
      → Pending client_poller es s'
  Pending-nobody [] s s' told = tt
  Pending-nobody (e ∷ es) s s' told = absurd told.0
