-- ===== src/NetworkEvent/EventScheduler/Every.antt =====
-- What holds of every thread of src/networkevent/EventScheduler.cpp through the loops over them.
use eventplus.Prelude.{
  ℕ, zero, suc, ◌≡◌, List, [], ◌∷◌, map, some, Result, ok, first_link, get_elem?, set, subst,
}
use eventplus.NetworkEvent.SocketEventHandler.{SocketEventHandler}
use eventplus.NetworkEvent.EventScheduler.{at, for_handlers}

abbrev pub Every : (SocketEventHandler → Type 0) → List SocketEventHandler → Type 0
Every P [] = Unit {0}
Every P (h ∷ hs) = P h × Every P hs

pub Every-map :
    (P Q : SocketEventHandler → Type 0) (f : SocketEventHandler → SocketEventHandler)
    → ((h : SocketEventHandler) → P h → Q (f h))
    → (hs : List SocketEventHandler) → Every P hs
    → Every Q (map f hs)
Every-map P Q f step [] all = tt
Every-map P Q f step (h ∷ hs) (this, all) = (step h this, Every-map P Q f step hs all)

pub Every-get_elem? :
    (P : SocketEventHandler → Type 0) (hs : List SocketEventHandler) (i : ℕ)
    (h : SocketEventHandler)
    → Every P hs
    → get_elem? hs i ≡ some h
    → P h
Every-get_elem? P [] i h all e = cc
Every-get_elem? P (x ∷ hs) zero h (this, all) e = let same : x ≡ h = cc in subst P same this
Every-get_elem? P (x ∷ hs) (suc i) h (this, all) e = Every-get_elem? P hs i h all e

Every-at :
    (P : SocketEventHandler → Type 0) (hs : List SocketEventHandler) (i : ℕ)
    (h : SocketEventHandler)
    → Every P hs
    → at hs i ≡ ok h
    → P h
Every-at P [] i h all e = cc
Every-at P (x ∷ hs) zero h (this, all) e = let same : x ≡ h = cc in subst P same this
Every-at P (x ∷ hs) (suc i) h (this, all) e = Every-at P hs i h all e

Every-set :
    (P : SocketEventHandler → Type 0) (hs : List SocketEventHandler) (i : ℕ)
    (h : SocketEventHandler)
    → P h
    → Every P hs
    → Every P (set hs i h)
Every-set P [] i h new all = tt
Every-set P (x ∷ hs) zero h new (this, all) = (new, all)
Every-set P (x ∷ hs) (suc i) h new (this, all) = (this, Every-set P hs i h new all)

-- A loop keeps what each of its calls keeps.
pub for_handlers-Every :
    (P : SocketEventHandler → Type 0) (change : SocketEventHandler → Result SocketEventHandler)
    → ((h h' : SocketEventHandler) → change h ≡ ok h' → P h → P h')
    → (rounds index : ℕ) (hs hs' : List SocketEventHandler) → Every P hs
    → for_handlers change rounds index hs ≡ ok hs'
    → Every P hs'
unfolding for_handlers
for_handlers-Every P change keeps zero index hs hs' all e =
    let same : hs ≡ hs' = cc in subst (Every P) same all
for_handlers-Every P change keeps (suc rounds) index hs hs' all e =
    let (h, there, e1) = first_link (at hs index) hs' e in
    let (h', changed, e2) = first_link (change h) hs' e1 in
    for_handlers-Every P change keeps rounds (suc index) (set hs index h') hs'
      (Every-set P hs index h' (keeps h h' changed (Every-at P hs index h all there)) all) e2
