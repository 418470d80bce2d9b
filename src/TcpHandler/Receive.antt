-- ===== src/TcpHandler/Receive.antt =====
-- `receivePartialData` of src/datatrasaction/server/TCPSocketHandler.cpp: what the caller gets of
-- the stream that the peer sends.
use eventplus.Prelude.{
  ℕ, zero, suc, ◌+◌, ◌-◌, ◌≤◌, ◌<◌, ◌≡◌, refl, ◌⊎◌, ◌++◌, ℤ, pos, negsuc, minus_one, Returns,
  Returns->>=, length, take, arith, [], ◌∷◌, append_assoc, length-take, sym, ap, ◌∙◌, ltb,
  replicate, sign-cases, ◌==◌, Bool-cases, inl, inr, ltb→lt, ltb→le, ==_iff, suc-==-zero,
  length-replicate, if◌then◌else◌, append-nil, nil_of_length,
}
use native.Mathlib.Nat.{zero-add, suc-add}
use eventplus.Common.Details.{Bytes, EventStore}
use eventplus.Common.Os.{Os, eintr, eagain}
use eventplus.TcpHandler.{
  overwrite, Read, done, failed, read_loop, finish_read, receive_partial_data,
}

-- What `read` promises of a connection: `incoming` is all that the peer sends and the program has
-- not read, now or later; `patience` bounds the interruptions that are still to come.
pub record ReadLaws {W : Type 0} (os : Os W) (fd : ℤ) (incoming : W → Bytes) (patience : W → ℕ)
    : Type 0 where
  pub stored :
      (n : ℕ) (w : W) (k : ℕ)
      → (os.read fd n w).0 ≡ pos k
      → (k ≤ n)
        × (length (os.read fd n w).1 ≡ k)
        × (incoming w ≡ (os.read fd n w).1 ++ incoming (os.read fd n w).2)
  pub refused :
      (n : ℕ) (w : W) (k : ℕ)
      → (os.read fd n w).0 ≡ negsuc k
      → ((os.read fd n w).1 ≡ []) × (incoming (os.read fd n w).2 ≡ incoming w)
  pub interrupted :
      (n : ℕ) (w : W) (k : ℕ)
      → (os.read fd n w).0 ≡ negsuc k
      → os.errno (os.read fd n w).2 ≡ eintr
      → patience (os.read fd n w).2 < patience w
  pub patient : (n : ℕ) (w : W) → patience (os.read fd n w).2 ≤ patience w

length-overwrite : (b : Bytes) (i : ℕ) (new : Bytes) → length (overwrite b i new) ≡ length b
length-overwrite [] i new = refl
length-overwrite (x ∷ b) zero [] = refl
length-overwrite (x ∷ b) zero (y ∷ new) = ap suc (length-overwrite b zero new)
length-overwrite (x ∷ b) (suc i) new = ap suc (length-overwrite b i new)

-- The beginning of the buffer grows by what a call stores behind it.
pub take-overwrite :
    (b : Bytes) (i : ℕ) (new : Bytes)
    → i + length new ≤ length b
    → take (i + length new) (overwrite b i new) ≡ take i b ++ new
take-overwrite [] zero [] h = refl
take-overwrite [] zero (y ∷ new) h = absurd (omega arith)
take-overwrite [] (suc i) new h = absurd (omega arith)
take-overwrite (x ∷ b) zero [] h = refl
take-overwrite (x ∷ b) zero (y ∷ new) h =
    let rest = take-overwrite b zero new (omega arith) in
    rw zero-add (ap (◌∷◌ y) (rw zero-add at rest))
take-overwrite (x ∷ b) (suc i) new h =
    rw suc-add (ap (◌∷◌ x) (take-overwrite b i new (omega arith)))

-- The buffer is untouched by a call that stores nothing.
overwrite-nil : (b : Bytes) (i : ℕ) → overwrite b i [] ≡ b
overwrite-nil [] i = refl
overwrite-nil (x ∷ b) zero = refl
overwrite-nil (x ∷ b) (suc i) = ap (◌∷◌ x) (overwrite-nil b i)

appended :
    (text : Bytes) (t : ℕ) (b : Bytes)
    → (if ltb 0 t then text ++ take t b else text) ≡ text ++ take t b
appended text zero b = sym (append-nil text)
appended text (suc t) b = ground arith

module _ {W : Type 0} (os : Os W) (s : EventStore) (incoming : W → Bytes) (patience : W → ℕ)
    (size : ℕ) where
  -- The loop stopped early, by a last call that found the end of the stream or nothing for now.
  abbrev pub Stopped : ℕ → W → Type 0
  Stopped total w' =
      (w : W) × ((os.read s.socket_id (size - total) w).2 ≡ w')
      × (((os.read s.socket_id (size - total) w).0 ≡ pos 0)
          ⊎ ((n : ℕ) × ((os.read s.socket_id (size - total) w).0 ≡ negsuc n)
              × (os.errno w' ≡ eagain)))

  -- How `receivePartialData` ends. Either the text grows by the next bytes of the stream, as many
  -- as were asked for or up to where the reading stopped, and their number is returned; or it
  -- returns -1, the text is as it was, and fewer bytes than were asked for are gone.
  abbrev pub Received : Bytes → W → ℤ × Bytes × W → Type 0
  Received text w (r, text', w') =
      ((new : Bytes) × (r ≡ pos (length new))
        × (text' ≡ text ++ new)
        × (incoming w ≡ new ++ incoming w')
        × (length new ≤ size)
        × ((length new ≡ size) ⊎ Stopped (length new) w'))
      ⊎ ((lost : Bytes) × (r ≡ minus_one)
          × (text' ≡ text)
          × (incoming w ≡ lost ++ incoming w')
          × (length lost < size))

  abbrev ReadEnd : Bytes → Read × W → Type 0
  ReadEnd start (done b t, w') =
      (length b ≡ size)
      × (t ≤ size)
      × (start ≡ take t b ++ incoming w')
      × ((t ≡ size) ⊎ Stopped t w')
  ReadEnd start (failed, w') = (lost : Bytes) × (start ≡ lost ++ incoming w') × (length lost < size)

  module _ (laws : ReadLaws os s.socket_id incoming patience) (start : Bytes) where
    idle :
        (total : ℕ) (b new : Bytes) (w w' : W)
        → start ≡ take total b ++ incoming w
        → new ≡ []
        → incoming w' ≡ incoming w
        → start ≡ take total (overwrite b total new) ++ incoming w'
    idle total b new w w' e none_new same = rw (none_new, overwrite-nil b total, same) e

    advance :
        (total n : ℕ) (b new : Bytes) (w w' : W)
        → start ≡ take total b ++ incoming w
        → length new ≡ n
        → total + n ≤ length b
        → incoming w ≡ new ++ incoming w'
        → start ≡ take (total + n) (overwrite b total new) ++ incoming w'
    advance total n b new w w' e count fits i =
        rw (← count, take-overwrite b total new (omega arith), append_assoc, ← i) e

    read_loop-ReadEnd :
        (fuel total : ℕ) (b : Bytes) (w : W)
        → length b ≡ size
        → total ≤ size
        → start ≡ take total b ++ incoming w
        → size - total + patience w < fuel
        → Returns (ReadEnd start) (read_loop os fuel s size b total w)
    unfolding read_loop
    read_loop-ReadEnd zero total b w l h e f = absurd (omega arith)
    read_loop-ReadEnd (suc fuel) total b w l h e f =
        let n = size - total in
        let reply = os.read s.socket_id n w in
        let l' = length-overwrite b total reply.1 ∙ l in
        elim (Bool-cases (ltb total size)) [
          | inr all ↦ rw all (l, h, e, inl (omega (arith, ltb→le _ _ all)))
          | inl more ↦ rw more (elim (sign-cases reply.0) [
            | inl (k, r) ↦
                let (nothing, same) = laws.refused n w k r in
                let e' = idle total b reply.1 w reply.2 e nothing same in
                rw r (elim (Bool-cases (os.errno reply.2 == eintr)) [
                  | inl again ↦ rw again (
                      read_loop-ReadEnd fuel total _ reply.2 l' h e'
                        (omega (arith, laws.interrupted n w k r ((==_iff _ _).0 again))))
                  | inr not_again ↦ rw not_again (elim (Bool-cases (os.errno reply.2 == eagain)) [
                    | inl later ↦
                        rw later (l', h, e', inr (w, refl, inr (k, r, (==_iff _ _).0 later)))
                    | inr bad ↦ rw bad (
                      take total b,
                      rw same e,
                      omega (arith, length-take total b, ltb→lt _ _ more),
                    )
                  ])
                ])
            | inr (inl r) ↦
                let (_, count, i) = laws.stored n w 0 r in
                let nothing = nil_of_length _ count in
                let i' : incoming reply.2 ≡ incoming w = sym (rw nothing at i) in
                rw r (l', h, idle total b reply.1 w reply.2 e nothing i', inr (w, refl, inl r))
            | inr (inr (k, r)) ↦
                let (le, count, i) = laws.stored n w (suc k) r in
                rw (r, suc-==-zero k)
                  (read_loop-ReadEnd fuel (total + suc k) _ reply.2 l'
                    (omega (arith, ltb→lt _ _ more))
                    (advance total (suc k) b reply.1 w reply.2 e count (omega arith) i)
                    (omega (arith, laws.patient n w, ltb→lt _ _ more)))
          ])
        ]

    finish_read-Received :
        (text : Bytes) (w : W) (r : Read × W)
        → start ≡ incoming w
        → ReadEnd start r
        → Received text w (finish_read text r)
    unfolding finish_read
    finish_read-Received text w (failed, w') e (lost, i, k) = inr (lost, refl, refl, sym e ∙ i, k)
    finish_read-Received text w (done b t, w') e (l, h, i, stop) =
        let count : length (take t b) ≡ t = omega (arith, length-take t b) in
        inl (take t b, ap pos (sym count), appended text t b, sym e ∙ i, omega arith, rw count stop)

-- On a system that keeps `ReadLaws`, with more fuel than bytes asked for and interruptions,
-- `receivePartialData` ends, in one of the two ways of `Received`.
pub receive_partial_data-Received :
    {W : Type 0} (os : Os W) (s : EventStore) (incoming : W → Bytes) (patience : W → ℕ)
    → ReadLaws os s.socket_id incoming patience
    → (size : ℕ) (text : Bytes) (w : W) (fuel : ℕ) → size + patience w < fuel
    → Returns
        (Received os s incoming patience size text w)
        (receive_partial_data os fuel s (pos size) text w)
unfolding receive_partial_data
receive_partial_data-Received os s incoming patience laws size text w fuel h =
    Returns->>= (ReadEnd os s incoming patience size (incoming w))
      (Received os s incoming patience size text w)
      (read_loop os fuel s size (replicate size 0) 0 w) _
      (read_loop-ReadEnd os s incoming patience size laws (incoming w) fuel 0 (replicate size 0) w
        (length-replicate size 0) (omega arith) refl (omega arith))
      (λ r. finish_read-Received os s incoming patience size laws (incoming w) text w r refl)
