-- ===== src/TcpHandler/Send.antt =====
-- `sendData` of src/datatrasaction/server/TCPSocketHandler.cpp: what reaches the peer.
use eventplus.Prelude.{
  ℕ, zero, suc, ◌+◌, ◌-◌, ◌≤◌, ◌<◌, ◌≡◌, refl, ◌⊎◌, ◌++◌, ℤ, pos, negsuc, minus_one, Returns,
  length, take, drop, arith, append_assoc, length-drop, append-nil, sym, ap, ◌∙◌, ltb, sign-cases,
  take-add, take_all, ◌==◌, Bool-cases, inl, inr, ltb→lt, ltb→le, ==_iff, suc-==-zero,
}
use eventplus.Common.Details.{Bytes, EventStore}
use eventplus.Common.Os.{Os, eintr}
use eventplus.TcpHandler.{send_loop, send_data}

-- What `send` promises of a connection: `sent` is all that the system has accepted for it, and
-- `patience` bounds the interruptions that are still to come.
pub record SendLaws {W : Type 0} (os : Os W) (fd : ℤ) (sent : W → Bytes) (patience : W → ℕ)
    : Type 0 where
  pub accepted :
      (text : Bytes) (w : W) (n : ℕ)
      → (os.send fd text w).0 ≡ pos n
      → (n ≤ length text) × (sent (os.send fd text w).1 ≡ sent w ++ take n text)
  pub refused :
      (text : Bytes) (w : W) (n : ℕ)
      → (os.send fd text w).0 ≡ negsuc n
      → sent (os.send fd text w).1 ≡ sent w
  pub interrupted :
      (text : Bytes) (w : W) (n : ℕ)
      → (os.send fd text w).0 ≡ negsuc n
      → os.errno (os.send fd text w).1 ≡ eintr
      → patience (os.send fd text w).1 < patience w
  pub patient : (text : Bytes) (w : W) → patience (os.send fd text w).1 ≤ patience w

-- A result and a world that fit a call of `sendData` in which `before` had been sent: what was
-- accepted is a beginning of the text, all of it exactly when its length is returned; otherwise the
-- result is 0 or -1.
abbrev pub Delivered : Bytes → Bytes → Bytes → ℤ → Type 0
Delivered text before after r =
    ((r ≡ pos (length text)) × (after ≡ before ++ text))
    ⊎ ((k : ℕ) × (k < length text)
        × (after ≡ before ++ take k text)
        × ((r ≡ pos 0) ⊎ (r ≡ minus_one)))

module _ {W : Type 0} (os : Os W) (s : EventStore) (sent : W → Bytes) (patience : W → ℕ)
    (laws : SendLaws os s.socket_id sent patience) (text before : Bytes) where
  -- What a successful call adds continues the beginning that had been sent.
  advance :
      (total n : ℕ) (w : W) {w' : W}
      → sent w ≡ before ++ take total text
      → sent w' ≡ sent w ++ take n (drop total text)
      → sent w' ≡ before ++ take (total + n) text
  advance total n w e a = rw (a, e, append_assoc, take-add total n text)

  send_loop-Delivered :
      (fuel total : ℕ) (w : W)
      → total ≤ length text
      → sent w ≡ before ++ take total text
      → length text - total + patience w < fuel
      → Returns (λ r. Delivered text before (sent r.1) r.0) (send_loop os fuel s text total w)
  unfolding send_loop
  send_loop-Delivered zero total w h e f = absurd (omega arith)
  send_loop-Delivered (suc fuel) total w h e f =
      let rest = drop total text in
      let reply = os.send s.socket_id rest w in
      elim (Bool-cases (ltb total (length text))) [
        | inr all ↦ rw all (
            inl (
              ap pos (omega (arith, ltb→le _ _ all)),
              e ∙ ap (◌++◌ before) (take_all total text (ltb→le _ _ all)),
            ))
        | inl more ↦ rw more (elim (sign-cases reply.0) [
          | inl (n, r) ↦ rw r (elim (Bool-cases (os.errno reply.1 == eintr)) [
            | inl again ↦ rw again (
                send_loop-Delivered fuel total reply.1 h (laws.refused rest w n r ∙ e)
                  (omega (arith, laws.interrupted rest w n r ((==_iff _ _).0 again))))
            | inr failed ↦
                rw failed (inr (total, ltb→lt _ _ more, laws.refused rest w n r ∙ e, inr refl))
          ])
          | inr (inl r) ↦ rw r (
              inr
                (total, ltb→lt _ _ more, (laws.accepted rest w 0 r).1 ∙ append-nil _ ∙ e, inl refl))
          | inr (inr (n, r)) ↦
              rw (r, suc-==-zero n)
                (send_loop-Delivered fuel (total + suc n) reply.1
                  (omega (arith, (laws.accepted rest w (suc n) r).0, length-drop total text))
                  (advance total (suc n) w e (laws.accepted rest w (suc n) r).1)
                  (omega (arith, laws.patient rest w, ltb→lt _ _ more)))
        ])
      ]

-- On a system that keeps `SendLaws`, with more fuel than bytes and interruptions, `sendData` ends,
-- and what it returns tells what the peer gets: its length, and the system has accepted the whole
-- text, once and in order; or 0 or -1, and it has accepted a proper beginning.
pub send_data-Delivered :
    {W : Type 0} (os : Os W) (s : EventStore) (sent : W → Bytes) (patience : W → ℕ)
    → SendLaws os s.socket_id sent patience
    → (text : Bytes) (w : W) (fuel : ℕ) → length text + patience w < fuel
    → Returns (λ r. Delivered text (sent w) (sent r.1) r.0) (send_data os fuel s text w)
unfolding send_data
send_data-Delivered os s sent patience laws text w fuel h =
    send_loop-Delivered os s sent patience laws text (sent w) fuel 0 w (omega arith)
      (sym (append-nil (sent w))) (omega arith)
