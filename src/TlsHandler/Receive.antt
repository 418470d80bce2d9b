-- ===== src/TlsHandler/Receive.antt =====
-- `receiveData` and `receivePartialData` of src/datatrasaction/server/TLSSocketHandler.cpp: what
-- the caller gets of the decrypted stream.
use Prim.Native.Nat.{min}
use eventplus.Prelude.{
  ℕ, zero, suc, ◌+◌, ◌-◌, ◌≤◌, ◌<◌, ◌≡◌, refl, sym, ap, ◌∙◌, ◌⊎◌, inl, inr, true, [], ◌∷◌, ◌++◌, ℤ,
  pos, negsuc, minus_one, Option, none, some, Returns, Returns->>=, length, take, replicate, arith,
  append_assoc, append-nil, length-append, length-replicate, sign-cases, Bool-cases, ltb,
  if◌then◌else◌, ltb→lt, ltb→le, lt→ltb, nil_of_length,
}
use eventplus.Common.Details.{Bytes, Ptr, EventStore}
use eventplus.Common.Ssl.{Ssl}
use eventplus.TcpHandler.{overwrite, magnitude}
use eventplus.TcpHandler.Receive.{take-overwrite}
use eventplus.TlsHandler.{
  filled, is_pause, append_received, stop_reading, receive_loop, partial_loop, receive_data,
  receive_partial_data,
}

-- What `SSL_read` promises of a connection: `incoming` is all that the peer sends and the program
-- has not read, now or later.
pub record SslLaws {W : Type 0} (ssl : Ssl W) (p : Ptr) (incoming : W → Bytes) : Type 0 where
  pub stored :
      (n : ℕ) (w : W) (k : ℕ)
      → (ssl.read p n w).0 ≡ pos k
      → (k ≤ n)
        × (length (ssl.read p n w).1 ≡ k)
        × (incoming w ≡ (ssl.read p n w).1 ++ incoming (ssl.read p n w).2)
  pub refused :
      (n : ℕ) (w : W) (k : ℕ)
      → (ssl.read p n w).0 ≡ negsuc k
      → incoming (ssl.read p n w).2 ≡ incoming w
  pub asked : (c : ℤ) (w : W) → incoming (ssl.get_error p c w).1 ≡ incoming w

filled_lem : (size k : ℕ) (new : Bytes) → length new ≡ k → k ≤ size → filled size k new ≡ new
filled_lem size k new e h =
    let whole =
      take-overwrite (replicate size 0) 0 new (omega (arith, length-replicate {A = ℕ} size 0)) in
    rw (← e) (ap (λ n. take n (overwrite (replicate size 0) 0 new)) (omega arith) ∙ whole)

module _ {W : Type 0} (ssl : Ssl W) (p : Ptr) (incoming : W → Bytes) where
  -- The last call of `SSL_read` gave less than it was asked for; if nothing, then for a reason that
  -- ends the reading and not the connection.
  abbrev pub Ended : W → Type 0
  Ended w' =
      (n : ℕ) × (w : W) × let (c, new, w1) = ssl.read p n w in
        (magnitude c < n)
        × ((w1 ≡ w')
            ⊎ (((ssl.get_error p c w1).1 ≡ w') × (is_pause (ssl.get_error p c w1).0 ≡ true)))

  -- The loop ended with bytes of the stream that `Q` tells of, or lost some by an error.
  abbrev LoopEnd : (Bytes → W → Type 0) → Bytes → Option Bytes × W → Type 0
  LoopEnd Q start (some received, w') = (start ≡ received ++ incoming w') × Q received w'
  LoopEnd Q start (none, w') = (lost : Bytes) × (start ≡ lost ++ incoming w')

  -- How a call ends. Either the text grows by the next bytes of the stream, of which `Q` tells
  -- more, and their number is returned; or it returns -1 and the text is as it was.
  abbrev pub Decrypted : (Bytes → W → Type 0) → Bytes → W → ℤ × Bytes × W → Type 0
  Decrypted Q text w (r, text', w') =
      ((new : Bytes) × (r ≡ pos (length new))
        × (text' ≡ text ++ new)
        × (incoming w ≡ new ++ incoming w')
        × Q new w')
      ⊎ ((lost : Bytes) × (r ≡ minus_one) × (text' ≡ text) × (incoming w ≡ lost ++ incoming w'))

  -- `receivePartialData` asks for `size` bytes.
  abbrev pub UpTo : ℕ → Bytes → W → Type 0
  UpTo size new w' = (length new ≤ size) × ((length new ≡ size) ⊎ Ended w')

appended : (text new : Bytes) → (if ltb 0 (length new) then text ++ new else text) ≡ text ++ new
appended text [] = sym (append-nil text)
appended text (x ∷ new) = ground arith

module _ {W : Type 0} (ssl : Ssl W) (p : Ptr) (incoming : W → Bytes) (laws : SslLaws ssl p incoming)
    (Q : Bytes → W → Type 0) where
  stop_reading-LoopEnd :
      (n : ℕ) (start received : Bytes) (w : W) (c : ℤ)
      → (ssl.read p n w).0 ≡ c
      → magnitude c < n
      → ((w' : W) → Ended ssl p incoming w' → Q received w')
      → start ≡ received ++ incoming (ssl.read p n w).2
      → LoopEnd ssl p incoming Q start (stop_reading ssl p c received (ssl.read p n w).2)
  unfolding stop_reading
  stop_reading-LoopEnd n start received w c e h q i =
      let w1 = (ssl.read p n w).2 in
      let kept = i ∙ ap (λ rest. received ++ rest) (sym (laws.asked c w1)) in
      elim (Bool-cases (is_pause (ssl.get_error p c w1).0)) [
        | inl pause ↦ rw pause (kept, q _ (n, w, (rw e (h, inr (refl, pause)))))
        | inr broken ↦ rw broken (received, kept)
      ]

  append_received-Decrypted :
      (text : Bytes) (w : W) (r : Option Bytes × W)
      → LoopEnd ssl p incoming Q (incoming w) r
      → Decrypted ssl p incoming Q text w (append_received text r)
  unfolding append_received
  append_received-Decrypted text w (none, w') (lost, i) = inr (lost, refl, refl, i)
  append_received-Decrypted text w (some new, w') (i, q) = inl (new, refl, appended text new, i, q)

module _ {W : Type 0} (ssl : Ssl W) (p : Ptr) (incoming : W → Bytes)
    (laws : SslLaws ssl p incoming) where
  -- A read that gives nothing leaves the stream as it was.
  nothing_read :
      (n : ℕ) (w : W) → (ssl.read p n w).0 ≡ pos 0 → incoming w ≡ incoming (ssl.read p n w).2
  nothing_read n w e =
      let (h, l, i) = laws.stored n w 0 e in
      i ∙ ap (λ new. new ++ incoming (ssl.read p n w).2) (nil_of_length _ l)

  -- What a read gives continues what had been received.
  next_bytes :
      (n k : ℕ) (start received : Bytes) (w : W)
      → (ssl.read p n w).0 ≡ pos k
      → start ≡ received ++ incoming w
      → (start ≡ (received ++ filled n k (ssl.read p n w).1) ++ incoming (ssl.read p n w).2)
        × (length (received ++ filled n k (ssl.read p n w).1) ≡ length received + k)
        × (length (incoming w) ≡ k + length (incoming (ssl.read p n w).2))
        × (k ≤ n)
  next_bytes n k start received w e s =
      let (h, l, i) = laws.stored n w k e in
      let new = (ssl.read p n w).1 in
      rw (filled_lem n k new l h) (
        s ∙ ap (λ rest. received ++ rest) i ∙ sym (append_assoc received new _),
        length-append received new ∙ (rw l refl),
        ap length i ∙ length-append new _ ∙ (rw l refl),
        h,
      )

  abbrev pub Short : Bytes → W → Type 0
  Short new w' = Ended ssl p incoming w'

  receive_loop-LoopEnd :
      (fuel : ℕ) (start received : Bytes) (w : W)
      → start ≡ received ++ incoming w
      → length (incoming w) < fuel
      → Returns (LoopEnd ssl p incoming Short start) (receive_loop ssl fuel p received w)
  unfolding receive_loop
  receive_loop-LoopEnd zero start received w s f = absurd (omega arith)
  receive_loop-LoopEnd (suc fuel) start received w s f =
      let w1 = (ssl.read p 1000 w).2 in
      elim (sign-cases (ssl.read p 1000 w).0) [
        | inl (n, c) ↦ rw c (
            stop_reading-LoopEnd ssl p incoming laws Short 1000 start received w (negsuc n) c
              (omega arith) (λ w' end. end) (rw (laws.refused 1000 w n c) s))
        | inr (inl c) ↦ rw c (
            stop_reading-LoopEnd ssl p incoming laws Short 1000 start received w (pos 0) c
              (omega arith) (λ w' end. end) (rw (← nothing_read 1000 w c) s))
        | inr (inr (k, c)) ↦
            let (grown, count, left, bound) = next_bytes 1000 (suc k) start received w c s in
            rw (c, lt→ltb 0 (suc k) (omega arith))
              (elim (Bool-cases (ltb (suc k) 1000)) [
                | inl last ↦ rw last (grown, (1000, w, (rw c (ltb→lt _ _ last, inl refl))))
                | inr full ↦ rw full (receive_loop-LoopEnd fuel start _ w1 grown (omega arith))
              ])
      ]

  partial_loop-LoopEnd :
      (size fuel remaining : ℕ) (start received : Bytes) (w : W)
      → start ≡ received ++ incoming w
      → length received + remaining ≡ size
      → remaining < fuel
      → Returns
          (LoopEnd ssl p incoming (UpTo ssl p incoming size) start)
          (partial_loop ssl fuel p remaining received w)
  unfolding partial_loop
  partial_loop-LoopEnd size zero remaining start received w s e f = absurd (omega arith)
  partial_loop-LoopEnd size (suc fuel) remaining start received w s e f =
      let n = min remaining 1000 in
      let w1 = (ssl.read p n w).2 in
      let Q = UpTo ssl p incoming size in
      elim (Bool-cases (ltb 0 remaining)) [
        | inr all ↦ rw all (s, (omega arith, inl (omega (arith, ltb→le _ _ all))))
        | inl more ↦
            let some_left : 0 < n = omega (arith, ltb→lt _ _ more) in
            rw more (elim (sign-cases (ssl.read p n w).0) [
              | inl (m, c) ↦ rw c (
                  stop_reading-LoopEnd ssl p incoming laws Q n start received w (negsuc m) c
                    some_left (λ w' end. (omega arith, inr end)) (rw (laws.refused n w m c) s))
              | inr (inl c) ↦ rw c (
                  stop_reading-LoopEnd ssl p incoming laws Q n start received w (pos 0) c some_left
                    (λ w' end. (omega arith, inr end)) (rw (← nothing_read n w c) s))
              | inr (inr (k, c)) ↦
                  let (grown, count, left, bound) = next_bytes n (suc k) start received w c s in
                  rw (c, lt→ltb 0 (suc k) (omega arith))
                    (elim (Bool-cases (ltb (suc k) n)) [
                      | inl last ↦
                          rw last
                            (grown, (omega arith, inr (n, w, (rw c (ltb→lt _ _ last, inl refl)))))
                      | inr full ↦ rw full (
                          partial_loop-LoopEnd size fuel (remaining - suc k) start _ w1 grown
                            (omega arith) (omega arith))
                    ])
            ])
      ]

-- On a session that keeps `SslLaws` `receiveData` ends, with more fuel than the peer has bytes to
-- send. Either the text grows by the next bytes of the stream, up to a read that gave less than it
-- was asked for, and their number is returned; or it returns -1, and the text is as it was.
pub receive_data-Decrypted :
    {W : Type 0} (ssl : Ssl W) (s : EventStore) (p : Ptr) (incoming : W → Bytes)
    → SslLaws ssl p incoming
    → s.ssl ≡ some p
    → (text : Bytes) (w : W) (fuel : ℕ) → length (incoming w) < fuel
    → Returns
        (Decrypted ssl p incoming (λ new w'. Ended ssl p incoming w') text w)
        (receive_data ssl fuel s text w)
unfolding receive_data
receive_data-Decrypted ssl s p incoming laws e text w fuel h =
    let Q = Short ssl p incoming laws in
    rw (e, receive_data)
      (Returns->>= (LoopEnd ssl p incoming Q (incoming w)) (Decrypted ssl p incoming Q text w)
        (receive_loop ssl fuel p [] w) _
        (receive_loop-LoopEnd ssl p incoming laws fuel (incoming w) [] w refl h)
        (append_received-Decrypted ssl p incoming laws Q text w))

-- On a session that keeps `SslLaws` `receivePartialData` ends, with more fuel than the bytes asked
-- for. Either the text grows by the next bytes of the stream, as many as were asked for or up to a
-- read that gave less than it was asked for, and their number is returned; or it returns -1, and
-- the text is as it was.
pub receive_partial_data-Decrypted :
    {W : Type 0} (ssl : Ssl W) (s : EventStore) (p : Ptr) (incoming : W → Bytes)
    → SslLaws ssl p incoming
    → s.ssl ≡ some p
    → (size : ℕ) (text : Bytes) (w : W) (fuel : ℕ) → size < fuel
    → Returns
        (Decrypted ssl p incoming (UpTo ssl p incoming size) text w)
        (receive_partial_data ssl fuel s (pos size) text w)
unfolding receive_partial_data
receive_partial_data-Decrypted ssl s p incoming laws e size text w fuel h =
    let Q = UpTo ssl p incoming size in
    rw (e, receive_partial_data)
      (Returns->>= (LoopEnd ssl p incoming Q (incoming w)) (Decrypted ssl p incoming Q text w)
        (partial_loop ssl fuel p size [] w) _
        (partial_loop-LoopEnd ssl p incoming laws size fuel size (incoming w) [] w refl
          (omega arith) h)
        (append_received-Decrypted ssl p incoming laws Q text w))
