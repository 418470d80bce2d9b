-- ===== src/NetworkEvent/Turns.antt =====
-- `startPolling` of src/networkevent/SocketEventHandler.cpp as a thread that makes one step at a
-- time, so that other threads can come between: the loop of `Polling` is what it does on its own.
use eventplus.Prelude.{
  ℕ, zero, suc, ◌≡◌, ◌≤◌, ◌≢◌, ◌↔◌, refl, sym, ◌∙◌, inl, inr, List, [], ◌∷◌, Result, ok, err, ◌>>=◌,
  Fault, out_of_fuel, if◌then◌else◌, Bool-cases, arith,
}
use eventplus.Common.Os.{EpollEvent}
use eventplus.NetworkEvent.Polling.{
  Callbacks, reported, process_event, process_events, start_polling,
}

-- Where the thread stands: at the test of the `while`, with some events of a wait still to be
-- handled, or past the loop.
pub data Place : Type 0 where
  at_test : Place
  in_batch : List EpollEvent → Place
  left_loop : Place

module _ {S : Type 0} (calls : Callbacks S) where
  open calls use {self, wait}

  unfoldable pub polling_turn : Place → S → Result (Place × S)
  polling_turn at_test s =
      let (count, events, s') = wait s in
      if (self s).continue_polling
      then ok (in_batch (reported count events), s')
      else ok (left_loop, s)
  polling_turn (in_batch []) s = ok (at_test, s)
  polling_turn (in_batch (e ∷ es)) s = process_event calls e s >>= λ s'. ok (in_batch es, s')
  polling_turn left_loop s = ok (left_loop, s)

  -- The thread on its own.
  unfoldable pub polling_turns : ℕ → Place → S → Result (Place × S)
  unfolding polling_turn
  polling_turns zero place s = ok (place, s)
  polling_turns (suc n) place s = polling_turn place s >>= λ (place', s'). polling_turns n place' s'

  -- How the outcome of the loop shows in the steps.
  abbrev pub past_loop : Result S → Result (Place × S)
  past_loop r = r >>= λ s. ok (left_loop, s)

  polling_turns-left : (n : ℕ) (s : S) → polling_turns n left_loop s ≡ ok (left_loop, s)
  unfolding polling_turns
  polling_turns-left zero s = refl
  polling_turns-left (suc n) s = polling_turns-left n s

  -- The steps from a batch to `k` steps after the next test.
  abbrev through : List EpollEvent → ℕ → ℕ
  through [] k = suc k
  through (e ∷ es) k = suc (through es k)

  polling_turns-batch :
      (es : List EpollEvent) (k : ℕ) (s : S)
      → polling_turns (through es k) (in_batch es) s
        ≡ process_events calls es s >>= polling_turns k at_test
  unfolding polling_turns process_events
  polling_turns-batch [] k s = refl
  polling_turns-batch (e ∷ es) k s = go (process_event calls e s) (polling_turns-batch es k)
    where
      go :
          (run : Result S)
          → ((s' : S)
              → polling_turns (through es k) (in_batch es) s'
                ≡ process_events calls es s' >>= polling_turns k at_test)
          → ((run >>= λ s'. ok (in_batch es, s')) >>= λ (place', s').
              polling_turns (through es k) place' s')
            ≡ (run >>= process_events calls es) >>= polling_turns k at_test
      go (err f) rest = refl
      go (ok s') rest = rest s'

  -- The loop took its course, one step after the other.
  turns_of_loop :
      (fuel : ℕ) (s : S) (r : Result S)
      → start_polling calls fuel s ≡ r
      → r ≢ err out_of_fuel
      → (n : ℕ) × (polling_turns n at_test s ≡ past_loop r)
  unfolding start_polling polling_turns
  turns_of_loop zero s r e ends = absurd (ends (cc))
  turns_of_loop (suc fuel) s r e ends =
      let (count, events, s') = wait s in
      let es = reported count events in
      elim (Bool-cases (self s).continue_polling) [
        | inr off ↦ let same : ok s ≡ r = rw off at e in (1, rw (off, ← same) refl)
        | inl on ↦
            let (n, course) =
              go (reported count events) s' (process_events calls es s') refl (rw on at e)
                (turns_of_loop fuel) in
            (suc n, rw on course)
      ]
    where
      go :
          (es : List EpollEvent) (s' : S) (run : Result S)
          → process_events calls es s' ≡ run
          → run >>= start_polling calls fuel ≡ r
          → ((t : S) (q : Result S)
              → start_polling calls fuel t ≡ q
              → q ≢ err out_of_fuel
              → (n : ℕ) × (polling_turns n at_test t ≡ past_loop q))
          → (n : ℕ) × (polling_turns n (in_batch es) s' ≡ past_loop r)
      go es s' (err f) ran e' later =
          let same : err f ≡ r = e' in
          (through es 0, polling_turns-batch es 0 s' ∙ rw (ran, ← same) refl)
      go es s' (ok s'') ran e' later =
          let (n, course) = later s'' r e' ends in
          (through es n, polling_turns-batch es n s' ∙ rw ran course)

  -- What is left of the loop from a place on.
  abbrev rest_of_loop : ℕ → Place → S → Result S
  rest_of_loop fuel at_test s = start_polling calls fuel s
  rest_of_loop fuel (in_batch es) s = process_events calls es s >>= start_polling calls fuel
  rest_of_loop fuel left_loop s = ok s

  past_loop_fault : (f : Fault) (r : Result S) → err f ≡ past_loop r → err f ≡ r
  past_loop_fault f (err g) e = cc
  past_loop_fault f (ok s) e = cc

  past_loop_place :
      (place : Place) (s : S) (r : Result S)
      → ok (place, s) ≡ past_loop r
      → (place ≡ left_loop) × (ok s ≡ r)
  past_loop_place place s (err f) e = cc
  past_loop_place place s (ok s') e = (cc, cc)

  -- As much fuel as there are steps is enough for the loop.
  loop_of_turns :
      (n fuel : ℕ) (place : Place) (s : S) (r : Result S)
      → n ≤ fuel
      → polling_turns n place s ≡ past_loop r
      → rest_of_loop fuel place s ≡ r
  unfolding start_polling polling_turns process_events
  loop_of_turns zero fuel at_test s r h e = let no = (past_loop_place _ s r e).0 in cc
  loop_of_turns zero fuel (in_batch es) s r h e = let no = (past_loop_place _ s r e).0 in cc
  loop_of_turns n fuel left_loop s r h e =
      (past_loop_place left_loop s r (sym (polling_turns-left n s) ∙ e)).1
  loop_of_turns (suc n) zero place s r h e = absurd (omega arith)
  loop_of_turns (suc n) (suc fuel) at_test s r h e =
      let (count, events, s') = wait s in
      elim (Bool-cases (self s).continue_polling) [
        | inr off ↦
            rw off (past_loop_place left_loop s r (sym (polling_turns-left n s) ∙ rw off at e)).1
        | inl on ↦ rw on (
            loop_of_turns n fuel (in_batch (reported count events)) s' r (omega arith) (rw on at e))
      ]
  loop_of_turns (suc n) (suc fuel) (in_batch []) s r h e =
      loop_of_turns n (suc fuel) at_test s r (omega arith) e
  loop_of_turns (suc n) (suc fuel) (in_batch (x ∷ es)) s r h e =
      go (process_event calls x s) e
        (λ s' e'. loop_of_turns n (suc fuel) (in_batch es) s' r (omega arith) e')
    where
      go :
          (run : Result S)
          → (run >>= λ s'. ok (in_batch es, s')) >>= (λ (place', s'). polling_turns n place' s')
            ≡ past_loop r
          → ((s' : S)
              → polling_turns n (in_batch es) s' ≡ past_loop r
              → process_events calls es s' >>= start_polling calls (suc fuel) ≡ r)
          → (run >>= process_events calls es) >>= start_polling calls (suc fuel) ≡ r
      go (err f) e' rest = past_loop_fault f r e'
      go (ok s') e' rest = rest s' e'

  -- A run of the loop and the steps of its thread come to the same, whatever it calls: the loop
  -- ends in a state, or in a fault of what it calls, exactly if some number of steps brings its
  -- thread past the loop in that state, or to that fault.
  pub start_polling-turns :
      (s : S) (r : Result S)
      → r ≢ err out_of_fuel
      → ((fuel : ℕ) × (start_polling calls fuel s ≡ r))
        ↔ ((n : ℕ) × (polling_turns n at_test s ≡ past_loop r))
  start_polling-turns s r ends = (
    λ (fuel, e). turns_of_loop fuel s r e ends,
    λ (n, e). (n, loop_of_turns n n at_test s r (omega arith) e),
  )
