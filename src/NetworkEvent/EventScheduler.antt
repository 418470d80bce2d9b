-- ===== src/NetworkEvent/EventScheduler.antt =====
-- src/networkevent/EventScheduler.{h,cpp}: a fixed number of event threads, served in turn.
pub mod Loops
pub mod RoundRobin
pub mod Every
use eventplus.Prelude.{
  ℕ, zero, suc, ◌+◌, ◌%◌, ℤ, Bool, List, [], ◌∷◌, Option, none, some, Result, ok, err, ◌>>=◌,
  out_of_range, division_by_zero, ◌==◌, if◌then◌else◌, get_elem?, set, length,
}
use eventplus.Common.Details.{Ptr, scheduled, Dispatcher, RemovalHandler, EventStore}
use eventplus.Common.Os.{Os}
use eventplus.NetworkEvent.SocketEventHandler
use eventplus.NetworkEvent.SocketEventHandler.{SocketEventHandler, Leftover}

-- `m_currentIndex` is an `int`, never negative; the index arithmetic is that of `size_t`.
pub record EventScheduler : Type 0 where
  pub socket_event_handlers : List SocketEventHandler
  pub current_index : ℕ
  pub num_threads : ℕ

-- `m_socketEventHandlers.at(i)` throws past the end.
abbrev pub at {ℓ} : {A : Type ℓ} → List A → ℕ → Result A
at xs i = elim (get_elem? xs i) [ none ↦ err out_of_range | some x ↦ ok x ]

-- `for (i = index; rounds more; i++) handlers.at(i)->change()`.
unfoldable pub for_handlers :
    (SocketEventHandler → Result SocketEventHandler)
    → ℕ
    → ℕ
    → List SocketEventHandler
    → Result (List SocketEventHandler)
for_handlers change zero index hs = ok hs
for_handlers change (suc rounds) index hs = do
  h ← at hs index
  h' ← change h
  for_handlers change rounds (suc index) (set hs index h')

abbrev over_handlers :
    (SocketEventHandler → Result SocketEventHandler) → ℕ → EventScheduler → Result EventScheduler
over_handlers change rounds s = for_handlers change rounds 0 s.socket_event_handlers >>= λ hs.
    ok (record s { socket_event_handlers = hs })

unfoldable pub set_socket_removal_handler :
    Option RemovalHandler → EventScheduler → Result EventScheduler
set_socket_removal_handler r s =
    over_handlers (λ h. ok (SocketEventHandler.set_socket_removal_handler h r)) s.num_threads s

unfoldable pub set_event_dispatcher_ptr : Option Dispatcher → EventScheduler → Result EventScheduler
set_event_dispatcher_ptr d s =
    over_handlers (λ h. ok (SocketEventHandler.set_event_dispatcher_ptr h d)) s.num_threads s

unfoldable pub start_all_event_handler : EventScheduler → Result EventScheduler
start_all_event_handler s =
    over_handlers SocketEventHandler.start_event_receiver_thread s.num_threads s

module _ {W : Type 0} where
  -- The destructor, with those of the threads.
  unfoldable pub destroy_handlers : List SocketEventHandler → W → Result W
  destroy_handlers [] w = ok w
  destroy_handlers (h ∷ hs) w =
      SocketEventHandler.destroy_thread (some h) w >>= λ w'. destroy_handlers hs w'

module _ {W : Type 0} (os : Os W) where
  unfoldable pub create_handlers : List Leftover → W → List SocketEventHandler × W
  create_handlers [] w = ([], w)
  create_handlers (left ∷ rest) w =
      let (h, w') = SocketEventHandler.create_handler os left w in
      let (hs, w'') = create_handlers rest w' in (h ∷ hs, w'')

  -- One `Leftover` for each of the `numThreads` objects.
  unfoldable pub create_scheduler : List Leftover → W → EventScheduler × W
  unfolding create_handlers
  create_scheduler left w =
      let (hs, w') = create_handlers left w in
      (record { socket_event_handlers = hs; current_index = 0; num_threads = length left }, w')

  unfoldable pub stop_handlers : List SocketEventHandler → W → List SocketEventHandler × W
  stop_handlers [] w = ([], w)
  stop_handlers (h ∷ hs) w =
      let (h', w') = SocketEventHandler.stop_event_thread os h w in
      let (hs', w'') = stop_handlers hs w' in (h' ∷ hs', w'')

  unfoldable pub stop_all_polling_and_thread : EventScheduler → W → EventScheduler × W
  unfolding stop_handlers
  stop_all_polling_and_thread s w =
      let (hs, w') = stop_handlers s.socket_event_handlers w in
      (record s { socket_event_handlers = hs }, w')

  -- `x % m_numThreads` faults when there is no thread.
  unfoldable pub add_socket :
      EventScheduler → Ptr → EventStore → W → Result (Bool × EventScheduler × EventStore × W)
  add_socket s p store w =
      let index = (s.current_index + 1) % s.num_threads in
      if s.num_threads == 0
      then err division_by_zero
      else (at s.socket_event_handlers index >>= λ h.
          let (added, store', w') =
            SocketEventHandler.add_socket os (scheduled index) h p store w in
          ok (added, record s { current_index = index }, store', w'))
