-- ===== src/NetworkEvent/Polling.antt =====
-- `startPolling` and `handleEvent` of src/networkevent/SocketEventHandler.cpp: the loop that waits
-- for events and hands each one on. What it calls reaches far beyond the object, so the loop runs
-- over a state `S` of the whole program, with the calls as an interface.
use eventplus.Prelude.{
  ◌≡◌, false, ℕ, zero, suc, ◌/◌, ◌%◌, ℤ, pos, negsuc, take, Bool, List, [], ◌∷◌, Option, none, some,
  Result, ok, err, ◌>>=◌, out_of_fuel, ◌==◌, if◌then◌else◌,
}
use eventplus.Common.Details.{Ptr, Dispatcher, RemovalHandler}
use eventplus.Common.Os.{EpollEvent}
use eventplus.NetworkEvent.SocketEventHandler.{SocketEventHandler, epoll_rdhup}

-- `self` reads the fields of the object that polls; `wait` is its `epoll_wait`, with what the other
-- threads do meanwhile; `mark_incoming` writes `EventTypeIncomingData` into a store.
pub record Callbacks (S : Type 0) : Type 0 where
  pub self : S → SocketEventHandler
  pub wait : S → ℤ × List EpollEvent × S
  pub mark_incoming : Ptr → S → Result S
  pub handle_io_event : Dispatcher → Ptr → S → Result S
  pub remove_socket : RemovalHandler → Option Ptr → S → Result S

abbrev pub is_hangup : ℕ → Bool
is_hangup events = events / epoll_rdhup % 2 == 1

-- The events that a call tells of: as many as it returns, and none if that is below one.
abbrev pub reported : ℤ → List EpollEvent → List EpollEvent
reported (pos n) events = take n events
reported (negsuc n) events = []

module _ {S : Type 0} (calls : Callbacks S) where
  open calls use {self, wait, mark_incoming, handle_io_event, remove_socket}

  unfoldable pub dispatch : Option Dispatcher → Ptr → S → Result S
  dispatch none p s = ok s
  dispatch (some d) p s = mark_incoming p s >>= handle_io_event d p

  unfoldable pub handle_event : Option Ptr → S → Result S
  unfolding dispatch
  handle_event none s = ok s
  handle_event (some p) s =
      if (self s).continue_polling then dispatch (self s).event_dispatcher p s else ok s

  unfoldable pub hang_up : Option RemovalHandler → Option Ptr → S → Result S
  hang_up none p s = ok s
  hang_up (some r) p s = remove_socket r p s

  -- One pass of the `for` over `m_events`.
  unfoldable pub process_event : EpollEvent → S → Result S
  unfolding handle_event hang_up
  process_event e s =
      if is_hangup e.events
      then hang_up (self s).remove_socket_event_handler e.ptr s
      else handle_event e.ptr s

  unfoldable pub process_events : List EpollEvent → S → Result S
  unfolding process_event
  process_events [] s = ok s
  process_events (e ∷ es) s = process_event e s >>= process_events es

  unfoldable pub start_polling : ℕ → S → Result S
  unfolding process_events
  start_polling zero s = err out_of_fuel
  start_polling (suc fuel) s =
      let (count, events, s') = wait s in
      let rest = process_events (reported count events) s' >>= start_polling fuel in
      if (self s).continue_polling then rest else ok s

  -- A loop that has been told to stop ends at its next test.
  pub start_polling-off :
      (fuel : ℕ) (s : S) → (self s).continue_polling ≡ false → start_polling (suc fuel) s ≡ ok s
  unfolding start_polling
  start_polling-off fuel s off = rw off
