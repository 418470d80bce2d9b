-- ===== src/NetworkEvent/SocketEventHandler.antt =====
-- src/networkevent/SocketEventHandler.{h,cpp} without the polling loop, and
-- src/networkevent/EventHandlerThread.{h,cpp}: one epoll instance and its thread.
use eventplus.Prelude.{
  ℕ, ◌+◌, ℤ, Bool, true, false, Option, none, some, Result, ok, err, aborted, minus_one, int_eq,
  if◌then◌else◌,
}
use eventplus.Common.Details.{Ptr, Poller, Dispatcher, RemovalHandler, EventStore}
use eventplus.Common.Os.{Os}

abbrev pub max_events : ℕ
max_events = 5000

-- EPOLLIN | EPOLLET | EPOLLRDHUP
abbrev pub epoll_rdhup : ℕ
epoll_rdhup = 0x2000

abbrev pub initial_events : ℕ
initial_events = 0x1 + 0x8000_0000 + epoll_rdhup

-- The fields that the code uses. `started` tells whether `m_eventHandlerThread` has been made.
pub record SocketEventHandler : Type 0 where
  pub continue_polling : Bool
  pub poll_event : ℕ  -- uint32_t
  pub epoll_file_descriptor : ℤ
  pub event_dispatcher : Option Dispatcher
  pub remove_socket_event_handler : Option RemovalHandler
  pub started : Bool

-- What the memory of a new object holds in the two pointers that no constructor sets.
pub record Leftover : Type 0 where
  pub dispatcher : Option Dispatcher
  pub remover : Option RemovalHandler

unfoldable pub set_epoll_event_flag : SocketEventHandler → ℕ → SocketEventHandler
set_epoll_event_flag h events = record h { poll_event = events }

unfoldable pub set_event_dispatcher_ptr :
    SocketEventHandler → Option Dispatcher → SocketEventHandler
set_event_dispatcher_ptr h d = record h { event_dispatcher = d }

unfoldable pub set_socket_removal_handler :
    SocketEventHandler → Option RemovalHandler → SocketEventHandler
set_socket_removal_handler h r = record h { remove_socket_event_handler = r }

unfoldable pub stop_polling : SocketEventHandler → SocketEventHandler
stop_polling h = if h.continue_polling then record h { continue_polling = false } else h

-- `EventHandlerThread::startEventReceiverThread`: the new thread runs `startPolling`. A
-- `std::thread` that was there before is destroyed without a join, which ends the program.
unfoldable pub start_event_receiver_thread : SocketEventHandler → Result SocketEventHandler
start_event_receiver_thread h = if h.started then err aborted else ok (record h { started = true })

module _ {W : Type 0} where
  -- An epoll thread that was started is destroyed without a join or a detach: its `std::thread`
  -- ends the program.
  unfoldable pub destroy_thread : Option SocketEventHandler → W → Result W
  destroy_thread none w = ok w
  destroy_thread (some h) w = if h.started then err aborted else ok w

module _ {W : Type 0} (os : Os W) where
  unfoldable pub create_epoll : SocketEventHandler → W → SocketEventHandler × W
  create_epoll h w =
      let (fd, w') = os.epoll_create max_events w in
      (
        record h {
          epoll_file_descriptor = fd;
          continue_polling = if int_eq fd minus_one then false else true;
        },
        w',
      )

  unfoldable pub create_handler : Leftover → W → SocketEventHandler × W
  unfolding create_epoll
  create_handler left w =
      create_epoll
        (record {
          continue_polling = false;
          poll_event = initial_events;
          epoll_file_descriptor = minus_one;
          event_dispatcher = left.dispatcher;
          remove_socket_event_handler = left.remover;
          started = false;
        })
        w

  unfoldable pub close_epoll : SocketEventHandler → W → SocketEventHandler × W
  close_epoll h w = (
    record h { continue_polling = false; epoll_file_descriptor = minus_one },
    (os.close h.epoll_file_descriptor w).1,
  )

  unfoldable pub stop_event_thread : SocketEventHandler → W → SocketEventHandler × W
  unfolding stop_polling close_epoll
  stop_event_thread h w = close_epoll (stop_polling h) w

  -- `self` is `this`, and `p` the address of the store, which the system hands back with events.
  unfoldable pub add_socket :
      Poller → SocketEventHandler → Ptr → EventStore → W → Bool × EventStore × W
  add_socket self h p s w =
      let (status, w') =
        os.epoll_ctl_add h.epoll_file_descriptor s.socket_id h.poll_event (some p) w in
      if int_eq status minus_one
      then (false, s, w')
      else (true, record s { socket_event_handler = some self }, w')

  unfoldable pub remove_socket : SocketEventHandler → EventStore → W → Bool × W
  remove_socket h s w =
      let (status, w') = os.epoll_ctl_del h.epoll_file_descriptor s.socket_id w in
      if int_eq status minus_one
      then (false, (os.fcntl_getfd h.epoll_file_descriptor w').1)
      else (true, w')
