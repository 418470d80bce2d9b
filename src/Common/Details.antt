-- ===== src/Common/Details.antt =====
-- src/common/CommonDefinition.h and src/common/SocketDetails.h: what is known of one socket.
-- An address in memory, an SSL object and a text are a number, a number and a list of bytes.
use eventplus.Prelude.{ℕ, ℤ, List, Option, none}

abbrev pub Bytes : Type 0
Bytes = List ℕ

abbrev pub Ptr : Type 0
Ptr = ℕ

pub data SocketType : Type 0 where
  no_type udp tcp tls : SocketType

pub data SocketStatus : Type 0 where
  new ready_for_operation data_incoming data_read_completed : SocketStatus

pub data EventType : Type 0 where
  blank new_connection closed_connection incoming_data : EventType

pub record SocketAddress : Type 0 where
  pub sin_family : ℕ
  pub sin_port : ℕ  -- in network byte order
  pub sin_addr : ℕ

pub record SocketDetails : Type 0 where
  pub socket_id : ℤ
  pub event_source_address : SocketAddress
  pub str_client_socket_address : Bytes
  pub event_source_port : ℤ
  pub poll_id : ℤ
  pub event_socket_type : SocketType
  pub socket_status : SocketStatus
  pub epoll_event : ℕ

-- The object a `SocketEventHandler*` points to: the accepting thread's, one of the scheduler's, or
-- a client's.
pub data Poller : Type 0 where
  listener client_poller : Poller
  scheduled : ℕ → Poller

-- The object an `EventDispatcher*` points to, and the one a `SocketRemovalHandler*` points to.
pub data Dispatcher : Type 0 where
  server_socket io_worker tcp_client tls_client_socket : Dispatcher

pub data RemovalHandler : Type 0 where
  server_removal : RemovalHandler

-- The class of the object a `BaseSocketHandler*` points to.
pub data HandlerClass : Type 0 where
  tcp_server tls_server tls_client : HandlerClass

-- `EventStorePointer`. Its mutex is held for the whole of a call, so calls are atomic here.
pub record EventStore : Type 0 where
  pub details : SocketDetails
  pub open details use *
  pub parameters : Option Ptr
  pub socket_event_handler : Option Poller
  pub event_type : EventType
  pub socket_operation_handler : Option HandlerClass
  pub ssl : Option Ptr

-- The constructors. None sets `m_SSL`, and the first none of the details: what the memory held
-- before comes as an argument.
unfoldable pub default_store : SocketDetails → Option Ptr → EventStore
default_store uninit_details uninit_ssl = record {
  details = uninit_details;
  parameters = none;
  socket_event_handler = none;
  event_type = blank;
  socket_operation_handler = none;
  ssl = uninit_ssl;
}

unfoldable pub store_of_details : SocketDetails → Option Ptr → Option Ptr → EventStore
store_of_details details parameters uninit_ssl = record {
  details = details;
  parameters = parameters;
  socket_event_handler = none;
  event_type = blank;
  socket_operation_handler = none;
  ssl = uninit_ssl;
}

-- `operator=`, for another object than the details of the store itself.
unfoldable pub assign : EventStore → SocketDetails → EventStore
assign s d = record s {
  details = record s.details {
    socket_id = d.socket_id;
    event_source_address = d.event_source_address;
    str_client_socket_address = d.str_client_socket_address;
    event_source_port = d.event_source_port;
    poll_id = d.poll_id;
    event_socket_type = d.event_socket_type;
    epoll_event = d.epoll_event;
  };
}

unfoldable pub set_socket_handler : EventStore → Option HandlerClass → EventStore
set_socket_handler s h = record s { socket_operation_handler = h }
