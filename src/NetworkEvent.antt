-- ===== src/NetworkEvent.antt =====
-- src/networkevent: the threads that wait for events, and the scheduler that shares sockets out.
pub mod SocketEventHandler
pub mod Polling
pub mod Turns
pub mod EventScheduler
