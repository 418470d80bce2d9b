-- ===== src/Server.antt =====
-- src/socket/server/TcpServerSocket.{h,cpp}: the server that owns the client connections.
pub mod State
pub mod Connections
pub mod Lifecycle
pub mod System
pub mod Registry
pub mod Distinct
pub mod Ownership
pub mod Total
pub mod Polled
pub mod Races
pub mod Roster
pub mod Refinement
pub mod Simulation
pub mod Trace
pub mod Stopping
pub mod Destruction
pub mod Beside
pub mod Door
pub mod Eviction
pub mod Late
pub mod PoolTurn
pub mod Tasks
pub mod Threads
pub mod Batch
pub mod Closing
pub mod Boot
pub mod Wiring
pub mod Reachable
