-- ===== src/Tests.antt =====
-- Runs of the modelled code on a simulated system, and the theorems at concrete inputs.
mod Simulated
mod TcpHandler
mod Sockets
mod ThreadPool
mod Scheduler
mod Server
mod Clients
mod Threads
mod Tls
mod Receiver
mod Program
mod Together
