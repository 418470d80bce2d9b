-- ===== src/Lib.antt =====
-- eventplus is a C++ library for network servers: epoll threads watch the sockets, a pool of
-- threads runs the callbacks, and a handler object moves the bytes of a connection. This library
-- models its core and proves what makes it correct.
--
-- The parts, and the files that model them (paths are those of the repository):
--   Common: src/common/CommonDefinition.h, SocketDetails.h and BaseSocketHandler.h. `Common.Text`
-- has the numbers as text that the C++ library prints and reads. `EventStore` is
-- `EventStorePointer`; `Common.Os` is the record of the system calls that the program makes, a
-- parameter of every definition that makes one, over a state `W` of the world outside.
--   TcpHandler: src/datatrasaction/server/TCPSocketHandler.cpp, class TCPServerSocketHandler.
-- Send, Receive and Available prove what moves; Laws that it is a handler as the server wants
-- one.
--   Certificate: src/ssl/SSLCertificateHandler.cpp. Outcome tells how the loading of certificates
-- ends.
--   TlsHandler: src/datatrasaction/server/TLSSocketHandler.cpp, class TLSServerSocketHandler,
-- over the calls of OpenSSL (`Common.Ssl`), a parameter like the system. Receive proves what the
-- caller reads, Session what becomes of the SSL objects and the descriptor.
--   TlsClientHandler: src/datatrasaction/client/TLSClientSocketHandler.cpp, and Closing what its
-- close leaves.
--   SocketHandler: src/socket/SocketHandler.cpp. Server and Client account for the descriptors,
-- Port follows a port from its number to the address.
--   NetworkEvent: src/networkevent. SocketEventHandler is one epoll instance, Polling its loop
-- `startPolling` over an interface of calls (`Callbacks`), Turns the same loop as a thread that
-- makes one step at a time (`polling_turn`), EventScheduler the round robin over threads.
--   ThreadPool: src/threadpool and src/IOWorkerThread/IOTask.h. Each thread is a state machine
-- (`Worker`), and a run is a list of actions of threads and callers in any order. Order accounts
-- for the tasks, Shutdown tells what a stop drops, Wakeup has the wait in its parts, with the
-- mutex and the wake-ups, Joins whether the joins of the destructor return and Coarse that the
-- pool in one step leaves nothing out; Progress and Liveness that without one every task is
-- executed.
--   IoWorker: src/IOWorkerThread/IOWorkerThreadHandler.cpp.
--   Server: src/socket/server/TcpServerSocket.cpp. State is the object and the memory of stores,
-- in which a deleted store is gone and a read of it is the fault `dangling`. Connections has the
-- events, Lifecycle the construction and the shutdown, System what the threads call. Registry,
-- Distinct and Ownership prove what the client map owns, Total and Polled that events are handled
-- without a fault, Boot that a started server works, Closing that the shutdown deletes the
-- clients' stores, Stopping that it ends the polling loops, Destruction the destructor, with the
-- pool's, and how it ends, Beside, Batch, Door and PoolTurn what a step leaves alone, Tasks the
-- stores that the pool's tasks name, Wiring whom the threads call, Reachable that it goes on
-- working under any interleaving of events, and Races, Eviction and Late what two threads can do
-- to each other. Threads is the server with its polling threads, each somewhere in its loop
-- (`System`), and the steps that they, the pool and the world make in any order: Pending and
-- Steady follow the events that a thread still has to handle, Turn and Safety the steps, Ending
-- how a thread ends, Shutdown what `stopPolling` does to one that is not at its test, Calm the
-- tasks of the pool while nobody hangs up. Roster is the server as an observer sees it, a set of
-- connected clients; Refinement, Simulation and Trace prove that the server keeps it.
--   TcpClient and TlsClient: src/socket/client/TcpClientSocket.cpp and TLSClient.cpp; Opening
-- what a connection of the first opens, and the Closing of each which sockets are left open.
--   Program: src/main.cpp. Start composes certificates, handler and server as main does, Runs
-- follows the server from there; Calls and Tcp run the two clients, with the destructors at the
-- end; Receiver is the receiver of events and the lines it prints; Main is the main thread call
-- by call, and Together the server of the program with all its threads.
--   Tests: a simulated system with one peer, runs, and every theorem at a concrete input.
--
-- The server reaches the sockets through the handler's virtual calls (`HandlerLaws` is what it
-- asks of them), the threads through EventScheduler and SocketEventHandler, and the receiver
-- through the tasks of the pool. Code that a mutex protects is one step, and so is what a polling
-- thread does with one event; steps of threads come in any order. What the kernel promises is a
-- hypothesis (`Promises`): `epoll_wait` tells a thread of sockets that it watches, and `accept`
-- gives a descriptor that is not in use.
--
-- Numbers: byte counts and indices are naturals, results of system calls are integers, and the
-- conversions from ssize_t through size_t to int are written out in 64 and 32 bits. A loop takes
-- fuel, one unit for a round. For sendData and receivePartialData the number of bytes and of
-- interruptions, plus one, is enough; the TLS loops need one more than the bytes asked for, or
-- than the peer sends; `startPolling` runs until it is stopped and its fuel cuts it off, or it is
-- run step by step, which needs none. Memory that no constructor sets is an argument (`uninit`,
-- `Unset`, `Leftover`).
--
-- Not modelled: what is printed, apart from the lines of the receiver; DisplayCerts of src/ssl;
-- how long the waits of main take. The call of its client is one step of the main thread, and so
-- is each of the four calls of `stopPolling`: what is proved of `stopPolling` as a whole is
-- proved of its calls one after the other, with no step of another thread between them. An int in
-- atoi is an integer, for values that fit. What C++ does after a function that ends without its
-- `return` is undefined: the model takes the call to have no value, and goes on. Classes without
-- operations (UDP, ExecutorThreadHandler, OperationExecutorTask) have nothing to model.
pub mod Prelude
pub mod Common
pub mod TcpHandler
pub mod Certificate
pub mod TlsHandler
pub mod TlsClientHandler
pub mod NetworkEvent
pub mod ThreadPool
pub mod SocketHandler
pub mod IoWorker
pub mod Server
pub mod TcpClient
pub mod TlsClient
pub mod Program
mod Tests
