-- ===== src/Lib.antt =====
-- A model of the TcpServer library, a reactor network library in the style of muduo with an
-- asynchronous log, and the theorems about it.
--
-- The program. A `TcpServer` owns an `Acceptor`, a map of connections and an `EventLoopThreadPool`. Each
-- thread of the pool runs an `EventLoop`: a `Poller` over epoll, the `Channel`s that it watches, and a
-- queue of functors that any thread may add to, with an eventfd that wakes the poller. A
-- `TcpConnection` belongs to one loop; it has a channel, an input and an output `Buffer`, and the
-- user's callbacks. Whatever one part wants done in another's thread goes through
-- `EventLoop::queueInLoop`. The log has an `AsyncWorker` with two buffers of its own, which the
-- threads that log and the thread that writes swap; an `AsyncLogger` formats the lines, sends the severe
-- ones to a backup server through a `ThreadPool`, and gives what the worker hands over to its sinks.
--
-- The files, with the code that they model:
--   Base            shared lemmas on lists, sizes, maps and decimal texts; no code of the repository
--   Buffer          include/Buffer.hpp, src/Buffer.cpp
--   Channel         include/Channel.hpp, src/Channel.cpp
--   Poller          include/Poller.hpp, src/Poller.cpp, include/EpollPoller.hpp, src/EpollPoller.cpp
--   Connection      include/TcpConnection.hpp, src/TcpConnection.cpp; Connection.Send is `send`,
--                   `shutdown` and `handleWrite`, Connection.File is `sendFile`,
--                   Connection.Lifecycle the rest
--   Loop            include/EventLoop.hpp, src/EventLoop.cpp, src/DefaultPoller.cpp; Loop.Steps has the
--                   interleavings, Loop.Wiring the constructor and the destructor
--   LoopThread      src/EventLoopThread.cpp, src/Thread.cpp, src/CurrentThread.cpp; LoopThread.Steps has the
--                   interleavings
--   LoopPool        include/EventLoopThreadPool.hpp, src/EventLoopThreadPool.cpp
--   Net             include/InetAddress.hpp, src/InetAddress.cpp, src/Socket.cpp
--   Acceptor        include/Acceptor.hpp, src/Acceptor.cpp
--   Server          include/TcpServer.hpp, src/TcpServer.cpp, and of the acceptor what the server sees
--   Echo            src/testserver.cpp, the echo server
--   LogBuffer       log_system/logs_code/AsyncBuffer.hpp
--   Worker          log_system/logs_code/AsyncWorker.hpp; Worker.Steps has the interleavings,
--                   Worker.Wakeup those of `Stop` and the wait, taken apart
--   ThreadPool      log_system/logs_code/ThreadPool.hpp; ThreadPool.Steps has the interleavings
--   LogFlush        log_system/logs_code/LogFlush.hpp; LogFlush.Sinks has all sinks, LogFlush.Filenames the
--                   names of the rolled files
--   Logger          log_system/logs_code/AsyncLogger.hpp; Logger.Message is Message.hpp and Level.hpp,
--                   Logger.Manager is Manager.hpp, Logger.Steps has the interleavings
--   Util            log_system/logs_code/Util.hpp; Util.Settings is the configuration,
--                   Util.Content the reading of its file
--   Backup          log_system/logs_code/backlog; Backup.Steps has the interleavings of the server
-- Each has its definitions in the file of its name and its theorems in the child modules; Tests has
-- runs and the theorems at concrete values. Names are the source's, in snake case: `sendInLoop` is
-- `send_in_loop`. State is passed explicitly, as a record with the source's fields.
--
-- How the code is rendered. A `size_t` is a natural number with its wrap-around written out (add_size,
-- sub_size, modulo 2^64); an event mask is the bit pattern of an `int`. A byte is any number, since
-- the code only moves bytes. An answer of the kernel is an argument: the count or the error of a read
-- or a write (`Io`, `Arrival`), the list of ready channels (`Waited`), and epoll as an interface with
-- the laws of `epoll_ctl` (`Epoll`). The user's callbacks are functions on the state. A connection
-- also records what its socket took (`wire`), what it put into the loop's queue (`queued`) and which
-- callbacks were called (`seen`), and a loop what it called; the code keeps none of these. Threads are
-- step relations: a step is what happens under one mutex or between two system calls. `loop` runs over
-- the list of the poller's answers, one for each round, so that it needs no fuel; everything else is
-- structural recursion or no recursion at all, `CreateDirectory` excepted.
--
-- The file system, jsoncpp, <arpa/inet.h> and epoll are interfaces: records of operations with the laws
-- that the code relies on, which the Tests instantiate.
--
-- The loop of `CreateDirectory` has as much fuel as the path has codes, which is enough since each
-- round moves the index on.
--
-- An `int` that counts is kept by its 32 bits; where it would overflow, which C++ leaves undefined, the
-- theorems stop short of that. The pointer that `send` binds from another thread is rendered as the
-- bytes that it points to.
--
-- Not modelled: log lines, time stamps (Timestamp, whose text is snprintf's), the system calls that set
-- up a listening socket, the main functions and the test program of the log, which only call what is
-- modelled. `fopen` and `fwrite` of the backup server's own file are taken to work.
pub mod Base
pub mod Buffer
pub mod Channel
pub mod Poller
pub mod Net
pub mod Acceptor
pub mod Connection
pub mod Loop
pub mod LoopThread
pub mod LoopPool
pub mod Server
pub mod Echo
pub mod LogBuffer
pub mod Worker
pub mod ThreadPool
pub mod LogFlush
pub mod Logger
pub mod Util
pub mod Backup
