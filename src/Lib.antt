-- ===== src/Lib.antt =====
-- SocketLibLinux: TCP sockets for Linux with one channel for each connection, a queue of bytes read
-- and a queue of messages to write for each channel, and callbacks for connections and received data.
--
-- How the parts interact. A `SocketHandler` (src/SocketHandler.cpp) creates sockets under ids and runs
-- the thread that delivers logs. A `ServerSocket` (src/ServerSocket.cpp) binds, and runs one thread
-- that accepts connections and closes dead ones, and pairs of worker threads that go over all clients,
-- one reading and one writing; the map of clients is guarded by an `ExclusivePrioritySharedMutex`. A
-- `ClientSocket` (src/ClientSocket.cpp) connects and holds one channel. A `Channel` (src/Socket.cpp)
-- reads into a `StreamQueue` and calls the listeners of an `EventCallback`; `queueWrite` copies a
-- `Message` into the write queue, which `handleWriteQueue` empties with `send`.
--
-- Which file models which part:
--   Message.antt: shared/Message.hpp. An owned buffer stands for `_data`; assignment and moves work on
--     a store of objects by address, so that `&other == this` can be asked.
--   Message/Heap.antt: the same operations over a memory of blocks, with `new[]` and `delete[]`, where
--     a second `delete[]` of a block, or a read of one that is gone, is a fault. Message/Heap/Runs.antt
--     compares whole programs of messages with the same programs over plain values.
--   StreamQueue.antt: shared/StreamQueue.hpp, a list of bytes, oldest first. The `uint8_t` index of
--     `dequeueAsVec` wraps at 256, and a write out of range is a fault. StreamQueue/History.antt has the
--     abstract stream: all bytes that ever came in, and a reading position.
--   BulkQueue.antt: the queue of shared/queue, which is another project's library: an interface and,
--     as `IsFifo` and `IsPerProducer`, what the code relies on for one producer and for many. With
--     many, the queue says nothing of the order of two threads.
--   Channel.antt: `Channel` of shared/Socket.hpp and src/Socket.cpp. `send_loop` is the loop of
--     `sendBytes` with the answers of `send` and of `isActive()` as its rounds; `handle_write_queue`,
--     `queue_write` and `read_data` are the operations, with the state of the other threads' locks and
--     flags as arguments. Channel/End.antt has `awaitShutdown` and the destructor.
--   Channel/Workers.antt: one channel under any number of threads: each test of the loops and each call
--     of `send` is a step of its own, and any thread may queue a message or shut the channel down in
--     between. A message stands there beside the thread that queued it, which the code does not keep.
--   Channel/Readers.antt: the reading side in the same way, a step for `recv`, for the test behind it
--     and for each call of `dequeue` by a listener.
--   SharedMutex.antt: shared/ExclusiveSharedMutex.h, as steps of any number of threads, one step for
--     each access to an atomic or to the mutex; wake-ups may be spurious.
--   ServerSocket.antt, ServerSocket/Loops.antt: shared/ServerSocket.hpp and src/ServerSocket.cpp. The
--     map of clients is the list of its entries in the order in which it is traversed
--     (UnorderedMap.antt). The loops of the threads are modelled pass by pass, and
--     ServerSocket/Reports/Life.antt puts the passes, the calls of the owner and the detached threads that
--     report connections in any order.
--   ServerSocket/Guarded.antt: the same threads beside each other over the map, with an iterator for
--     each loop and a step for each channel. The mutex is an interface there, which
--     ServerSocket/Guarded/Dangles.antt fills with the model of `ExclusivePrioritySharedMutex`. An
--     erase makes the iterators at its entry dangle, an insertion that rehashes all of them. What is
--     shown of all mutexes is for the runs in which readers and writers stay apart.
--   Connection.antt: the channels at the two ends of a connection, with the steps of
--     Channel/Workers.antt and Channel/Readers.antt at each end. That the connection is a byte stream is
--     the condition of the steps that receive.
--   ClientSocket.antt: shared/ClientSocket.hpp and src/ClientSocket.cpp, with the answers of
--     `::connect` as a list.
--   ServerSocket/Peer.antt: `getPeerName` and `getPeerAddress`, with `getHostByAddress` of
--     shared/SocketUtil.hpp, over the model of the logger.
--   Socket.antt: the constructor and the destructor of `Socket` in src/Socket.cpp and
--     `resolveEndpoint` of shared/SocketUtil.hpp, with the list of addresses that they own.
--     Socket/Logs.antt is the constructor over the model of the logger, and ClientSocket/Construct.antt
--     that of `ClientSocket` behind it.
--   SocketHandler.antt: shared/SocketHandler.hpp and src/SocketHandler.cpp, the table of sockets, with
--     ids modulo 2^32. SocketHandler/Shared.antt has the same calls by any number of threads, with
--     `socketMutex`, the `find` of `destroySocket` outside of it, and the iterator that it keeps while
--     it waits for the mutex.
--   EventCallback.antt: shared/utils/EventCallback.hpp, over the ordered and the unordered container.
--     EventCallback/Shared.antt has the thread-safe class under any number of threads.
--   Logger.antt: shared/SocketLogger.hpp, src/SocketLogger.cpp, `handleLogThread` of
--     src/SocketHandler.cpp, and the checks of shared/SocketUtil.hpp. Logger/Paper.antt is the branch
--     for the paper library.
--   ServerSocketTest.antt: the callbacks of the programs test/src/ServerSocketTest.cpp, which passes
--     each message on to the other clients, and test/src/ClientSocketTest.cpp, which answers it. The
--     text that `fmt::format` makes is a parameter.
--   Prelude.antt: names and lemmas that the files share.
--
-- Bounds and fuel. A loop that waits for the system (`sendBytes`, `connect`, the retries of the
-- logger, `handleLogThread`) runs on the list of the answers that it gets; when the list ends the
-- result says that the loop still runs. The loop of `sendBytes` needs no more answers than there are
-- bytes, if each one makes progress. All other loops are recursion on the list that they traverse.
-- Sizes are below 2^64 where the code compares them with a converted negative number.
--
-- Not modelled: the library under shared/queue and shared/queue_internal, sleeps, and `startTest` and
-- `main` of the test programs. A step of a server's thread in ServerSocket/Guarded.antt is one channel of
-- a pass; what the calls on that channel do is there only that it may change at any time, and their own
-- steps are those of Channel/Workers.antt and Channel/Readers.antt. Memory orders of the atomics weaker
-- than the order of the steps are left out.
pub mod Prelude
pub mod Message
pub mod StreamQueue
pub mod UnorderedMap
pub mod BulkQueue
pub mod Channel
pub mod SharedMutex
pub mod EventCallback
pub mod ServerSocket
pub mod Connection
pub mod ServerSocketTest
pub mod SocketHandler
pub mod Socket
pub mod ClientSocket
pub mod Logger
