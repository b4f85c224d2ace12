-- ===== src/Lib.antt =====
-- mnser: a verification library for the mnser server framework (C++11), a library of an event
-- loop on fibers, a byte buffer, and an HTTP layer.
--
-- ByteArray (ByteArray.antt and its children): inc/bytearray.h, src/bytearray.cpp and
-- inc/mnser_endian.h. The linked blocks are a list, the pointer `m_cur` an index into it; each
-- method of the class is a function of the same name that returns the new array, with `err` where
-- the C++ throws, fails an assertion or follows a null pointer. The loops of `write`, `read` and
-- `setPosition` walk along the blocks and recur on the list; the loops of the varints run at most
-- 5 and 10 rounds, which is the size of the array that the writer fills.
--
-- Timer (Timer.antt and its children): inc/timer.h and src/timer.cpp. A timer is an object of a
-- store that the set and its users share by address; `std::set` is the sorted list of addresses,
-- whose order the mutable `m_next` decides. Each method is one step under the manager's lock.
--
-- IoManager (IoManager.antt and its children): inc/iomanager.h and src/iomanager.cpp. The contexts
-- of the descriptors are a list; what epoll is told of them is the state of a kernel that the
-- record `Epoll` describes by what epoll's manual page promises. What a context hands to a
-- scheduler is appended to `scheduled`. `addEvent` is a check of the size, then `grow`, then `arm`.
-- IoManager/Round.antt is one round of `idle`; the loop around `epoll_wait` takes fuel, more than the
-- number of signals that interrupt it.
--
-- Servlet (Servlet.antt and its children): inc/http/http_servlet.h and
-- src/http/http_servlet.cpp. The maps of the dispatcher are association lists.
--
-- Scheduler (Scheduler.antt and its children): inc/scheduler.h, src/scheduler.cpp and the states
-- of src/fiber.cpp. `run` is cut where it switches into a fiber: `take_task`, then `start_fiber` or
-- `start_func`, then `settle_fiber` or `settle_func` on the state that the fiber came back in.
-- Scheduler/System.antt puts these into a step relation of several threads, for fibers and for
-- functions; `Polite` is the use of fibers that the scheduler relies on and does not check.
--
-- ConnectionPool (ConnectionPool.antt and its children): the pool of HTTP connections in
-- inc/http/http_connection.h and src/http/http_connection.cpp.
--
-- FdManager (FdManager.antt and its children): inc/fd_manager.h and src/fd_manager.cpp.
--
-- Log (Log.antt and its children): inc/log.h and src/log.cpp. Log/Formatter.antt is the parser of
-- patterns: its outer loop recurs on fuel, one round for each character and one more, which is
-- enough since each round goes on by at least one. Log/Loggers.antt has the loggers and appenders,
-- which are shared, in two stores; Log/Config.antt the listener of the configuration.
--
-- Stream and SocketStream (Stream.antt, SocketStream.antt and their children): src/stream.cpp and
-- src/socket_stream.cpp, with ByteArray/Buffers.antt for the segments that the socket is given. The
-- loops of fixed sizes take fuel, the size and one more, which is enough since each call moves a
-- byte or ends the loop. The socket's calls are arguments.
--
-- Address (Address.antt and its children): inc/address.h and src/address.cpp. The comparison reads
-- the structures as bytes; an IPv4 address is the two integers in memory, an IPv6 address
-- (Address/Ipv6.antt) its sixteen bytes, and a UNIX address the 108 bytes of the path.
--
-- Hook (Hook.antt and its children): src/hook.cpp, over the models of IoManager, Timer and
-- FdManager. The original functions are arguments, and so is `others`, what the thread does between
-- `YieldToHold` and the return to the fiber. `retry` takes fuel: more than the number of times that
-- the call is interrupted or finds nothing to do is enough. Hook/Arriving.antt is the loop that is
-- told of the event, as one such `others`. The weak pointer to the call's
-- `timer_info` can be locked as long as the call runs, which is as long as it is modelled.
--
-- Not modelled: the HTTP parsers, messages and sessions, URIs, sockets and servers, the configuration
-- and the YAML texts of the log, the lookups of addresses, threads and util: they work on texts that
-- generated code takes apart, or only call the system. The context switches of fibers are the C
-- library's.
--
-- Common (Common.antt and its children): Boolean tests, lists by native numbers, results, a
-- segment of a buffer overwritten and read, texts, and the bit operations as arithmetic.
--
-- Machine integers are natural numbers with their wrap-around written out; differences of
-- `size_t` wrap (`sub_size`), sums of positions count allocated bytes and do not.
pub mod Common
pub mod Address
pub mod ByteArray
pub mod SocketStream
pub mod Stream
pub mod Timer
pub mod Hook
pub mod IoManager
pub mod Log
pub mod Servlet
pub mod Scheduler
pub mod ConnectionPool
pub mod FdManager
