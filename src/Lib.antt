-- ===== src/Lib.antt =====
-- LiteIM, a TCP instant-messaging server: what its parts do, and the theorems about them.
--
-- The program. Clients and server exchange frames: a header of 20 bytes and a body of TLV records. A
-- session reads bytes from its socket, feeds them to a frame decoder, and hands the packets to the message
-- router, which parses the body and calls the service for the type of the message; the response goes back
-- through the session's output buffer. Services keep the table of who is online, and use MySQL and Redis;
-- time-outs hang on a heap of timers that an event loop polls.
--
-- The files, by the part of the program they are about. A function keeps its name, in lower case with
-- underscores (`FrameDecoder::feed` is `feed`); the tests and the theorems at concrete inputs stand in the
-- module Tests of each part.
-- Prelude: Boolean tests, lists over the native numbers, bits, and `std::unordered_map` as an association
--   list (Prelude/Assoc).
-- Status: include/liteim/base/{ErrorCode,Status}.hpp and their .cpp files. A function that writes its
--   output parameter only on success returns a `Result`.
-- Protocol/ByteOrder, Protocol/MessageType, Protocol/Tlv, Protocol/Packet, Protocol/FrameDecoder,
--   Protocol/TlvCodec: the files of these names under include/liteim/protocol and src/protocol.
--   A decoder's state is its buffer and its error flag; `feed` takes and gives it. Frames and Records
--   specify the decoder and the codec on whole byte strings.
-- Net/Buffer: include/liteim/net/Buffer.hpp and src/net/Buffer.cpp, with the vector and the two indices;
--   Refinement compares it with a queue of bytes.
-- Net/Session: include/liteim/net/Session.hpp and src/net/Session.cpp. A run is a list of events: calls, what
--   `read` and `write` return, and turns of the event loop's queue (runInLoop, queueInLoop and
--   doPendingTasks of src/net/EventLoop.cpp). The message callback may send, close and throw: the loop catches
--   that, and the session stays as it is. Output and Input say what holds after any run.
-- Timer/TimerHeap: include/liteim/timer/TimerHeap.hpp and src/timer/TimerHeap.cpp. The priority queue is a
--   list in its order; the timers that are still to fire are `active` (Active).
-- Concurrency/ThreadPool: include/liteim/concurrency/ThreadPool.hpp and src/concurrency/ThreadPool.cpp,
--   as steps of a submitter, of a worker and of `stop`, one for each section under the pool's mutex.
-- Service/SessionManager: include/liteim/service/SessionManager.hpp and src/service/SessionManager.cpp,
--   with its two maps. A session object is a handle; whether it is still alive and open is a function that
--   each call is given, since it changes outside of the manager.
-- Service/AuthService: include/liteim/service/{AuthService,Validation}.hpp and src/service/AuthService.cpp.
--   A handler returns the response, or the status of its failure, and the new state of what it calls:
--   storage, cache, online service and OpenSSL are the record `Backend`, a parameter. A response that is
--   partly written when a handler fails is not sent, so it is left out. Login, Refusals and Register say
--   when a login or a registration succeeds and what it leaves behind.
-- Service/Records: include/liteim/storage/StorageTypes.hpp, with the requests of the router.
-- Service/Interfaces: what the services call of `OnlineService`, `IStorage` and `ICache`, as records of
--   operations that a service takes as parameters; their state is any type.
-- Service/Action: the calls of a handler, with the state that each leaves to the next; Ensures has the rules
--   for what an action ensures where it succeeds.
-- Service/MessageRouter: include/liteim/service/MessageRouter.hpp and src/service/MessageRouter.cpp. A
--   handler is a function that returns or throws; the business pool takes a task or not, and may run it later.
-- Service/MessagePacketBuilder: src/service/MessagePacketBuilder.cpp; RoundTrip has the rules for bodies
--   that are written field by field.
-- Service/ChatService: include/liteim/service/ChatService.hpp and src/service/ChatService.cpp. Delivery,
--   Sent and Private follow a private message from the request to the receiver.
-- Service/OfflineMessageService: include/liteim/service/OfflineMessageService.hpp and
--   src/service/OfflineMessageService.cpp: Pulls, Acks, Body, Conversations and Limits.
-- Service/OnlineService, Service/HeartbeatService: the files of these names under include/liteim/service and
--   src/service, the first over the table of Service/SessionManager. A session may close in the middle of
--   `bindUser`, between its calls of the table; calls of other threads do not come in between. Presence has
--   what a cache must do.
--
-- Numbers. A byte is a number below 256, where a theorem needs it as a hypothesis; words are cut to their
-- width where the code does (`of_be`, masks and shifts). Sizes, times, ids and indices are natural numbers
-- and do not run out: a 64-bit counter of timers or sessions is not exhausted, and memory is not either.
--
-- Loops that are not structural take fuel: `feed_loop` and `parse_loop` one round more than there are bytes
-- (each round consumes a header at least), `pop_loop` one round more than the heap has entries (each round
-- takes one away, as long as callbacks add timers for later only).
--
-- Not modelled: sockets, polling, event loops and signals; the TCP server; the services for friends, groups,
-- and history; MySQL, Redis and their pools; configuration and logging; the clients and the benchmark.
-- An exception of the standard library (no memory) does not occur in the model.
pub mod Prelude
pub mod Status
pub mod Protocol
pub mod Net
pub mod Timer
pub mod Service
pub mod Concurrency
