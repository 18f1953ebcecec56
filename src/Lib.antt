-- ===== src/Lib.antt =====
-- czrpc: remote procedure calls and publish/subscribe over TCP, as a model with theorems.
--
-- A client writes requests to a server's connection. The server reads each request, gives it to a
-- thread of its pool, and looks for the function that is bound to its protocol; the function sets a
-- response, which goes back on the same connection. A request of a subscriber changes the server's
-- table of topics, and what the server publishes on a topic is pushed to the connections that have it.
--
-- Base: what both sides use.
--   SerializeMode, ClientType, Protocol: the headers, contents and flags of
--     czrpc/base/protocol_define.hpp.
--   ErrorCode: czrpc/base/error_code.hpp.
--   Map, Queue: the tables of czrpc/base/table/threadsafe_unordered_map.hpp and
--     threadsafe_list.hpp. Each method holds the mutex throughout, so it is one step.
--   ThreadPool: czrpc/base/thread_pool.hpp, as steps of threads under any schedule.
--   Protobuf, SerializeUtil: czrpc/base/serialize_util.hpp over the protobuf library, which is the
--     record Protobuf; IsDocumented states what the code relies on.
--   Timer: czrpc/base/atimer.hpp, as steps of callers, of the clock and of the timer's thread.
--   ScopeGuard, Singleton: czrpc/base/scope_guard.hpp and singleton.hpp.
--   Log: czrpc/base/czlog.hpp.
--   FunctionTraits: czrpc/base/function_traits.hpp, with C++ types as codes.
--   Util: czrpc/base/util.hpp, with the bytes that strtok_r writes into the caller's text.
--
-- Wire: what goes over the network, by the writer's code and by the reader's.
--   Word, Reads: 32-bit words of a little-endian machine, and reads of an exact size.
--   Request: written by czrpc/client/client_base.hpp, read by czrpc/server/connection.hpp.
--   Response: written by connection.hpp, read by client_base.hpp.
--   Push: written by connection.hpp, read by czrpc/client/sub_client.hpp.
--
-- Server:
--   Connection, SendQueue: czrpc/server/connection.hpp, the handlers of its reads and writes.
--   RpcMessage, Invoker: czrpc/server/rpc_message.hpp and invoker.hpp. A handler is any function from
--     the request to its set_response calls and the exception that it throws, if it throws one.
--   Router, TopicManager: czrpc/server/router.hpp and topic_manager.hpp.
--   Bindings: bind to is_bind_raw of czrpc/server/server.hpp.
--   Work: route of server.hpp: the requests as tasks of the thread pool.
--   Dispatch: router_thread, publish, publish_raw and handle_error of czrpc/server/server.hpp.
--   IoServicePool, TcpEndpoint, Setup: czrpc/server/io_service_pool.hpp, tcp_endpoint.hpp, and the
--     settings and run of server.hpp.
--
-- Client:
--   ReadLoop: the reading and the reconnecting of async_rpc_client.hpp and sub_client.hpp.
--   ClientBase, SendQueue: czrpc/client/client_base.hpp.
--   RpcClient: the blocking calls of czrpc/client/rpc_client.hpp; RpcClient/Timed has its timer and the
--     clock, with times in seconds.
--   Lifecycle: run and stop of async_rpc_client.hpp and sub_client.hpp.
--   AsyncRpcClient, RpcTask: czrpc/client/async_rpc_client.hpp, rpc_task.hpp and result.hpp.
--   SubInvoker, SubRouter, SubClient: czrpc/client/sub_router.hpp, sub_invoker.hpp and sub_client.hpp.
--
-- System: a client and a server together, where the bytes that the one writes are the bytes that the
-- other reads.
--   RawCall, AsyncCall, PubSub: one call, and a subscription with a publication, from end to end.
--   Delivery, Publications: what many publications put through the send queue of a connection.
--   AsyncCalls: many asynchronous calls through the send queues, the streams, the server's pool with one
--     work thread (Work) and the read loop, each of which may have come any distance.
--
-- Bounds: unsigned int and time values are natural numbers; what the code stores in 32 bits wraps by
-- `% u32_mod`, and a theorem about a text's length says that it fits. Decimal numbers are written with
-- fuel 20, which is enough for 64 bits. The rounds of `receive` are two for each request; the attempts
-- to connect are a list, and a client that has not connected within them has no result.
--
-- Not modelled: the network itself and boost::asio, of which a run gives the results as arguments; the
-- memory of shared pointers, but for connections that are gone; what operator<< of a
-- stream writes.
-- Singletons that are static variables are passed as states.
mod Prelude
pub mod Base
pub mod Wire
pub mod Server
pub mod Client
pub mod System
pub mod Tests
