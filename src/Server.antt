-- ===== src/Server.antt =====
-- The parts of czrpc/server.
pub mod SendQueue
pub mod Connection
pub mod RpcMessage
pub mod Invoker
pub mod Router
pub mod Bindings
pub mod IoServicePool
pub mod TcpEndpoint
pub mod Setup
pub mod Work
pub mod TopicManager
pub mod Dispatch
