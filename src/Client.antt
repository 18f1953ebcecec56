-- ===== src/Client.antt =====
-- The parts of czrpc/client.
pub mod SendQueue
pub mod ReadLoop
pub mod ClientBase
pub mod RpcTask
pub mod AsyncRpcClient
pub mod RpcClient
pub mod SubInvoker
pub mod SubRouter
pub mod SubClient
pub mod Lifecycle
