-- ===== src/Base.antt =====
-- The parts of czrpc/base that the server and the clients share.
pub mod SerializeMode
pub mod ClientType
pub mod ErrorCode
pub mod Protocol
pub mod Map
pub mod Queue
pub mod ThreadPool
pub mod Timer
pub mod ScopeGuard
pub mod Singleton
pub mod Util
pub mod Log
pub mod FunctionTraits
pub mod Protobuf
pub mod SerializeUtil
