-- ===== src/Base/ClientType.antt =====
-- `client_type` of czrpc/base/protocol_define.hpp: a 32-bit word, four of whose values have names.
use czrpc.Prelude.{ℕ}

abbrev pub ClientType : Type 0
ClientType = ℕ

abbrev pub rpc_client : ClientType
rpc_client = 0

abbrev pub async_rpc_client : ClientType
async_rpc_client = 1

abbrev pub pub_client : ClientType
pub_client = 2

abbrev pub sub_client : ClientType
sub_client = 3
