-- ===== src/Server/RpcMessage.antt =====
-- `request` and `response` of czrpc/server/rpc_message.hpp. A connection is known by a number; what
-- `async_write` hands to it is an output of the server.
use czrpc.Prelude.{
  ℕ, Bytes, not, ◌&&◌, none, some, List, [], ◌∷◌, is_empty, if◌then◌else◌, Result, ok, ◌>>=◌,
}
use czrpc.Base.ErrorCode
use czrpc.Base.Protocol.{ResponseContent, PushContent}
use czrpc.Base.Protobuf.{Protobuf}
use czrpc.Base.SerializeUtil.{MessagePtr, serialize}

-- What the server does to connections.
pub data Output : Type 0 where
  -- `async_write` of a response
  send : ℕ → ResponseContent → Output
  -- `async_write` of a push
  push : ℕ → PushContent → Output
  -- `disconnect`
  disconnect : ℕ → Output

module _ (pb : Protobuf) where
  pub record Request : Type 0 where
    pub message : MessagePtr pb
    pub raw_data : Bytes
    pub session_id : Bytes

  -- The two constructors of `request`.
  unfoldable pub message_request : MessagePtr pb → Bytes → Request
  message_request m session_id = record { message = m; raw_data = []; session_id = session_id }

  unfoldable pub raw_request : Bytes → Bytes → Request
  raw_request raw session_id = record { message = none; raw_data = raw; session_id = session_id }

-- `connect_` and `call_id_`.
pub record Response : Type 0 where
  pub connect : ℕ
  pub call_id : ℕ

abbrev pub ok_content : ℕ → Bytes → Bytes → ResponseContent
ok_content call_id name body = record {
  call_id = call_id;
  code = ErrorCode.ok;
  message_name = name;
  body = body;
}

module _ (pb : Protobuf) where
  -- `set_response(const message_ptr&)`: it may throw, and may write nothing.
  unfoldable pub set_response : Response → MessagePtr pb → Result (List Output)
  unfolding serialize
  set_response rsp none = ok []
  set_response rsp (some message) = do
    body ← serialize pb (some message)
    let message_name = pb.full_name message
    if not (is_empty message_name) && not (is_empty body)
        then ok (send rsp.connect (ok_content rsp.call_id message_name body) ∷ [])
        else ok []

-- `set_response(const std::string&)`
unfoldable pub set_response_raw : Response → Bytes → List Output
set_response_raw rsp raw_data =
    if is_empty raw_data then [] else send rsp.connect (ok_content rsp.call_id [] raw_data) ∷ []
