-- ===== src/Client/RpcTask.antt =====
-- `rpc_task` of czrpc/client/rpc_task.hpp and `result` of czrpc/client/result.hpp: what the function
-- that a caller gives to `result` is called with.
use czrpc.Prelude.{
  ℕ, Bytes, Bool, true, false, Option, none, some, [], ◌∷◌, is_empty, if◌then◌else◌, Result, ok,
  throw, ◌≡◌, ◌≢◌, ◌↔◌, arith,
}
use czrpc.Base.ErrorCode
use czrpc.Base.ErrorCode.{ErrorCode, is_error}
use czrpc.Base.Protocol.{ResponseContent}
use czrpc.Base.Protobuf.{Protobuf, IsDocumented}
use czrpc.Base.SerializeUtil.{MessagePtr, serialize, deserialize, deserialize-serialize}
use czrpc.Server.RpcMessage.{send, Response, set_response, set_response_raw, ok_content}

module _ (pb : Protobuf) where
  pub record CallResult : Type 0 where
    pub ec : ErrorCode
    pub call_id : ℕ
    pub message : MessagePtr pb
    pub raw_data : Bytes

  -- The two constructors of `result`.
  unfoldable pub message_result : ErrorCode → ℕ → MessagePtr pb → CallResult
  message_result ec call_id message = record {
    ec = ec;
    call_id = call_id;
    message = message;
    raw_data = [];
  }

  unfoldable pub raw_result : ErrorCode → ℕ → Bytes → CallResult
  raw_result ec call_id raw_data = record {
    ec = ec;
    call_id = call_id;
    message = none;
    raw_data = raw_data;
  }

  parsed_result : ErrorCode → ℕ → Result pb.Message → Option CallResult
  unfolding message_result
  parsed_result ec call_id (ok m) = some (message_result ec call_id (some m))
  parsed_result ec call_id (throw e) = none

  -- The body of `task_`: `none` if an exception was caught, so that the function is not called.
  unfoldable pub run_task : ResponseContent → Option CallResult
  unfolding message_result raw_result parsed_result is_error
  run_task content =
      let ec : ErrorCode = record { code_ = content.code } in
      if is_empty content.message_name
      then (if is_error ec
          then some (raw_result ec content.call_id [])
          else some (raw_result ec content.call_id content.body))
      else (if is_error ec
          then some (message_result ec content.call_id none)
          else parsed_result ec content.call_id (deserialize pb content.message_name content.body))

  abbrev pub is_ok {ℓ} : {A : Type ℓ} → Result A → Bool
  is_ok (ok a) = true
  is_ok (throw e) = false

  -- The caller's function is called, with the response's code and call id, unless the response is
  -- good, names a message type, and cannot be deserialised. An error brings no message and no data.
  pub run_task_cases :
      (content : ResponseContent)
      → ((run_task content ≡ none) ↔ (
          (content.message_name ≢ [])
          × (content.code ≡ ErrorCode.ok)
          × (is_ok (deserialize pb content.message_name content.body) ≡ false)))
        × ((r : CallResult)
            → run_task content ≡ some r
            → (r.ec.code_ ≡ content.code)
              × (r.call_id ≡ content.call_id)
              × (content.code ≢ ErrorCode.ok → (r.message ≡ none) × (r.raw_data ≡ [])))
  unfolding run_task
  run_task_cases content = (ground arith, λ r e. ground arith)

  set_inverted :
      (rsp : Response) (m : pb.Message) (content : ResponseContent)
      → set_response pb rsp (some m) ≡ ok (send rsp.connect content ∷ [])
      → (serialize pb (some m) ≡ ok content.body)
        × (content ≡ ok_content rsp.call_id (pb.full_name m) content.body)
        × (pb.full_name m ≢ [])
  unfolding set_response serialize
  set_inverted rsp m content h = ground arith

  -- What a handler sets as its response, the caller's function gets: a message that is initialised
  -- and has a serialised body that is not empty, and data that are not empty.
  pub run_task-set_response :
      IsDocumented pb
      → (rsp : Response) (m : pb.Message) (raw : Bytes) (content answer : ResponseContent)
      → set_response pb rsp (some m) ≡ ok (send rsp.connect content ∷ [])
      → set_response_raw rsp raw ≡ send rsp.connect answer ∷ []
      → (run_task content
          ≡ some (message_result (record { code_ = ErrorCode.ok }) rsp.call_id (some m)))
        × (run_task answer ≡ some (raw_result (record { code_ = ErrorCode.ok }) rsp.call_id raw))
  unfolding run_task set_response_raw
  run_task-set_response doc rsp m raw content answer h k =
      let (body, same, named) = set_inverted rsp m content h in
      (ground (arith, deserialize-serialize pb doc m content.body body), ground arith)
