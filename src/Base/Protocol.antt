-- ===== src/Base/Protocol.antt =====
-- czrpc/base/protocol_define.hpp: the contents and headers of requests, responses and pushes.
use czrpc.Prelude.{ℕ, Bytes, codes}
use czrpc.Base.SerializeMode.{SerializeMode}
use czrpc.Base.ClientType.{ClientType}
use czrpc.Base.ErrorCode.{RpcErrorCode}

abbrev pub request_header_len : ℕ
request_header_len = 12

abbrev pub response_header_len : ℕ
response_header_len = 8

abbrev pub push_header_len : ℕ
push_header_len = 12

abbrev pub subscribe_topic_flag : Bytes
subscribe_topic_flag = codes "1"

abbrev pub cancel_subscribe_topic_flag : Bytes
cancel_subscribe_topic_flag = codes "0"

pub record ClientFlag : Type 0 where
  pub mode : SerializeMode
  pub type : ClientType

pub record RequestHeader : Type 0 where
  pub protocol_len : ℕ
  pub message_name_len : ℕ
  pub body_len : ℕ

pub record RequestContent : Type 0 where
  pub call_id : ℕ
  pub flag : ClientFlag
  pub protocol : Bytes
  pub message_name : Bytes
  pub body : Bytes

pub record RequestData : Type 0 where
  pub header : RequestHeader
  pub content : RequestContent

pub record ResponseHeader : Type 0 where
  pub message_name_len : ℕ
  pub body_len : ℕ

pub record ResponseContent : Type 0 where
  pub call_id : ℕ
  pub code : RpcErrorCode
  pub message_name : Bytes
  pub body : Bytes

pub record ResponseData : Type 0 where
  pub header : ResponseHeader
  pub content : ResponseContent

pub record PushHeader : Type 0 where
  pub protocol_len : ℕ
  pub message_name_len : ℕ
  pub body_len : ℕ

pub record PushContent : Type 0 where
  pub mode : SerializeMode
  pub protocol : Bytes
  pub message_name : Bytes
  pub body : Bytes

pub record PushData : Type 0 where
  pub header : PushHeader
  pub content : PushContent
