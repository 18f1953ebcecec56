-- ===== src/Server/Invoker.antt =====
-- `invoker_function` of czrpc/server/invoker.hpp. The functions that a program binds are not part of
-- the library: a handler is any function from the request to the `set_response` calls that it makes
-- and to whether it throws when it has made them.
use czrpc.Prelude.{Bytes, Option, List, [], ◌∷◌, ◌++◌, Result, ok, throw, Exception}
use czrpc.Base.Protobuf.{Protobuf}
use czrpc.Base.SerializeUtil.{MessagePtr}
use czrpc.Server.RpcMessage.{Output, Request, Response, set_response, set_response_raw}

module _ (pb : Protobuf) where
  -- One call on the response object.
  pub data Reply : Type 0 where
    message_reply : MessagePtr pb → Reply
    raw_reply : Bytes → Reply

  abbrev pub Handler : Type 0
  Handler = Request pb → List Reply × Option Exception

  -- `call` and `call_member`: a function, and a member function of an object.
  unfoldable pub call : Handler → Request pb → List Reply × Option Exception
  call func req = func req

  unfoldable pub call_member :
      {Self : Type 0} → (Self → Handler) → Self → Request pb → List Reply × Option Exception
  call_member func self req = func self req

  -- `invoker<Function>::apply` and `apply_member`
  unfoldable pub apply : Handler → Request pb → List Reply × Option Exception
  unfolding call
  apply func req = call func req

  unfoldable pub apply_member :
      {Self : Type 0} → (Self → Handler) → Self → Request pb → List Reply × Option Exception
  unfolding call_member
  apply_member func self req = call_member func self req

  abbrev pub reply_outputs : Response → Reply → Result (List Output)
  reply_outputs rsp (message_reply m) = set_response pb rsp m
  reply_outputs rsp (raw_reply raw) = ok (set_response_raw rsp raw)

  -- The calls in their order; one that throws ends the handler.
  unfoldable pub run_replies : Response → List Reply → List Output
  run_replies rsp [] = []
  run_replies rsp (r ∷ rs) =
      let later = run_replies rsp rs in
      elim (reply_outputs rsp r) [ ok outputs ↦ outputs ++ later | throw e ↦ [] ]

  -- `operator()`: what the handler throws is caught and logged, so only its outputs are left.
  unfoldable pub invoke : Handler → Request pb → Response → List Output
  unfolding run_replies
  invoke func req rsp = run_replies rsp (func req).0
