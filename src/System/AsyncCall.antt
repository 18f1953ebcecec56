-- ===== src/System/AsyncCall.antt =====
-- An asynchronous call with a message, from the caller through the server's handler and back to the
-- caller's function. The contents go over the network by the round trips of Wire.
use czrpc.Prelude.{ℕ, ◌+◌, ◌%◌, Bytes, Bytes-discrete, [], ◌∷◌, none, some, ok, ◌≡◌, ◌≢◌, arith}
use czrpc.Base.ErrorCode
use czrpc.Base.Protocol.{RequestContent, ResponseContent}
use czrpc.Base.Protobuf.{Protobuf, IsDocumented}
use czrpc.Base.SerializeUtil.{serialize, check_message, deserialize-serialize}
use czrpc.Base.Map
use czrpc.Wire.Word.{u32_mod}
use czrpc.Server.RpcMessage.{send, Response, message_request, set_response, ok_content}
use czrpc.Server.Invoker.{Handler, message_reply, invoke}
use czrpc.Server.Router.{Router, route}
use czrpc.Server.TopicManager.{Topics}
use czrpc.Server.Dispatch.{Connections, router_thread}
use czrpc.Client.AsyncRpcClient as AsyncRpcClient
use czrpc.Client.AsyncRpcClient.{
  AsyncRpcClient, TaskWithTimepoint, dispatch, next_call_id, async_call, message_content,
  add_bind_func, result, find_task, finish_route,
}
use czrpc.Client.RpcTask.{run_task, message_result}

module _ (pb : Protobuf) (doc : IsDocumented pb) (conns : Connections) (r : Router pb)
    (topics : Topics) (conn : ℕ) (session_id func_name : Bytes) (message : pb.Message)
    (body : Bytes) (written : serialize pb (some message) ≡ ok body)
    (session : conns.session_id conn ≡ ok session_id) (c : AsyncRpcClient) where
  abbrev pub call_id_of : ℕ
  call_id_of = (c.call_id + 1) % u32_mod

  abbrev pub request_of : RequestContent
  request_of = message_content pb call_id_of func_name message body

  called :
      async_call pb func_name (some message) c ≡ (record c { call_id = call_id_of }, ok request_of)
  unfolding async_call check_message next_call_id serialize
  called = ground arith

  abbrev rsp : Response
  rsp = record { connect = conn; call_id = call_id_of }

  module _ (func : Handler pb) (out : pb.Message) (out_body : Bytes)
      (bound : Map.find Bytes-discrete func_name r.route_map ≡ some func)
      (replies : (func (message_request pb (some message) session_id)).0
        ≡ message_reply (some out) ∷ [])
      (out_written : serialize pb (some out) ≡ ok out_body) (some_out : out_body ≢ []) where
    abbrev pub answer_of : ResponseContent
    answer_of = ok_content call_id_of (pb.full_name out) out_body

    responds : set_response pb rsp (some out) ≡ ok (send conn answer_of ∷ [])
    unfolding set_response
    responds = ground (arith, out_written, doc.named out)

    handled : router_thread pb conns request_of conn r topics ≡ (topics, send conn answer_of ∷ [])
    unfolding router_thread route invoke
    handled = ground (arith, deserialize-serialize pb doc message body written, responds)

    dispatched :
        (task now : ℕ)
        → find_task call_id_of c ≡ none
        → (AsyncRpcClient.route answer_of
            (result request_of task now (record c { call_id = call_id_of })).0).1
          ≡ dispatch task answer_of ∷ []
    unfolding AsyncRpcClient.route find_task finish_route result add_bind_func Map.emplace Map.find
    dispatched task now free = ground arith

    runs :
        run_task pb answer_of
        ≡ some (message_result pb (record { code_ = ErrorCode.ok }) call_id_of (some out))
    unfolding run_task
    runs = ground (arith, deserialize-serialize pb doc out out_body out_written, doc.named out)

    -- An asynchronous call with an initialised message, whose id is not that of a call that waits, on a
    -- connection that has a session: the handler that is bound to the function sees the message. If its
    -- one response is an initialised message with a body that is not empty, the server answers once,
    -- the task of the call is given to the thread pool, and the caller's function gets this message.
    pub async_call_answered :
        (task now : ℕ)
        → find_task call_id_of c ≡ none
        → (async_call pb func_name (some message) c
            ≡ (record c { call_id = call_id_of }, ok request_of))
          × (router_thread pb conns request_of conn r topics ≡ (topics, send conn answer_of ∷ []))
          × ((AsyncRpcClient.route answer_of
                (result request_of task now (record c { call_id = call_id_of })).0).1
              ≡ dispatch task answer_of ∷ [])
          × (run_task pb answer_of
              ≡ some (message_result pb (record { code_ = ErrorCode.ok }) call_id_of (some out)))
    async_call_answered task now free = (called, handled, dispatched task now free, runs)
