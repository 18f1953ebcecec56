-- ===== src/Tests/SystemTests.antt =====
-- The client and the server together at concrete inputs.
use czrpc.Prelude.{
  Bytes, Bytes-discrete, codes, true, [], ◌∷◌, none, some, ok, throw, ◌≡◌, refl, arith,
}
use czrpc.Base.Map
use czrpc.Wire.Request.{request_buffer}
use czrpc.Server.RpcMessage.{raw_request}
use czrpc.Server.Router.{Router}
use czrpc.Server.TopicManager.{has_topic}
use czrpc.Server.TopicManager.Counts.{IsTopics}
use czrpc.Server.Dispatch.{publish_raw}
use czrpc.Server.Dispatch.Publish.{pushes}
use czrpc.Base.ErrorCode
use czrpc.Base.Protocol.{RequestContent, ResponseContent}
use czrpc.Base.SerializeUtil.{serialize}
use czrpc.Server.RpcMessage.{ok_content, message_request, send}
use czrpc.Server.Invoker.{Handler, message_reply}
use czrpc.Server.Dispatch.{router_thread}
use czrpc.Client.AsyncRpcClient as AsyncRpcClient
use czrpc.Client.AsyncRpcClient.{
  new_client, async_call, message_content, result, dispatch, find_task,
}
use czrpc.Client.RpcTask.{run_task, message_result}
use czrpc.System.AsyncCall.{async_call_answered}
use czrpc.Tests.Sample.{text_protobuf-IsDocumented}
use czrpc.Client.ClientBase.{new_client_base, disconnect}
use czrpc.Client.RpcClient as RpcClient
use czrpc.Client.RpcClient.{call_raw}
use czrpc.Client.RpcClient.Calls.{connected_client}
use czrpc.Client.SubRouter
use czrpc.Client.SubRouter.{SubRouter, raw_call, empty_sub_router}
use czrpc.Client.SubClient.{cancel_subscribe, is_subscribe, is_subscribe_raw, retry_subscribe}
use czrpc.System.{served}
use czrpc.System.RawCall.{raw_call_answered, raw_call_empty_reply}
use czrpc.System.PubSub.{handled, handled_all, cancel_silences_raw, retry_subscribe_restores}
use czrpc.Tests.Sample.{
  text_protobuf, two_connections, echo_raw, echo_router, reliable_network,
  reliable_network-IsReachable,
}

-- What the server writes for a call of a function with a text.
abbrev answer_to : Router text_protobuf → Bytes → Bytes → Bytes
answer_to r func_name body =
    served text_protobuf two_connections r [] 3
      (request_buffer (RpcClient.raw_content func_name body))

raw_call_answered_example :
    call_raw
      (record reliable_network { incoming = answer_to echo_router (codes "echo") (codes "hello") })
      (codes "echo")
      (codes "hello")
      new_client_base
    ≡ some (connected_client new_client_base, ok (codes "hello"))
unfolding Map.find Bytes-discrete raw_request
raw_call_answered_example =
    raw_call_answered text_protobuf two_connections echo_router [] 3 (codes "a#b") (codes "echo")
      (codes "hello") (omega arith) (omega arith) refl reliable_network new_client_base
      reliable_network-IsReachable echo_raw (codes "hello") refl refl (λ e. cc) (omega arith)

raw_call_empty_reply_example :
    call_raw
      (record reliable_network { incoming = answer_to echo_router (codes "echo") [] })
      (codes "echo")
      []
      new_client_base
    ≡ some (disconnect (connected_client new_client_base), throw reliable_network.read_error)
unfolding Map.find Bytes-discrete raw_request
raw_call_empty_reply_example =
    raw_call_empty_reply text_protobuf two_connections echo_router [] 3 (codes "a#b") (codes "echo")
      [] (omega arith) (omega arith) refl reliable_network new_client_base
      reliable_network-IsReachable echo_raw refl refl

news_topic-IsTopics : IsTopics ((codes "news", 4) ∷ [])
news_topic-IsTopics = λ t c. ground arith

abbrev raw_subscription : SubRouter
raw_subscription = record { route_map = []; route_raw_map = (codes "news", 1) ∷ [] }

cancel_silences_raw_example :
    (is_subscribe_raw (codes "news") (cancel_subscribe (codes "news") raw_subscription).0 ≡ true)
    × (pushes 4 (
          publish_raw text_protobuf two_connections (codes "news") (codes "today") (
            handled text_protobuf two_connections echo_router 4 refl
              (cancel_subscribe (codes "news") raw_subscription).1
              ((codes "news", 4) ∷ [])))
        ≡ 0)
unfolding is_subscribe_raw SubRouter.is_bind_raw Map.exists Map.find Bytes-discrete
cancel_silences_raw_example =
    cancel_silences_raw text_protobuf two_connections echo_router 4 refl (codes "news")
      (codes "today") ((codes "news", 4) ∷ []) raw_subscription news_topic-IsTopics refl

retry_subscribe_restores_example :
    has_topic
      (λ c. true)
      (codes "news")
      4
      (handled_all text_protobuf two_connections echo_router 4 refl
        (retry_subscribe raw_subscription)
        [])
    ≡ true
unfolding is_subscribe is_subscribe_raw SubRouter.is_bind SubRouter.is_bind_raw Map.exists Map.find
    Bytes-discrete has_topic
retry_subscribe_restores_example =
    retry_subscribe_restores text_protobuf two_connections echo_router 4 refl (codes "news") []
      raw_subscription

abbrev echo_text : Handler text_protobuf
echo_text req = (message_reply req.message ∷ [], none)

abbrev text_router : Router text_protobuf
text_router = record { route_map = (codes "echo", echo_text) ∷ []; route_raw_map = [] }

abbrev text_request : RequestContent
text_request = message_content text_protobuf 1 (codes "echo") (codes "hi") (codes "hi")

abbrev text_answer : ResponseContent
text_answer = ok_content 1 (codes "text") (codes "hi")

async_call_answered_example :
    (async_call text_protobuf (codes "echo") (some (codes "hi")) (new_client 10)
      ≡ (record (new_client 10) { call_id = 1 }, ok text_request))
    × (router_thread text_protobuf two_connections text_request 3 text_router []
        ≡ ([], send 3 text_answer ∷ []))
    × ((AsyncRpcClient.route text_answer
          (result text_request 5 0 (record (new_client 10) { call_id = 1 })).0).1
        ≡ dispatch 5 text_answer ∷ [])
    × (run_task text_protobuf text_answer
        ≡ some
            (message_result text_protobuf (record { code_ = ErrorCode.ok }) 1 (some (codes "hi"))))
unfolding serialize Map.find Bytes-discrete message_request find_task
async_call_answered_example =
    async_call_answered text_protobuf text_protobuf-IsDocumented two_connections text_router [] 3
      (codes "a#b") (codes "echo") (codes "hi") (codes "hi") refl refl (new_client 10) echo_text
      (codes "hi") (codes "hi") refl refl refl (λ e. cc) 5 0 refl
