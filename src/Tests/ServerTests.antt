-- ===== src/Tests/ServerTests.antt =====
-- The server at concrete inputs.
use czrpc.Prelude.{Bytes-discrete, codes, [], ◌∷◌, ◌≡◌, refl, All, List}
use czrpc.Server.RpcMessage.{send, set_response_raw}
use czrpc.Base.Map
use czrpc.Server.Invoker.{invoke}
use czrpc.Server.Router.{route_raw}
use czrpc.Server.Dispatch.{router_thread, publish_raw}
use czrpc.Server.Dispatch.Answers.{Answers, router_thread-Answers}
use czrpc.Server.Dispatch.Publish.{Event, request, error, pushes, after, publish_raw_exact}
use czrpc.Tests.Sample.{
  text_protobuf, two_connections, echo_request, echo_response, echo_router, subscribe_request,
}

echo_answered :
    (router_thread text_protobuf two_connections echo_request 3 echo_router []).1
    ≡ send 3 echo_response ∷ []
unfolding router_thread Bytes-discrete route_raw invoke set_response_raw Map.find
echo_answered = refl

router_thread-Answers_example :
    All (Answers 3 7) (router_thread text_protobuf two_connections echo_request 3 echo_router []).1
router_thread-Answers_example =
    router_thread-Answers text_protobuf two_connections echo_request 3 echo_router []

abbrev history : List (Event text_protobuf two_connections)
history =
    request (subscribe_request (codes "news") (codes "1")) 4
    ∷ error 3
    ∷ request (subscribe_request (codes "news") (codes "1")) 3
    ∷ []

publish_raw_exact_example :
    pushes 4 (
      publish_raw text_protobuf two_connections
        (codes "news")
        (codes "today")
        (after text_protobuf two_connections echo_router history))
    ≡ 1
unfolding Bytes-discrete
publish_raw_exact_example =
    publish_raw_exact text_protobuf two_connections echo_router (codes "news") (codes "today") 4
      history (refl, (refl, (refl, tt)))
