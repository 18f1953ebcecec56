-- ===== src/Tests/WorkTests.antt =====
-- The work of the server at concrete inputs: its threads, its handlers and the bounds of a request.
use czrpc.Prelude.{
  Bytes, Bytes-discrete, codes, true, false, List, [], ◌∷◌, ◌++◌, none, some, length, ◌≡◌, refl,
  arith,
}
use czrpc.Base.ThreadPool.{Worker, Action, adds, pushes, works}
use czrpc.Wire.Request.{request_buffer, read_request}
use czrpc.Wire.Request.Bounds.{cut, IsSendableButBody, read_request_wraps}
use czrpc.Server.RpcMessage.{Response, raw_request}
use czrpc.Server.Invoker.{Handler, raw_reply, invoke}
use czrpc.Server.Router as Router
use czrpc.Server.TopicManager.{has_topic}
use czrpc.Server.TopicManager.Subscriptions.{subscriptions}
use czrpc.Server.Bindings.{is_bind, is_bind_raw}
use czrpc.Server.Bindings.History.{
  Change, binds, binds_raw_member, unbinds, after, last_binding_decides,
}
use czrpc.Server.Work.{Task, started, run, serve_all}
use czrpc.Server.Work.InOrder.{current, one_worker_in_order}
use czrpc.Server.Work.Reorder.{subscribes, cancels, overtaking, two_workers_reorder}
use czrpc.Server.Work.PerConnection.{connection_order_decides}
use czrpc.Tests.Sample.{
  text_protobuf, two_connections, echo_request, echo_raw, echo_router, subscribe_request,
}

abbrev wanted : Task
wanted = (subscribe_request (codes "news") (codes "1"), 4)

-- The thread has handled the first request and taken the second.
abbrev schedule : List (Action Task)
schedule =
    adds wanted ∷ pushes 0 ∷ works 0 ∷ works 0 ∷ adds (echo_request, 3) ∷ pushes 0 ∷ works 0 ∷ []

one_worker_in_order_example :
    let s = run text_protobuf two_connections echo_router schedule (started 1 []) in
    ((s.topics, s.outputs) ≡ serve_all text_protobuf two_connections echo_router s.finished [])
    × ((w : Worker Task) × (s.threadpool.thread_vec ≡ w ∷ [])
        × (s.threadpool.pushed ≡ s.finished ++ (current w ++ s.threadpool.task_queue)))
one_worker_in_order_example =
    one_worker_in_order text_protobuf two_connections echo_router schedule []

two_workers_reorder_example :
    let s =
      run text_protobuf two_connections echo_router
        (overtaking text_protobuf two_connections echo_router 4 (codes "news"))
        (started 2 []) in
    (s.threadpool.pushed
      ≡ subscribes text_protobuf two_connections echo_router 4 (codes "news")
        ∷ cancels text_protobuf two_connections echo_router 4 (codes "news")
        ∷ [])
    × (s.finished
        ≡ cancels text_protobuf two_connections echo_router 4 (codes "news")
          ∷ subscribes text_protobuf two_connections echo_router 4 (codes "news")
          ∷ [])
    × (has_topic (λ c. true) (codes "news") 4 s.topics ≡ true)
    × (has_topic
          (λ c. true)
          (codes "news")
          4
          (serve_all text_protobuf two_connections echo_router s.threadpool.pushed []).0
        ≡ false)
two_workers_reorder_example =
    two_workers_reorder text_protobuf two_connections echo_router 4 (codes "news") [] refl

abbrev other : Task
other = (subscribe_request (codes "news") (codes "1"), 3)

connection_order_decides_example :
    subscriptions
      (λ c. true)
      (serve_all text_protobuf two_connections echo_router (wanted ∷ other ∷ []) []).0
    ≡ subscriptions
        (λ c. true)
        (serve_all text_protobuf two_connections echo_router (other ∷ wanted ∷ []) []).0
connection_order_decides_example =
    connection_order_decides text_protobuf two_connections echo_router (wanted ∷ other ∷ [])
      (other ∷ wanted ∷ []) [] (refl, (refl, tt)) (refl, (refl, tt)) (λ c. ground arith)

-- A member function that answers with what its object holds.
abbrev told : Bytes → Handler text_protobuf
told self req = (raw_reply self ∷ [], none)

abbrev changes : List (Change text_protobuf Bytes)
changes =
    unbinds (codes "sum")
    ∷ binds_raw_member (codes "name") told (codes "me")
    ∷ binds (codes "sum") echo_raw
    ∷ []

abbrev response_7 : Response
response_7 = record { connect = 3; call_id = 7 }

last_binding_decides_example :
    let r = after text_protobuf Bytes changes in
    let req = raw_request text_protobuf (codes "?") (codes "a#b") in
    (Router.route text_protobuf (codes "name") req response_7 r ≡ none)
    × (Router.route_raw text_protobuf (codes "name") req response_7 r
        ≡ some (invoke text_protobuf (told (codes "me")) req response_7))
    × (is_bind text_protobuf (codes "name") r ≡ false)
    × (is_bind_raw text_protobuf (codes "name") r ≡ true)
unfolding Bytes-discrete
last_binding_decides_example =
    last_binding_decides text_protobuf Bytes (codes "name") changes
      (raw_request text_protobuf (codes "?") (codes "a#b")) response_7

echo_request-IsSendableButBody : IsSendableButBody echo_request
echo_request-IsSendableButBody = record {
  call_id = omega arith;
  mode = omega arith;
  type = omega arith;
  protocol = omega arith;
  message_name = omega arith;
}

read_request_wraps_example :
    (read_request (request_buffer echo_request ++ codes "more")
      ≡ some (cut echo_request, codes "more"))
    × (length (cut echo_request).body ≡ 5)
read_request_wraps_example =
    read_request_wraps echo_request (codes "more") echo_request-IsSendableButBody
