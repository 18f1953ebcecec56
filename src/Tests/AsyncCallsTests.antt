-- ===== src/Tests/AsyncCallsTests.antt =====
-- Two asynchronous calls at concrete inputs, the second of which waits for its answer.
use czrpc.Prelude.{
  Bytes, Bytes-discrete, codes, false, List, [], ◌∷◌, ◌++◌, map, concat, length, ◌≡◌, refl, ap, sym,
  ◌∙◌, take, arith,
}
use czrpc.Base.Map
use czrpc.Base.ThreadPool as ThreadPool
use czrpc.Base.ThreadPool.{Action, adds, pushes, works}
use czrpc.Base.Queue as Queue
use czrpc.Base.Protocol.{RequestContent, ResponseContent, response_header_len}
use czrpc.Wire.Request.{request_buffer}
use czrpc.Wire.Response.{response_buffer}
use czrpc.Server.RpcMessage.{raw_request}
use czrpc.Server.Connection.{Connection, head, route, receive}
use czrpc.Server.Connection.Delivery.{rounds_of}
use czrpc.Server.RpcMessage.{Output}
use czrpc.Server.TopicManager.{Topics}
use czrpc.Server.SendQueue as ServerQueue
use czrpc.Server.Work.{Task, started, run, step, serve, serve_ended, ended}
use czrpc.Client.SendQueue as ClientQueue
use czrpc.Client.SendQueue.Order as ClientOrder
use czrpc.Client.AsyncRpcClient as AsyncRpcClient
use czrpc.Client.AsyncRpcClient.{
  AsyncRpcClient, new_client, dispatch, find_task, async_call_raw, next_call_id, result,
}
use czrpc.Client.AsyncRpcClient.Responses.{response_size, response_made}
use czrpc.Client.ReadLoop as ReadLoop
use czrpc.Client.ReadLoop.{ReadLoop, reading, received}
use czrpc.Client.ReadLoop.Frames as Frames
use czrpc.System.AsyncCalls.{Call, make_calls, numbered, request_of, IsCounting, AreWaiting}
use czrpc.System.AsyncCalls.Routed.{answer_of, route_all}
use czrpc.System.AsyncCalls.Served.{CanAnswer, responses_to}
use czrpc.System.AsyncCalls.Answered.{calls_answered}
use czrpc.System.AsyncCalls.Frames.{requests_of, tasks_of}
use czrpc.System.AsyncCalls.Stages.{requests_read, handled, responses_of}
use czrpc.System.Delivery.{posted}
use czrpc.Tests.Sample.{new_connection, text_protobuf, two_connections, echo_raw, echo_router}

abbrev echoed : Bytes → Bytes → Bytes
echoed func_name body = body

abbrev first_call : Call
first_call = record { func_name = codes "echo"; body = codes "hello"; task = 5; now = 0 }

abbrev second_call : Call
second_call = record { func_name = codes "echo"; body = codes "again"; task = 6; now = 1 }

abbrev calls : List Call
calls = first_call ∷ second_call ∷ []

first-CanAnswer : CanAnswer text_protobuf echo_router (codes "a#b") echoed first_call
unfolding Map.find Bytes-discrete raw_request
first-CanAnswer = record {
  func = echo_raw;
  bound = refl;
  replies = refl;
  some_out = λ e. cc;
  name_fits = omega arith;
  body_fits = omega arith;
  out_fits = omega arith;
}

second-CanAnswer : CanAnswer text_protobuf echo_router (codes "a#b") echoed second_call
unfolding Map.find Bytes-discrete raw_request
second-CanAnswer = record {
  func = echo_raw;
  bound = refl;
  replies = refl;
  some_out = λ e. cc;
  name_fits = omega arith;
  body_fits = omega arith;
  out_fits = omega arith;
}

new-IsCounting : IsCounting (new_client 10)
unfolding find_task Map.find
new-IsCounting j later = refl

abbrev first_request : Task
first_request = (request_of (1, first_call), 3)

abbrev second_request : Task
second_request = (request_of (2, second_call), 3)

abbrev client_events : List ClientQueue.Event
client_events =
    ClientQueue.posts (request_buffer first_request.0)
    ∷ ClientQueue.posts (request_buffer second_request.0)
    ∷ ClientQueue.written
    ∷ ClientQueue.written
    ∷ []

abbrev schedule : List (Action Task)
schedule =
    adds first_request
    ∷ pushes 0
    ∷ adds second_request
    ∷ pushes 0
    ∷ works 0
    ∷ works 0
    ∷ works 0
    ∷ works 0
    ∷ []

abbrev first_answer : ResponseContent
first_answer = answer_of echoed (1, first_call)

-- The response to the second call has not been written whole.
abbrev server_events : List ServerQueue.Event
server_events =
    ServerQueue.posts (response_buffer first_answer)
    ∷ ServerQueue.posts (response_buffer (answer_of echoed (2, second_call)))
    ∷ ServerQueue.written
    ∷ []

abbrev made : AsyncRpcClient
made = (make_calls calls (new_client 10)).0

abbrev connection : Connection
connection = record new_connection { pending = head ∷ [] }

posted_calls : ClientOrder.posted client_events ≡ requests_of (make_calls calls (new_client 10)).1
unfolding AsyncRpcClient.run AsyncRpcClient.step AsyncRpcClient.call async_call_raw next_call_id
    result
posted_calls = refl

-- The client has written both frames whole.
all_sent :
    (ClientQueue.run client_events (ClientQueue.no_writes false)).sent
    ≡ request_buffer first_request.0 ∷ request_buffer second_request.0 ∷ []
unfolding ClientQueue.run ClientQueue.step ClientQueue.enqueue ClientQueue.start_write
    ClientQueue.on_written Queue.front Queue.pop_front Queue.emplace_back Queue.empty
all_sent = refl

pushed_both :
    (run text_protobuf two_connections echo_router schedule (started 1 [])).threadpool.pushed
    ≡ first_request ∷ second_request ∷ []
unfolding run step serve serve_ended ended ThreadPool.step ThreadPool.add_task ThreadPool.push_task
    ThreadPool.run_task ThreadPool.init_thread_num ThreadPool.advance ThreadPool.enter
    ThreadPool.remove_at Queue.front Queue.pop_front Queue.emplace_back
pushed_both = refl

abbrev requests : List RequestContent
requests = first_request.0 ∷ second_request.0 ∷ []

read_both :
    (receive (rounds_of requests) (concat (map request_buffer requests) ++ []) connection).1
    ≡ map route requests
read_both =
    requests_read text_protobuf echo_router (codes "a#b") echoed two_connections 3 refl calls
      (new_client 10) (omega arith) (first-CanAnswer, (second-CanAnswer, tt)) 2
      (map request_buffer requests) [] connection refl refl refl

queued :
    let sent = (ClientQueue.run client_events (ClientQueue.no_writes false)).sent in
    (run text_protobuf two_connections echo_router schedule (started 1 [])).threadpool.pushed
    ≡ tasks_of 3
        (receive
          (rounds_of (map request_of (numbered 0 (take (length sent) calls))))
          (concat sent ++ [])
          connection).1
queued =
    pushed_both
    ∙ sym (ap (tasks_of 3) read_both)
    ∙ sym (
        ap
          (λ bs.
            tasks_of 3
              (receive (rounds_of (map request_of (numbered 0 (take (length bs) calls))))
                (concat bs ++ []) connection).1)
          all_sent)

finished_both :
    length (run text_protobuf two_connections echo_router schedule (started 1 [])).finished ≡ 2
unfolding run step serve serve_ended ended ThreadPool.step ThreadPool.add_task ThreadPool.push_task
    ThreadPool.run_task ThreadPool.init_thread_num ThreadPool.advance ThreadPool.enter
    ThreadPool.remove_at Queue.front Queue.pop_front Queue.emplace_back
finished_both = refl

responded :
    posted server_events
    ≡ responses_to 3 (run text_protobuf two_connections echo_router schedule (started 1 [])).outputs
unfolding responses_of
responded = sym (
    ap (λ (o : Topics × List Output). responses_to 3 o.1)
      (handled text_protobuf echo_router (codes "a#b") echoed two_connections 3 refl calls
          (new_client 10) (omega arith) (first-CanAnswer, (second-CanAnswer, tt)) schedule [] 2
          pushed_both
        ∙ ap
            (responses_of text_protobuf echo_router (codes "a#b") echoed two_connections 3 refl
              calls (new_client 10) (omega arith) (first-CanAnswer, (second-CanAnswer, tt)) [])
            finished_both))

calls_answered_example :
    let sent = (ServerQueue.run server_events ServerQueue.no_writes).sent in
    let (end, outputs) = route_all echoed (first_answer ∷ []) made in
    ((after : ReadLoop) × (ReadLoop.receive response_size response_made response_header_len 2
          (concat sent ++ codes "rest")
          reading
        ≡ (codes "rest", (after, received first_answer ∷ [])))
      × Frames.IsReading response_size response_made response_header_len after)
    × (outputs ≡ dispatch 5 first_answer ∷ [])
    × AreWaiting end ((2, second_call) ∷ [])
unfolding ServerQueue.run ClientQueue.run
calls_answered_example =
    calls_answered text_protobuf echo_router (codes "a#b") echoed two_connections 3 refl calls
      (new_client 10) (omega arith) (first-CanAnswer, (second-CanAnswer, tt)) false client_events []
      (codes "rest") connection schedule [] server_events reading new-IsCounting tt posted_calls
      refl refl queued tt responded (record { going = refl; opened = refl; waits = refl })
