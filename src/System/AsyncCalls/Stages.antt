-- ===== src/System/AsyncCalls/Stages.antt =====
-- The stages that asynchronous calls go through: the send queue of the client, the reads of the
-- server's connection, its pool with one work thread, the send queue of the connection, the read loop of
-- the client, and `route`.
use czrpc.Prelude.{
  ℕ, ◌+◌, ◌<◌, ◌≤◌, Bytes, Bool, true, List, [], ◌∷◌, ◌++◌, map, length, length-append, length-map,
  take_shorter, take, drop, concat, take-map, All-take, ok, All, ◌≡◌, refl, ap, sym, ◌∙◌, arith,
}
use mathlib.Core.Path.{subst}
use czrpc.Base.Protobuf.{Protobuf}
use czrpc.Base.Protocol.{ResponseContent, response_header_len}
use czrpc.Base.Queue as Queue
use czrpc.Base.ThreadPool.{Action}
use czrpc.Wire.Word.{u32_mod}
use czrpc.Wire.Request.{request_buffer}
use czrpc.Wire.Response.{response_buffer}
use czrpc.Wire.Response.RoundTrip as ResponseTrip
use czrpc.Server.RpcMessage.{Output, send}
use czrpc.Server.Router.{Router}
use czrpc.Server.TopicManager.{Topics}
use czrpc.Server.Dispatch.{Connections}
use czrpc.Server.Connection.{Connection, head, Effect, route, receive}
use czrpc.Server.Connection.Delivery.{rounds_of, receive-stream_of}
use czrpc.Server.SendQueue as ServerQueue
use czrpc.Server.Work.{Task, started, run, serve_all}
use czrpc.Server.Work.InOrder.{current, one_worker_in_order}
use czrpc.Client.SendQueue as ClientQueue
use czrpc.Client.SendQueue.Order as ClientOrder
use czrpc.Client.AsyncRpcClient.{AsyncRpcClient, dispatch}
use czrpc.Client.AsyncRpcClient.Responses.{response_size, response_made}
use czrpc.Client.ReadLoop as ReadLoop
use czrpc.Client.ReadLoop.{ReadLoop, received}
use czrpc.Client.ReadLoop.Frames as Frames
use czrpc.System.Delivery.{posted, NoFails, frames_delivered, sent_or_waiting}
use czrpc.System.AsyncCalls.{
  Call, make_calls, numbered, request_of, IsCounting, AreWaiting, calls_write, calls_wait,
}
use czrpc.System.AsyncCalls.Routed.{
  numbered-take, answer_of, route_all, all_routed, AreWaiting-take, AreWaiting-drop,
}
use czrpc.System.AsyncCalls.Served.{
  CanAnswer, requests-IsSendable, answers-IsSendable, task_on, calls_served,
}
use czrpc.System.AsyncCalls.Frames.{
  requests_of, tasks_of, requests_of-write, tasks_of-route, stream_of-concat, length-numbered,
  numbered-prefix, small_take, response_read,
}

module _ (pb : Protobuf) (r : Router pb) (session_id : Bytes) (out : Bytes → Bytes → Bytes)
    (conns : Connections) (conn : ℕ) (session : conns.session_id conn ≡ ok session_id)
    (calls : List Call) (c : AsyncRpcClient) (small : c.call_id + length calls < u32_mod)
    (answered : All (CanAnswer pb r session_id out) calls) where
  -- The first calls, under their ids.
  abbrev pub first : ℕ → List (ℕ × Call)
  first n = numbered c.call_id (take n calls)

  abbrev pub client_queue : Bool → List ClientQueue.Event → ClientQueue.SendQueue
  client_queue is_resend ces = ClientQueue.run ces (ClientQueue.no_writes is_resend)

  pub requests_sent :
      (is_resend : Bool) (ces : List ClientQueue.Event)
      → ClientOrder.NoFails ces
      → ClientOrder.posted ces ≡ requests_of (make_calls calls c).1
      → let sent = (client_queue is_resend ces).sent in
        sent ≡ map (λ x. request_buffer (request_of x)) (first (length sent))
  unfolding Queue.front
  requests_sent is_resend ces n p =
      let q = client_queue is_resend ces in
      let all : q.sent ++ q.send_queue
          ≡ map (λ x. request_buffer (request_of x)) (numbered c.call_id calls) =
        ClientOrder.run-posted ces (ClientQueue.no_writes is_resend) n refl
        ∙ p
        ∙ ap requests_of (calls_write calls c small)
        ∙ requests_of-write (numbered c.call_id calls) in
      (numbered-prefix (λ x. request_buffer (request_of x)) c.call_id calls q.sent q.send_queue
        all).0

  pub requests_read :
      (k : ℕ) (sent : List Bytes) (rest : Bytes) (n : Connection)
      → n.pending ≡ head ∷ []
      → n.socket.is_open ≡ true
      → sent ≡ map (λ x. request_buffer (request_of x)) (first k)
      → (receive (rounds_of (map request_of (first k))) (concat sent ++ rest) n).1
        ≡ map route (map request_of (first k))
  requests_read k sent rest n p o e =
      let requests = map request_of (first k) in
      ap (λ bs. (receive (rounds_of requests) (concat bs ++ rest) n).1) e
      ∙ ap (λ b. (receive (rounds_of requests) b n).1) (stream_of-concat (first k) rest)
      ∙ ap (λ (end : (Bytes × Connection) × List Effect). end.1)
          (receive-stream_of requests rest n
            (requests-IsSendable pb r session_id out c.call_id (take k calls)
              (small_take k c.call_id calls small)
              (All-take (CanAnswer pb r session_id out) k calls answered))
            p o)

  unfoldable pub responses_of : (topics : Topics) (n : ℕ) → Topics × List Output
  responses_of topics n = (topics, map (send conn) (map (answer_of out) (first n)))

  pub handled :
      (schedule : List (Action Task)) (topics : Topics) (k : ℕ)
      → (run pb conns r schedule (started 1 topics)).threadpool.pushed
        ≡ tasks_of conn (map route (map request_of (first k)))
      → let s = run pb conns r schedule (started 1 topics) in
        let ended : Topics × List Output = (s.topics, s.outputs) in
        ended ≡ responses_of topics (length s.finished)
  unfolding responses_of
  handled schedule topics k e =
      let s = run pb conns r schedule (started 1 topics) in
      let j = length s.finished in
      let (serial, (w, alone, kept)) = one_worker_in_order pb conns r schedule topics in
      let all : s.finished ++ (current w ++ s.threadpool.task_queue)
          ≡ map (task_on pb r session_id out conns conn session) (first k) =
        sym kept ∙ e ∙ tasks_of-route conn (first k) in
      let (finished, fewer) =
        numbered-prefix (task_on pb r session_id out conns conn session) c.call_id (take k calls)
          s.finished _ all in
      let same = take_shorter j k calls fewer in
      serial
      ∙ ap (λ ts. serve_all pb conns r ts topics) finished
      ∙ ap
          (λ cs.
            serve_all pb conns r
              (map (task_on pb r session_id out conns conn session) (numbered c.call_id cs)) topics)
          same
      ∙ calls_served pb r session_id out conns conn session c.call_id (take j calls) topics
          (All-take (CanAnswer pb r session_id out) j calls answered)

  module _ (ses : List ServerQueue.Event) (rest : Bytes) (loop : ReadLoop) (j : ℕ)
      (whole : NoFails ses)
      (written : posted ses ≡ map response_buffer (map (answer_of out) (first j)))
      (reading : Frames.IsReading response_size response_made response_header_len loop) where
    abbrev pub server_queue : ServerQueue.SendQueue
    server_queue = ServerQueue.run ses ServerQueue.no_writes

    abbrev pub sent_count : ℕ
    sent_count = length server_queue.sent

    delivered_first :
        take sent_count (map (answer_of out) (first j)) ≡ map (answer_of out) (first sent_count)
    delivered_first =
        let fewer : sent_count ≤ length (take j calls) = omega (
          arith,
          length-append server_queue.sent server_queue.send_queue,
          ap length (sent_or_waiting ses whole ∙ written),
          length-map response_buffer (map (answer_of out) (first j)),
          length-map (answer_of out) (first j),
          length-numbered c.call_id (take j calls),
        ) in
        take-map (answer_of out) sent_count (first j)
        ∙ ap (map (answer_of out)) (numbered-take sent_count c.call_id (take j calls))
        ∙ ap (λ cs. map (answer_of out) (numbered c.call_id cs))
            (take_shorter sent_count j calls fewer)

    abbrev pub HandsOn : List ResponseContent → Type 0
    HandsOn contents =
        (end : ReadLoop) × (ReadLoop.receive response_size response_made response_header_len
            (Frames.rounds_of response_size response_made response_header_len contents)
            (concat server_queue.sent ++ rest) loop
          ≡ (rest, (end, map received contents)))
        × Frames.IsReading response_size response_made response_header_len end

    pub answers_delivered : HandsOn (map (answer_of out) (first sent_count))
    answers_delivered = subst HandsOn delivered_first (
        frames_delivered response_size response_made response_header_len response_buffer
          ResponseTrip.IsSendable response_read (map (answer_of out) (first j)) ses rest loop
          (answers-IsSendable pb r session_id out c.call_id (take j calls)
            (small_take j c.call_id calls small)
            (All-take (CanAnswer pb r session_id out) j calls answered))
          whole written reading)

  pub answers_routed :
      (m : ℕ)
      → IsCounting c
      → let (end, outputs) = route_all out (map (answer_of out) (first m)) (make_calls calls c).0 in
        (outputs ≡ map (λ x. dispatch x.1.task (answer_of out x)) (first m))
        × AreWaiting end (numbered (c.call_id + m) (drop m calls))
  answers_routed m counting =
      let made = (make_calls calls c).0 in
      let waiting = calls_wait calls c small counting in
      let (outputs, keeps) =
        all_routed out c.call_id (take m calls) made
          (AreWaiting-take m c.call_id calls made waiting) in
      (
        outputs,
        AreWaiting-drop m c.call_id (c.call_id + m) calls made
            (route_all out (map (answer_of out) (first m)) made).0 refl waiting keeps,
      )
