-- ===== src/System/AsyncCalls/Answered.antt =====
-- Asynchronous calls from the client through the send queues, the streams, the server's pool with one
-- work thread and the read loop to the tasks of their results.
use czrpc.Prelude.{
  ℕ, ◌+◌, ◌<◌, Bytes, Bool, true, List, [], ◌∷◌, ◌++◌, map, length, take, drop, concat, ok, All,
  ◌≡◌, ap, ◌∙◌,
}
use czrpc.Base.Protobuf.{Protobuf}
use czrpc.Base.Protocol.{response_header_len}
use czrpc.Base.ThreadPool.{Action}
use czrpc.Wire.Word.{u32_mod}
use czrpc.Wire.Response.{response_buffer}
use czrpc.Server.RpcMessage.{Output, send}
use czrpc.Server.Router.{Router}
use czrpc.Server.TopicManager.{Topics}
use czrpc.Server.Dispatch.{Connections}
use czrpc.Server.Connection.{Connection, head, receive}
use czrpc.Server.Connection.Delivery.{rounds_of}
use czrpc.Server.SendQueue as ServerQueue
use czrpc.Server.Work.{Task, started, run}
use czrpc.Client.SendQueue as ClientQueue
use czrpc.Client.SendQueue.Order as ClientOrder
use czrpc.Client.AsyncRpcClient.{AsyncRpcClient, dispatch}
use czrpc.Client.AsyncRpcClient.Responses.{response_size, response_made}
use czrpc.Client.ReadLoop as ReadLoop
use czrpc.Client.ReadLoop.{ReadLoop, received}
use czrpc.Client.ReadLoop.Frames as Frames
use czrpc.System.Delivery.{posted, NoFails}
use czrpc.System.AsyncCalls.{Call, make_calls, numbered, request_of, IsCounting, AreWaiting}
use czrpc.System.AsyncCalls.Routed.{answer_of, route_all}
use czrpc.System.AsyncCalls.Frames.{requests_of, tasks_of}
use czrpc.System.AsyncCalls.Stages.{
  requests_sent, requests_read, handled, responses_of, answers_delivered, answers_routed,
}
use czrpc.System.AsyncCalls.Served.{responses_to, responses_to-send, CanAnswer}

module _ (pb : Protobuf) (r : Router pb) (session_id : Bytes) (out : Bytes → Bytes → Bytes)
    (conns : Connections) (conn : ℕ) (session : conns.session_id conn ≡ ok session_id)
    (calls : List Call) (c : AsyncRpcClient) (small : c.call_id + length calls < u32_mod)
    (answered : All (CanAnswer pb r session_id out) calls) where
  -- An asynchronous client makes any calls with raw data, on a connection that has a session id, to a
  -- server with one work thread that has bound, for each call, a handler whose one response is not empty;
  -- the ids of the calls stay below 2 ^ 32, no call waits under an id that has not been given, and the
  -- texts have lengths that are 32-bit words. The client posts what the calls write; the connection, open
  -- and waiting for a request, reads what the client has written whole and puts it into the pool's queue;
  -- the pool runs under any schedule; the connection posts the responses; no write fails; and the client
  -- waits for a response. Then however far each of these has come, the client hands on exactly the
  -- responses that have been written whole, which are the answers to the first calls, and waits for the
  -- next; each of these calls' tasks is given to the client's thread pool once, in order, with the answer
  -- of its own call; and all other calls go on waiting.
  pub calls_answered :
      (is_resend : Bool) (ces : List ClientQueue.Event) (more rest : Bytes) (n : Connection)
      (schedule : List (Action Task)) (topics : Topics) (ses : List ServerQueue.Event)
      (loop : ReadLoop)
      → IsCounting c
      → ClientOrder.NoFails ces
      → ClientOrder.posted ces ≡ requests_of (make_calls calls c).1
      → n.pending ≡ head ∷ []
      → n.socket.is_open ≡ true
      → let cq = ClientQueue.run ces (ClientQueue.no_writes is_resend) in
        let requests = map request_of (numbered c.call_id (take (length cq.sent) calls)) in
        let s = run pb conns r schedule (started 1 topics) in
        s.threadpool.pushed
          ≡ tasks_of conn (receive (rounds_of requests) (concat cq.sent ++ more) n).1
        → NoFails ses
        → posted ses ≡ responses_to conn s.outputs
        → Frames.IsReading response_size response_made response_header_len loop
        → let sq = ServerQueue.run ses ServerQueue.no_writes in
          let m = length sq.sent in
          let answered_calls = numbered c.call_id (take m calls) in
          let contents = map (answer_of out) answered_calls in
          let (end, outputs) = route_all out contents (make_calls calls c).0 in
          ((after : ReadLoop) × (ReadLoop.receive response_size response_made response_header_len
                (Frames.rounds_of response_size response_made response_header_len contents)
                (concat sq.sent ++ rest)
                loop
              ≡ (rest, (after, map received contents)))
            × Frames.IsReading response_size response_made response_header_len after)
          × (outputs ≡ map (λ x. dispatch x.1.task (answer_of out x)) answered_calls)
          × AreWaiting end (numbered (c.call_id + m) (drop m calls))
  unfolding responses_of
  calls_answered is_resend ces more rest n schedule topics ses loop counting cn cp np opened pushed
        sn sp reading =
      let cq = ClientQueue.run ces (ClientQueue.no_writes is_resend) in
      let s = run pb conns r schedule (started 1 topics) in
      let k = length cq.sent in
      let j = length s.finished in
      let read =
        requests_read pb r session_id out conns conn session calls c small answered k cq.sent more n
          np opened
          (requests_sent pb r session_id out conns conn session calls c small answered is_resend ces
            cn cp) in
      let outputs : s.outputs
          ≡ map (send conn) (map (answer_of out) (numbered c.call_id (take j calls))) =
        ap (λ (o : Topics × List Output). o.1)
          (handled pb r session_id out conns conn session calls c small answered schedule topics k
            (pushed ∙ ap (tasks_of conn) read)) in
      let written : posted ses
          ≡ map response_buffer (map (answer_of out) (numbered c.call_id (take j calls))) =
        sp
        ∙ ap (responses_to conn) outputs
        ∙ responses_to-send conn (map (answer_of out) (numbered c.call_id (take j calls))) in
      let (outputs_routed, waiting) =
        answers_routed pb r session_id out conns conn session calls c small answered
          (length (ServerQueue.run ses ServerQueue.no_writes).sent) counting in
      (
        answers_delivered pb r session_id out conns conn session calls c small answered ses rest
            loop j sn written reading,
        outputs_routed,
        waiting,
      )
