-- ===== src/Server/Work/Reorder.antt =====
-- A server with two work threads.
use czrpc.Prelude.{ℕ, Bytes, true, false, List, [], ◌∷◌, ◌≡◌, refl, ap, arith, ◌∙◌}
use czrpc.Base.ClientType
use czrpc.Base.SerializeMode
use czrpc.Base.Protocol.{RequestContent, subscribe_topic_flag, cancel_subscribe_topic_flag}
use czrpc.Base.Protobuf.{Protobuf}
use czrpc.Base.Queue
use czrpc.Base.ThreadPool as ThreadPool
use czrpc.Base.ThreadPool.{Pool, Action, adds, pushes, works, enter, advance, remove_at}
use czrpc.Server.Router.{Router}
use czrpc.Server.TopicManager.{Topics, has_topic}
use czrpc.Server.Dispatch.{Connections, router_thread}
use czrpc.Server.Dispatch.Publish.{request-has_topic}
use czrpc.Server.Work.{Task, started, ended, serve, serve_ended, step, run, serve_all}

-- The request of a subscriber about a topic.
abbrev pub about : Bytes → Bytes → RequestContent
about topic body = record {
  call_id = 0;
  flag = record { mode = SerializeMode.serialize; type = ClientType.sub_client };
  protocol = topic;
  message_name = [];
  body = body;
}

module _ (pb : Protobuf) (conns : Connections) (r : Router pb) (conn : ℕ) (topic : Bytes) where
  abbrev pub subscribes : Task
  subscribes = (about topic subscribe_topic_flag, conn)

  abbrev pub cancels : Task
  cancels = (about topic cancel_subscribe_topic_flag, conn)

  -- The two requests are queued in order. Each thread takes one, and the second one ends first.
  abbrev pub overtaking : List (Action Task)
  overtaking =
      adds subscribes
      ∷ pushes 0
      ∷ adds cancels
      ∷ pushes 0
      ∷ works 0
      ∷ works 1
      ∷ works 1
      ∷ works 0
      ∷ []

  abbrev in_turn : Task → Topics → Topics
  in_turn t topics = (router_thread pb conns t.0 t.1 r topics).0

  overtaken :
      (topics : Topics)
      → (run pb conns r overtaking (started 2 topics)).topics
        ≡ in_turn subscribes (in_turn cancels topics)
  unfolding run step serve serve_ended ended ThreadPool.step ThreadPool.add_task
      ThreadPool.push_task ThreadPool.run_task ThreadPool.init_thread_num advance enter remove_at
      Queue.front Queue.pop_front Queue.emplace_back
  overtaken topics = refl

  queued :
      (topics : Topics)
      → (run pb conns r overtaking (started 2 topics)).threadpool.pushed ≡ subscribes ∷ cancels ∷ []
  unfolding run step serve serve_ended ended ThreadPool.step ThreadPool.add_task
      ThreadPool.push_task ThreadPool.run_task ThreadPool.init_thread_num advance enter remove_at
      Queue.front Queue.pop_front Queue.emplace_back
  queued topics = refl

  both_handled :
      (topics : Topics)
      → (run pb conns r overtaking (started 2 topics)).finished ≡ cancels ∷ subscribes ∷ []
  unfolding run step serve serve_ended ended ThreadPool.step ThreadPool.add_task
      ThreadPool.push_task ThreadPool.run_task ThreadPool.init_thread_num advance enter remove_at
      Queue.front Queue.pop_front Queue.emplace_back
  both_handled topics = refl

  -- With two work threads the requests of one connection may overtake one another. Under the schedule
  -- `overtaking`, which queues the request of a live connection for a topic and then the one that cancels
  -- it, both requests are handled, the second one first; then the connection has the topic, and would
  -- not have it if they were handled in the order of the queue.
  pub two_workers_reorder :
      (topics : Topics)
      → conns.alive conn ≡ true
      → let s = run pb conns r overtaking (started 2 topics) in
        (s.threadpool.pushed ≡ subscribes ∷ cancels ∷ [])
        × (s.finished ≡ cancels ∷ subscribes ∷ [])
        × (has_topic conns.alive topic conn s.topics ≡ true)
        × (has_topic conns.alive topic conn (serve_all pb conns r s.threadpool.pushed topics).0
            ≡ false)
  unfolding serve_all
  two_workers_reorder topics live = (
    queued topics,
    both_handled topics,
    ap (has_topic conns.alive topic conn) (overtaken topics)
        ∙ ground (
          arith,
          request-has_topic pb conns r subscribes.0 conn topic conn (in_turn cancels topics) live,
        ),
    ap (λ ts. has_topic conns.alive topic conn (serve_all pb conns r ts topics).0) (queued topics)
        ∙ ground (
          arith,
          request-has_topic pb conns r cancels.0 conn topic conn (in_turn subscribes topics) live,
        ),
  )
