-- ===== src/Server/Work.antt =====
-- The server at work: `route` of czrpc/server/server.hpp gives each request to the thread pool, whose
-- threads run `router_thread`. The state is that of the pool, of the singletons and of what has gone
-- out. The router is not changed while the server works.
pub mod InOrder
pub mod Reorder
pub mod PerConnection
use czrpc.Prelude.{
  ℕ, Bool, true, false, List, [], ◌∷◌, ◌++◌, Option, none, some, get_elem?, Result, ok, throw,
}
use czrpc.Base.Protocol.{RequestContent}
use czrpc.Base.Protobuf.{Protobuf}
use czrpc.Base.ThreadPool as ThreadPool
use czrpc.Base.ThreadPool.{Pool, Worker, running, Action, adds, works}
use czrpc.Server.RpcMessage.{Output}
use czrpc.Server.Router.{Router}
use czrpc.Server.TopicManager.{Topics}
use czrpc.Server.Dispatch.{Connections, router_thread}

-- `&server::router_thread` with the request and the connection that are bound to it.
abbrev pub Task : Type 0
Task = RequestContent × ℕ

pub record Work : Type 0 where
  pub threadpool : Pool Task
  pub topics : Topics
  -- the tasks that have been run, in the order of their ends
  pub finished : List Task
  pub outputs : List Output

-- A server when it has started, with `num` work threads.
abbrev pub started : ℕ → Topics → Work
started num topics = record {
  threadpool = ThreadPool.init_thread_num num ThreadPool.init;
  topics = topics;
  finished = [];
  outputs = [];
}

-- The task that the action ends.
abbrev pub task_at : Option (Worker Task) → Option Task
task_at (some (running t)) = some t
task_at w = none

unfoldable pub ended : Action Task → Pool Task → Option Task
ended (works i) p = task_at (get_elem? p.thread_vec i)
ended a p = none

module _ (pb : Protobuf) (conns : Connections) (r : Router pb) where
  -- `router_thread` runs between the two steps of its thread, and is taken to do so at the second one.
  unfoldable pub serve : Task → Work → Work
  serve (content, conn) s =
      let (topics, outputs) = router_thread pb conns content conn r s.topics in
      record s {
        topics = topics;
        finished = s.finished ++ (content, conn) ∷ [];
        outputs = s.outputs ++ outputs;
      }

  unfoldable pub serve_ended : Option Task → Work → Work
  serve_ended none s = s
  serve_ended (some t) s = serve t s

  -- `route`, which throws when the pool has been stopped: the call of `add_task`.
  unfoldable pub route : RequestContent → ℕ → Work → Result Work
  route content conn s = elim (ThreadPool.add_task (content, conn) s.threadpool) [
    | ok p ↦ ok (record s { threadpool = p })
    | throw e ↦ throw e
  ]

  unfoldable pub step : Action Task → Work → Work
  unfolding serve_ended
  step a s = elim (ThreadPool.step a s.threadpool) [
    | none ↦ s
    | some p ↦ record (serve_ended (ended a s.threadpool) s) { threadpool = p }
  ]

  unfoldable pub run : List (Action Task) → Work → Work
  run [] s = s
  run (a ∷ as') s = run as' (step a s)

  -- The tasks one after the other, without a pool.
  unfoldable pub serve_all : List Task → Topics → Topics × List Output
  serve_all [] topics = (topics, [])
  serve_all ((content, conn) ∷ ts) topics =
      let (topics', outputs) = router_thread pb conns content conn r topics in
      let (end, later) = serve_all ts topics' in (end, outputs ++ later)
