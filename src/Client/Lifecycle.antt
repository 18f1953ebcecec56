-- ===== src/Client/Lifecycle.antt =====
-- `run` and `stop` of the clients that read asynchronously, czrpc/client/async_rpc_client.hpp and
-- czrpc/client/sub_client.hpp, over those of czrpc/client/client_base.hpp: the threads, the timer and
-- the first read.
pub mod Final
use czrpc.Prelude.{
  ℕ, ◌+◌, Bool, true, false, not, ◌&&◌, List, [], ◌∷◌, ◌++◌, Option, none, some, if◌then◌else◌,
  Result, ok, throw,
}
use czrpc.Base.Protocol.{RequestContent}
use czrpc.Base.Timer as Timer
use czrpc.Base.Timer.{Timer, new_timer}
use czrpc.Base.ThreadPool as ThreadPool
use czrpc.Base.ThreadPool.{Pool}
use czrpc.Client.ClientBase as ClientBase
use czrpc.Client.ClientBase.{ClientBase, Attempt, new_client_base, try_connect}
use czrpc.Client.AsyncRpcClient as AsyncRpcClient
use czrpc.Client.AsyncRpcClient.{AsyncRpcClient}
use czrpc.Client.ReadLoop.{Operation, head}
use czrpc.Client.SubRouter.{SubRouter}
use czrpc.Client.SubClient.{retry_subscribe}

-- `ios_` and `thread_` of `client_base`, which calls its handlers.
pub record Ios : Type 0 where
  pub stopped : Bool
  pub has_thread : Bool
  pub joined : Bool

abbrev pub new_ios : Ios
new_ios = record { stopped = false; has_thread = false; joined = false }

unfoldable pub start_ios_thread : Ios → Ios
start_ios_thread i = if i.has_thread then i else record i { has_thread = true }

-- A thread that is joinable is joined. It is never made anew.
unfoldable pub stop_ios_thread : Ios → Ios
stop_ios_thread i = record i { stopped = true; joined = i.has_thread }

-- Whether handlers are called.
abbrev pub is_served : Ios → Bool
is_served i = i.has_thread && not i.joined && not i.stopped

-- The members that both clients have. A task of the pool is of any type.
pub record Threads (A : Type 0) : Type 0 where
  pub base : ClientBase
  pub ios : Ios
  pub threadpool : Pool A
  pub pending : List Operation
  -- how often `connect_success_notify_` has been called
  pub notified : ℕ

abbrev pub new_threads : {A : Type 0} → Threads A
new_threads = record {
  base = new_client_base;
  ios = new_ios;
  threadpool = ThreadPool.init;
  pending = [];
  notified = 0;
}

module _ {A : Type 0} where
  -- `client_base::run`
  unfoldable pub base_run : Threads A → Threads A
  unfolding start_ios_thread
  base_run c = record c { ios = start_ios_thread c.ios }

  -- `client_base::stop`
  unfoldable pub base_stop : Threads A → Threads A
  unfolding stop_ios_thread
  base_stop c = record c { base = ClientBase.stop c.base; ios = stop_ios_thread c.ios }

  -- `threadpool_.stop()`, behind which all of its threads have been joined.
  unfoldable pub stop_pool : Threads A → Threads A
  stop_pool c = elim (ThreadPool.stop c.threadpool) [
    | none ↦ c
    | some p ↦ record c { threadpool = p }
  ]

  -- `async_read_head` and the notification, which are the last of both `start`s.
  unfoldable pub begin_reading : Threads A → Threads A
  begin_reading c = record c { pending = c.pending ++ head ∷ []; notified = c.notified + 1 }

-- `async_rpc_client`; a task of its pool is a task of a call with what it is called with.
pub record Async (A : Type 0) : Type 0 where
  pub threads : Threads A
  pub calls : AsyncRpcClient
  pub timer : Timer

module _ {A : Type 0} where
  abbrev pub new_async : ℕ → Async A
  new_async request_timeout = record {
    threads = new_threads;
    calls = AsyncRpcClient.new_client request_timeout;
    timer = new_timer;
  }

  -- The function 0 is `check_request_timeout`.
  unfoldable pub start_timer : Async A → Async A
  start_timer c = record c { timer = Timer.start 1 (Timer.bind 0 c.timer) }

  unfoldable pub async_start : Async A → Async A
  unfolding begin_reading
  async_start c = record c {
    calls = AsyncRpcClient.start c.calls;
    threads = begin_reading c.threads;
  }

  -- What `sync_connect` does when `try_connect` has returned or thrown.
  async_connected : Async A → ClientBase × Result Bool → Async A × Result (Unit {0})
  unfolding async_start
  async_connected c (base, throw e) =
      (record c { threads = record c.threads { base = base } }, throw e)
  async_connected c (base, ok connected) =
      let c' : Async A = record c { threads = record c.threads { base = base } } in
      (if connected then async_start c' else c', ok tt)

  unfoldable pub async_sync_connect :
      ℕ → List Attempt → Async A → Option (Async A × Result (Unit {0}))
  unfolding async_connected
  async_sync_connect begin_time attempts c = elim (try_connect begin_time attempts c.threads.base) [
    | none ↦ none
    | some r ↦ some (async_connected c r)
  ]

  -- `none`: the loop of `connect` goes on.
  unfoldable pub async_run : ℕ → List Attempt → Async A → Option (Async A × Result (Unit {0}))
  unfolding base_run start_timer async_sync_connect
  async_run begin_time attempts c =
      let pool = ThreadPool.init_thread_num 1 c.threads.threadpool in
      let threads = base_run (record c.threads { threadpool = pool }) in
      async_sync_connect begin_time attempts (start_timer (record c { threads = threads }))

  unfoldable pub async_stop : Async A → Async A
  unfolding base_stop stop_pool
  async_stop c = record c {
    timer = Timer.destroy c.timer;
    threads = stop_pool (base_stop c.threads);
  }

  -- `sub_client`: what is written, beside the threads.
  unfoldable pub sub_start : SubRouter → Threads A → Threads A × List RequestContent
  unfolding begin_reading
  sub_start router c = (begin_reading c, retry_subscribe router)

  sub_connected :
      SubRouter
      → Threads A
      → ClientBase × Result Bool
      → (Threads A × List RequestContent) × Result (Unit {0})
  unfolding sub_start
  sub_connected router c (base, throw e) = ((record c { base = base }, []), throw e)
  sub_connected router c (base, ok connected) =
      let c' : Threads A = record c { base = base } in
      (if connected then sub_start router c' else (c', []), ok tt)

  unfoldable pub sub_sync_connect :
      ℕ
      → List Attempt
      → SubRouter
      → Threads A
      → Option ((Threads A × List RequestContent) × Result (Unit {0}))
  unfolding sub_connected
  sub_sync_connect begin_time attempts router c = elim (try_connect begin_time attempts c.base) [
    | none ↦ none
    | some r ↦ some (sub_connected router c r)
  ]

  unfoldable pub sub_run :
      ℕ
      → List Attempt
      → SubRouter
      → Threads A
      → Option ((Threads A × List RequestContent) × Result (Unit {0}))
  unfolding base_run sub_sync_connect
  sub_run begin_time attempts router c =
      sub_sync_connect begin_time attempts router
        (base_run (record c { threadpool = ThreadPool.init_thread_num 1 c.threadpool }))

  unfoldable pub sub_stop : Threads A → Threads A
  unfolding base_stop stop_pool
  sub_stop c = stop_pool (base_stop c)
