-- ===== src/Tests/LifecycleTests.antt =====
-- Running and stopping the clients at concrete inputs.
use czrpc.Prelude.{ℕ, true, false, List, [], ◌∷◌, some, ok, Option, Result, Bool, length, ◌≡◌, refl}
use czrpc.Base.Timer as Timer
use czrpc.Base.ThreadPool as ThreadPool
use czrpc.Base.Timer.Waits.{armed_count}
use czrpc.Client.ClientBase.{succeeds, try_connect, connect_loop}
use czrpc.Client.Lifecycle.{
  Async, new_async, async_run, async_stop, async_sync_connect, async_start, start_timer, base_run,
  begin_reading, start_ios_thread, is_served,
}
use czrpc.Client.Lifecycle.Final.{IsDeaf, stop_is_final}

abbrev client : Async ℕ
client = new_async 10

stop_is_final_example :
    (async_stop (async_stop client) ≡ async_stop client)
    × ((end : Async ℕ) × (async_run 0 (succeeds ∷ []) (async_stop client) ≡ some (end, ok tt))
        × (end.threads.notified ≡ 1)
        × (armed_count end.timer.waits ≡ 0)
        × IsDeaf 5 end.threads)
stop_is_final_example = stop_is_final 0 [] 5 client refl

abbrev seen : Option (Async ℕ × Result (Unit {0})) → List ℕ × Bool
seen (some (c, ok done)) = (
  c.threads.notified
      ∷ length c.threads.threadpool.thread_vec
      ∷ length c.threads.pending
      ∷ armed_count c.timer.waits
      ∷ [],
  is_served c.threads.ios,
)
seen o = ([], false)

-- A new client that is run is told of its connection, has one thread in its pool, reads, has its timer
-- armed, and is served.
client_runs : seen (async_run 0 (succeeds ∷ []) client) ≡ (1 ∷ 1 ∷ 1 ∷ 1 ∷ [], true)
unfolding async_run async_sync_connect async_start start_timer base_run begin_reading
    start_ios_thread ThreadPool.init_thread_num Timer.start Timer.bind Timer.restart Timer.cancel
    try_connect connect_loop
client_runs = refl
