-- ===== src/Client/Lifecycle/Final.antt =====
-- Clients of czrpc/client/async_rpc_client.hpp and czrpc/client/sub_client.hpp when they have been
-- stopped.
use czrpc.Prelude.{
  ℕ, ◌+◌, codes, true, false, List, [], ◌∷◌, some, ok, throw, runtime_error, Bool-cases, inl, inr,
  ◌≡◌, refl, ap, ◌∙◌, arith,
}
use czrpc.Base.Timer as Timer
use czrpc.Base.Timer.{Timer, Wait, armed, cancelled, over, cancel, cancel_wait}
use czrpc.Base.Timer.Waits.{armed_count, armed_count-cancel}
use czrpc.Base.ThreadPool as ThreadPool
use czrpc.Base.ThreadPool.{Pool}
use czrpc.Client.ClientBase as ClientBase
use czrpc.Client.ClientBase.{ClientBase, Attempt, succeeds, disconnect, connect_loop, try_connect}
use czrpc.Client.AsyncRpcClient as AsyncRpcClient
use czrpc.Client.SubRouter.{SubRouter}
use czrpc.Client.SubClient.{retry_subscribe}
use czrpc.Client.Lifecycle.{
  Threads, Async, is_served, start_ios_thread, stop_ios_thread, base_run, base_stop, stop_pool,
  begin_reading, start_timer, async_start, async_connected, async_sync_connect, async_run,
  async_stop, sub_start, sub_connected, sub_sync_connect, sub_run, sub_stop,
}

cancel_once : (ws : List Wait) → cancel (cancel ws) ≡ cancel ws
unfolding cancel cancel_wait
cancel_once [] = refl
cancel_once (armed ∷ ws) = ap (◌∷◌ cancelled) (cancel_once ws)
cancel_once (cancelled ∷ ws) = ap (◌∷◌ cancelled) (cancel_once ws)
cancel_once (over ∷ ws) = ap (◌∷◌ over) (cancel_once ws)

module _ {A : Type 0} where
  -- The pool as `stop` leaves it; before, the flag is set if `stop` has been called.
  record IsOver (c : Threads A) : Type 0 where
    pub called : c.threadpool.stop_called ≡ true
    pub refused : c.threadpool.is_stop_threadpool ≡ true
    pub ended : c.ios.stopped ≡ true
    pub closed : c.base.is_connected ≡ false

  sub_stop-IsOver :
      (c : Threads A)
      → c.threadpool.is_stop_threadpool ≡ c.threadpool.stop_called
      → IsOver (sub_stop c)
  unfolding sub_stop stop_pool base_stop stop_ios_thread ThreadPool.stop ClientBase.stop disconnect
  sub_stop-IsOver c sound = elim (Bool-cases c.threadpool.stop_called) [
    | inl e ↦ record {
      called = ground arith;
      refused = ground arith;
      ended = ground arith;
      closed = ground arith;
    }
    | inr e ↦ record {
      called = ground arith;
      refused = ground arith;
      ended = ground arith;
      closed = ground arith;
    }
  ]

  sub_stop_once : (c : Threads A) → sub_stop (sub_stop c) ≡ sub_stop c
  unfolding sub_stop stop_pool base_stop stop_ios_thread ThreadPool.stop ClientBase.stop disconnect
  sub_stop_once c = elim (Bool-cases c.threadpool.stop_called) [
    | inl e ↦ ground arith
    | inr e ↦ ground arith
  ]

  async_stop_once : (c : Async A) → async_stop (async_stop c) ≡ async_stop c
  unfolding async_stop sub_stop Timer.destroy Timer.stop cancel
  async_stop_once c =
      ap (λ (th : Threads A). record (async_stop (async_stop c)) { threads = th })
        (sub_stop_once c.threads)
      ∙ ap (λ ws. record (async_stop c) { timer = record (async_stop c).timer { waits = ws } })
          (cancel_once c.timer.waits)

  -- The client is connected and has been told so; but no handler is called, the timer has no wait that
  -- could end, and the pool takes no task.
  pub record IsDeaf (t : A) (c : Threads A) : Type 0 where
    pub connected : c.base.is_connected ≡ true
    pub unserved : is_served c.ios ≡ false
    pub refuses :
        ThreadPool.add_task t c.threadpool
        ≡ throw (runtime_error (codes "Add task on stopped thread pool"))

  abbrev run_threads : Threads A → Threads A
  run_threads c = base_run (record c { threadpool = ThreadPool.init_thread_num 1 c.threadpool })

  abbrev connected : Threads A → Threads A
  connected c =
      begin_reading (record c { base = record c.base { is_connected = true; is_open = true } })

  connected-IsDeaf : (t : A) (c : Threads A) → IsOver c → IsDeaf t (connected (run_threads c))
  unfolding begin_reading base_run start_ios_thread ThreadPool.init_thread_num ThreadPool.add_task
  connected-IsDeaf t c o = record {
    connected = refl;
    unserved = ground (arith, o.ended);
    refuses = ground (arith, o.refused);
  }

  notified_once : (c : Threads A) → (connected (run_threads (sub_stop c))).notified ≡ c.notified + 1
  unfolding begin_reading base_run sub_stop stop_pool base_stop
  notified_once c = ground arith

  sub_runs :
      (begin_time : ℕ) (attempts : List Attempt) (router : SubRouter) (s : Threads A)
      → IsOver s
      → sub_run begin_time (succeeds ∷ attempts) router s
        ≡ some ((connected (run_threads s), retry_subscribe router), ok tt)
  unfolding sub_run sub_sync_connect sub_connected sub_start base_run try_connect connect_loop
  sub_runs begin_time attempts router s o = ground (arith, o.closed)

  async_runs :
      (begin_time : ℕ) (attempts : List Attempt) (s : Async A)
      → IsOver s.threads
      → async_run begin_time (succeeds ∷ attempts) s
        ≡ some (
          record (start_timer s) {
            calls = AsyncRpcClient.start s.calls;
            threads = connected (run_threads s.threads);
          },
          ok tt,
        )
  unfolding async_run async_sync_connect async_connected async_start start_timer base_run
      try_connect connect_loop
  async_runs begin_time attempts s o = ground (arith, o.closed)

  start_timer-destroyed : (c : Async A) → armed_count (start_timer (async_stop c)).timer.waits ≡ 0
  unfolding start_timer async_stop Timer.destroy Timer.stop Timer.bind Timer.start
  start_timer-destroyed c = armed_count-cancel c.timer.waits

  -- Stopping is final. A client that is stopped again is as it was. When it is run again and connects at
  -- once, `run` returns, and the notification has been called once more; but the client is deaf.
  pub stop_is_final :
      (begin_time : ℕ) (attempts : List Attempt) (t : A) (c : Async A)
      → c.threads.threadpool.is_stop_threadpool ≡ c.threads.threadpool.stop_called
      → let s = async_stop c in
        (async_stop s ≡ s)
        × ((end : Async A) × (async_run begin_time (succeeds ∷ attempts) s ≡ some (end, ok tt))
            × (end.threads.notified ≡ c.threads.notified + 1)
            × (armed_count end.timer.waits ≡ 0)
            × IsDeaf t end.threads)
  unfolding async_stop sub_stop
  stop_is_final begin_time attempts t c sound =
      let s = async_stop c in
      let o = sub_stop-IsOver c.threads sound in
      (
        async_stop_once c,
        (
          record (start_timer s) {
            calls = AsyncRpcClient.start s.calls;
            threads = connected (run_threads s.threads);
          },
          async_runs begin_time attempts s o,
          notified_once c.threads,
          start_timer-destroyed c,
          connected-IsDeaf t s.threads o,
        ),
      )

  -- So it is with a subscriber, which writes its subscriptions all the same.
  pub sub_stop_is_final :
      (begin_time : ℕ) (attempts : List Attempt) (router : SubRouter) (t : A) (c : Threads A)
      → c.threadpool.is_stop_threadpool ≡ c.threadpool.stop_called
      → let s = sub_stop c in
        (sub_stop s ≡ s)
        × ((end : Threads A) × (sub_run begin_time (succeeds ∷ attempts) router s
              ≡ some ((end, retry_subscribe router), ok tt))
            × (end.notified ≡ c.notified + 1)
            × IsDeaf t end)
  sub_stop_is_final begin_time attempts router t c sound =
      let s = sub_stop c in
      let o = sub_stop-IsOver c sound in
      (
        sub_stop_once c,
        (
          connected (run_threads s),
          sub_runs begin_time attempts router s o,
          notified_once c,
          connected-IsDeaf t s o,
        ),
      )
