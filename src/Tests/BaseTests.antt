-- ===== src/Tests/BaseTests.antt =====
-- The base parts at concrete inputs.
use czrpc.Prelude.{
  ℕ, codes, true, false, some, [], ◌∷◌, ◌++◌, ◌≡◌, refl, List, ok, arith, ℕ_discrete, ltb,
  get_elem?, ap,
}
use czrpc.Base.Map
use czrpc.Base.Map.Laws.{find-replace, find-for_each_erase}
use czrpc.Base.Queue
use czrpc.Base.ThreadPool.{
  Pool, ready, exited, Action, adds, pushes, works, init, init_thread_num, run, stop_impl_returns,
  run_task, checked, stops, notifies_all, step, advance, enter,
}
use czrpc.Base.ThreadPool.Order.{run-fifo}
use czrpc.Base.ThreadPool.Shutdown.{run_task-exited, turns, stopped_pool_drains}
use czrpc.Base.ThreadPool.Missed.{stop_may_hang}
use czrpc.Base.Timer as Timer
use czrpc.Base.Timer.Waits.{stop_decides}
use czrpc.Base.Singleton as Singleton
use czrpc.Base.Singleton.Instances.{live, run_tracks}
use czrpc.Base.Util.{get_endpoint, format_error}
use czrpc.Base.Util.Endpoints.{get_endpoint_once}

abbrev ages : Map.Map ℕ ℕ
ages = (1, 10) ∷ (2, 20) ∷ []

find-replace_example :
    (Map.find ℕ_discrete 2 (Map.replace ℕ_discrete 2 21 ages).0 ≡ some 21)
    × ((Map.replace ℕ_discrete 2 21 ages).1 ≡ some 20)
unfolding ℕ_discrete Map.find
find-replace_example = find-replace ℕ_discrete 2 2 21 ages

find-for_each_erase_example :
    Map.find ℕ_discrete 2 (Map.for_each_erase {E = ℕ} (λ k v. (ltb v 15, [])) ages).0 ≡ some 20
unfolding ℕ_discrete Map.find
find-for_each_erase_example =
    find-for_each_erase ℕ_discrete (λ k v. (ltb v 15, [])) 2 ages (refl, (refl, tt))

-- Two tasks are pushed and taken; the thread that is alone takes them in order.
abbrev two_tasks : List (Action ℕ)
two_tasks = adds 1 ∷ pushes 0 ∷ adds 2 ∷ pushes 0 ∷ works 0 ∷ works 0 ∷ []

run-fifo_example :
    let p = run two_tasks (init_thread_num 1 init) in p.pushed ≡ p.taken ++ p.task_queue
run-fifo_example = run-fifo 1 two_tasks

abbrev stopped : Pool ℕ
stopped = record {
  thread_vec = ready ∷ [];
  task_queue = 1 ∷ 2 ∷ [];
  mutex_free = true;
  is_stop_threadpool = true;
  stop_called = true;
  all_notified = true;
  passed = [];
  notify_due = 0;
  pushed = 1 ∷ 2 ∷ [];
  taken = [];
}

stopped_pool_drains_example :
    let q = run (turns 0 (1 ∷ 2 ∷ [])) stopped in
    (q.task_queue ≡ []) × (q.taken ≡ 1 ∷ 2 ∷ []) × (get_elem? q.thread_vec 0 ≡ some exited)
stopped_pool_drains_example = stopped_pool_drains 0 (1 ∷ 2 ∷ []) stopped refl refl refl refl

abbrev empty_stopped : Pool ℕ
empty_stopped = record stopped { task_queue = [] }

run_task-exited_example :
    (empty_stopped.is_stop_threadpool ≡ true) × (empty_stopped.task_queue ≡ [])
unfolding run_task
run_task-exited_example =
    run_task-exited 0 empty_stopped (record empty_stopped { thread_vec = exited ∷ [] }) refl refl

-- The thread has tested the predicate and is not yet asleep.
abbrev about_to_sleep : Pool ℕ
about_to_sleep = run (works 0 ∷ []) (init_thread_num 1 init)

tested : about_to_sleep ≡ record init { thread_vec = checked ∷ []; mutex_free = false }
unfolding run step run_task advance enter Queue.front init_thread_num
tested = refl

stop_may_hang_example :
    stop_impl_returns (run (stops ∷ notifies_all ∷ adds 1 ∷ works 0 ∷ works 0 ∷ []) about_to_sleep)
    ≡ false
stop_may_hang_example =
    stop_may_hang 0 about_to_sleep (adds 1 ∷ works 0 ∷ works 0 ∷ [])
      (ap (λ (p : Pool ℕ). get_elem? p.thread_vec 0) tested) (ap (λ (p : Pool ℕ). p.passed) tested)
      (ap (λ (p : Pool ℕ). p.notify_due) tested) (ap (λ (p : Pool ℕ). p.stop_called) tested)
      (ap (λ (p : Pool ℕ). p.all_notified) tested) tt

get_endpoint_once_example :
    (get_endpoint (codes "a.b:80")
      ≡ (ok (record { ip = codes "a.b"; port = codes "80" }), codes "a.b" ++ 0 ∷ codes "80"))
    × (get_endpoint (codes "a.b" ++ 0 ∷ codes "80") ≡ (format_error, codes "a.b" ++ 0 ∷ codes "80"))
get_endpoint_once_example =
    get_endpoint_once 97 56 (codes ".b") (codes "0")
      ((omega arith, omega arith), ((omega arith, omega arith), ((omega arith, omega arith), tt)))
      ((omega arith, omega arith), ((omega arith, omega arith), tt))

abbrev request_timer : Timer.Timer
request_timer = record Timer.new_timer { func_vec = 4 ∷ []; is_single_shot = true }

stop_decides_example :
    ((Timer.run
        (Timer.starts 10 ∷ Timer.expires ∷ Timer.handles ∷ Timer.handles ∷ [])
        request_timer).1
      ≡ 4 ∷ [])
    × ((Timer.run
          (Timer.starts 10 ∷ Timer.stops ∷ Timer.expires ∷ Timer.handles ∷ [])
          request_timer).1
        ≡ [])
    × ((Timer.run
          (Timer.starts 10 ∷ Timer.expires ∷ Timer.stops ∷ Timer.handles ∷ [])
          request_timer).1
        ≡ 4 ∷ [])
stop_decides_example = stop_decides 10 request_timer (omega arith) refl refl refl

-- Two threads pass the first test before either gets the mutex; a third one destroys the instance, which
-- is deleted but still pointed to when one more thread would create one.
abbrev two_creates : List Singleton.Step
two_creates =
    Singleton.creates 1
    ∷ Singleton.creates 2
    ∷ Singleton.locks 0
    ∷ Singleton.proceeds
    ∷ Singleton.proceeds
    ∷ Singleton.locks 0
    ∷ Singleton.destroys
    ∷ Singleton.proceeds
    ∷ Singleton.goes_on 0
    ∷ Singleton.creates 3
    ∷ []

run_tracks_example :
    1 ∷ []
    ≡ (Singleton.run two_creates Singleton.no_instance).deleted
      ++ live (some 1) (Singleton.nulling ∷ [])
unfolding Singleton.run Singleton.get Singleton.step
run_tracks_example = run_tracks two_creates (refl, tt)
