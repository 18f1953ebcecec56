-- ===== src/Server/Work/InOrder.antt =====
-- A server with one work thread, under any schedule.
use czrpc.Prelude.{
  ℕ, zero, suc, Bool, true, false, List, [], ◌∷◌, ◌++◌, append-nil, append_assoc, Option, none,
  some, get_elem?, Option-cases, inl, inr, ◌≡◌, refl, ap, sym, ◌∙◌, arith,
}
use mathlib.Core.Path.{subst}
use czrpc.Base.Queue
use czrpc.Base.Protobuf.{Protobuf}
use czrpc.Base.ThreadPool as ThreadPool
use czrpc.Base.ThreadPool.{
  Pool, Worker, ready, checked, waiting, running, exited, Action, adds, pushes, notifies, wakes,
  works, stops, notifies_all, wake, wake_at, enter, advance, remove_at,
}
use czrpc.Base.ThreadPool.Order.{run-fifo}
use czrpc.Server.RpcMessage.{Output}
use czrpc.Server.Router.{Router}
use czrpc.Server.TopicManager.{Topics}
use czrpc.Server.Dispatch.{Connections, router_thread}
use czrpc.Server.Work.{
  Task, Work, started, task_at, ended, serve, serve_ended, step, run, serve_all,
}

-- What a thread is running.
abbrev pub current : Worker Task → List Task
current (running t) = t ∷ []
current w = []

abbrev to_list : Option Task → List Task
to_list none = []
to_list (some t) = t ∷ []

-- A pool of one thread, whose tasks that have been taken are those of `done` and what the thread runs.
record IsSerial (p : Pool Task) (done : List Task) : Type 0 where
  worker : Worker Task
  alone : p.thread_vec ≡ worker ∷ []
  kept : p.taken ≡ done ++ current worker

wake_at-IsSerial :
    (i : ℕ) (p : Pool Task) (done : List Task) → IsSerial p done → IsSerial (wake_at i p) done
unfolding wake_at
wake_at-IsSerial zero p done s = record {
  worker = wake s.worker;
  alone = ground (arith, s.alone);
  kept = ground (arith, s.alone, s.kept);
}
wake_at-IsSerial (suc i) p done s = record {
  worker = s.worker;
  alone = ground (arith, s.alone);
  kept = ground (arith, s.alone, s.kept);
}

enter-IsSerial :
    (queue : List Task) (stopped : Bool) (p : Pool Task) (done : List Task)
    → p.task_queue ≡ queue
    → p.is_stop_threadpool ≡ stopped
    → p.thread_vec ≡ ready ∷ []
    → p.taken ≡ done ++ []
    → IsSerial (enter zero p) (done ++ [])
unfolding enter Queue.front Queue.pop_front
enter-IsSerial [] true p done n b o k = record {
  worker = exited;
  alone = ground arith;
  kept = ground (arith, append-nil (done ++ []));
}
enter-IsSerial [] false p done n b o k = record {
  worker = checked;
  alone = ground arith;
  kept = ground (arith, append-nil (done ++ []));
}
enter-IsSerial (t ∷ rest) stopped p done n b o k = record {
  worker = running t;
  alone = ground arith;
  kept = ground arith;
}

entered : (p q : Pool Task) → advance zero ready p ≡ some q → enter zero p ≡ q
unfolding advance
entered p q e = ground arith

works-IsSerial :
    (w : Worker Task) (p q : Pool Task) (done : List Task)
    → p.thread_vec ≡ w ∷ []
    → p.taken ≡ done ++ current w
    → advance zero w p ≡ some q
    → IsSerial q (done ++ to_list (task_at (some w)))
unfolding advance enter Queue.front Queue.pop_front
works-IsSerial ready p q done o k e =
    subst (λ (r : Pool Task). IsSerial r (done ++ [])) (entered p q e)
      (enter-IsSerial p.task_queue p.is_stop_threadpool p done refl refl o k)
works-IsSerial checked p q done o k e = record {
  worker = waiting;
  alone = ground arith;
  kept = ground (arith, append-nil (done ++ []));
}
works-IsSerial waiting p q done o k e = absurd (cc)
works-IsSerial (running t) p q done o k e = record {
  worker = ready;
  alone = ground arith;
  kept = ground (arith, append-nil (done ++ t ∷ []));
}
works-IsSerial exited p q done o k e = absurd (cc)

step-IsSerial :
    (a : Action Task) (p q : Pool Task) (done : List Task)
    → ThreadPool.step a p ≡ some q
    → IsSerial p done
    → IsSerial q (done ++ to_list (ended a p))
unfolding ThreadPool.step ended ThreadPool.add_task ThreadPool.push_task ThreadPool.notify_one
    ThreadPool.wake_spuriously ThreadPool.run_task ThreadPool.stop ThreadPool.notify_all
step-IsSerial (works zero) p q done e s =
    let at = ap (λ l. get_elem? l 0) s.alone in
    let made : advance zero s.worker p ≡ some q = ground (arith, at, e) in
    subst (λ w. IsSerial q (done ++ to_list (task_at w))) (sym at)
      (works-IsSerial s.worker p q done s.alone s.kept made)
step-IsSerial (works (suc i)) p q done e s =
    let at : get_elem? p.thread_vec (suc i) ≡ none = ap (λ l. get_elem? l (suc i)) s.alone in
    absurd (ground (arith, at, e))
step-IsSerial (wakes i) p q done e s =
    let s' = wake_at-IsSerial i p done s in
    record {
      worker = s'.worker;
      alone = ground (arith, s'.alone, e);
      kept = ground (arith, s'.kept, e, append-nil done);
    }
step-IsSerial (notifies i) p q done e s =
    let s' = wake_at-IsSerial i p done s in
    record {
      worker = s'.worker;
      alone = ground (arith, s'.alone, e);
      kept = ground (arith, s'.kept, e, append-nil done);
    }
step-IsSerial notifies_all p q done e s = record {
  worker = wake s.worker;
  alone = ground (arith, s.alone, e);
  kept = ground (arith, s.kept, e, append-nil done);
}
step-IsSerial stops p q done e s = record {
  worker = s.worker;
  alone = ground (arith, s.alone);
  kept = ground (arith, s.kept, append-nil done);
}
step-IsSerial (adds t) p q done e s = record {
  worker = s.worker;
  alone = ground (arith, s.alone);
  kept = ground (arith, s.kept, append-nil done);
}
step-IsSerial (pushes i) p q done e s = record {
  worker = s.worker;
  alone = ground (arith, s.alone);
  kept = ground (arith, s.kept, append-nil done);
}

module _ (pb : Protobuf) (conns : Connections) (r : Router pb) where
  abbrev next_pool : Pool Task → Option (Pool Task) → Pool Task
  next_pool p none = p
  next_pool p (some q) = q

  step-pool :
      (a : Action Task) (s : Work)
      → (step pb conns r a s).threadpool ≡ next_pool s.threadpool (ThreadPool.step a s.threadpool)
  unfolding step
  step-pool a s = ground arith

  pool-run :
      (as' : List (Action Task)) (s : Work)
      → (run pb conns r as' s).threadpool ≡ ThreadPool.run as' s.threadpool
  unfolding run ThreadPool.run
  pool-run [] s = refl
  pool-run (a ∷ as') s =
      pool-run as' (step pb conns r a s) ∙ ap (ThreadPool.run as') (step-pool a s ∙ ground arith)

  serve_all-snoc :
      (ts : List Task) (t : Task) (topics : Topics)
      → serve_all pb conns r (ts ++ t ∷ []) topics ≡ (
          let (end, outputs) = serve_all pb conns r ts topics in
          let (end', more) = router_thread pb conns t.0 t.1 r end in (end', outputs ++ more))
  unfolding serve_all
  serve_all-snoc [] (content, conn) topics =
      ap (λ (o : List Output). ((router_thread pb conns content conn r topics).0, o)) (append-nil _)
  serve_all-snoc ((content', conn') ∷ ts) t topics =
      let (topics', outputs) = router_thread pb conns content' conn' r topics in
      ground (
        arith,
        serve_all-snoc ts t topics',
        append_assoc outputs (serve_all pb conns r ts topics').1
            (router_thread pb conns t.0 t.1 r (serve_all pb conns r ts topics').0).1,
      )

  -- What has been done is what the tasks that have ended do one after the other.
  record IsServed (topics : Topics) (s : Work) : Type 0 where
    serial : IsSerial s.threadpool s.finished
    served : (s.topics, s.outputs) ≡ serve_all pb conns r s.finished topics

  serve_ended-finished :
      (o : Option Task) (s : Work) → (serve_ended pb conns r o s).finished ≡ s.finished ++ to_list o
  unfolding serve_ended serve
  serve_ended-finished none s = sym (append-nil s.finished)
  serve_ended-finished (some t) s = refl

  serve_ended-served :
      (topics : Topics) (o : Option Task) (s : Work)
      → (s.topics, s.outputs) ≡ serve_all pb conns r s.finished topics
      → let s' = serve_ended pb conns r o s in
        (s'.topics, s'.outputs) ≡ serve_all pb conns r s'.finished topics
  unfolding serve_ended serve
  serve_ended-served topics none s h = h
  serve_ended-served topics (some t) s h = ground (arith, h, serve_all-snoc s.finished t topics)

  step-IsServed :
      (topics : Topics) (a : Action Task) (s : Work)
      → IsServed topics s
      → IsServed topics (step pb conns r a s)
  unfolding step
  step-IsServed topics a s h = elim (Option-cases (ThreadPool.step a s.threadpool)) [
    | inl n ↦ rw (n, step) h
    | inr (q, n) ↦
        rw (n, step)
          (record {
            serial =
                rw (serve_ended-finished (ended a s.threadpool) s)
                  (step-IsSerial a s.threadpool q s.finished n h.serial);
            served = serve_ended-served topics (ended a s.threadpool) s h.served;
          })
  ]

  run-IsServed :
      (topics : Topics) (as' : List (Action Task)) (s : Work)
      → IsServed topics s
      → IsServed topics (run pb conns r as' s)
  unfolding run
  run-IsServed topics [] s h = h
  run-IsServed topics (a ∷ as') s h =
      run-IsServed topics as' (step pb conns r a s) (step-IsServed topics a s h)

  -- With one work thread, under every schedule, the topics and all that has gone out are what the
  -- requests that have been handled bring about one after the other; and these are the first of those
  -- that were put into the queue: behind them come the one that the thread is running, if it is, and
  -- those that wait, in this order.
  pub one_worker_in_order :
      (schedule : List (Action Task)) (topics : Topics)
      → let s = run pb conns r schedule (started 1 topics) in
        ((s.topics, s.outputs) ≡ serve_all pb conns r s.finished topics)
        × ((w : Worker Task) × (s.threadpool.thread_vec ≡ w ∷ [])
            × (s.threadpool.pushed ≡ s.finished ++ (current w ++ s.threadpool.task_queue)))
  unfolding serve_all ThreadPool.init_thread_num
  one_worker_in_order schedule topics =
      let s = run pb conns r schedule (started 1 topics) in
      let begun : IsServed topics (started 1 topics) = record {
        serial = record { worker = ready; alone = refl; kept = refl };
        served = refl;
      } in
      let h = run-IsServed topics schedule (started 1 topics) begun in
      let fifo : s.threadpool.pushed ≡ s.threadpool.taken ++ s.threadpool.task_queue =
        rw (pool-run schedule (started 1 topics)) (run-fifo 1 schedule) in
      (
        h.served,
        (
          h.serial.worker,
          h.serial.alone,
          fifo
              ∙ ap (λ l. l ++ s.threadpool.task_queue) h.serial.kept
              ∙ append_assoc s.finished (current h.serial.worker) s.threadpool.task_queue,
        ),
      )
