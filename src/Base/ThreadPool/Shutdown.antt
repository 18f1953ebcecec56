-- ===== src/Base/ThreadPool/Shutdown.antt =====
-- `stop` and the ends of the threads of czrpc/base/thread_pool.hpp.
use czrpc.Prelude.{
  ℕ, zero, suc, true, List, [], ◌∷◌, ◌++◌, append_assoc, append-nil, some, ◌≡◌, refl, arith,
  get_elem?, set, Option-cases, inl, inr, ◌∙◌, sym,
}
use czrpc.Base.Queue
use czrpc.Base.ThreadPool.{
  Pool, Worker, ready, checked, waiting, running, exited, Action, works, enter, advance, run_task,
  step, run,
}

module _ {A : Type 0} where
  pub get-set_self :
      (ws : List (Worker A)) (i : ℕ) (v w : Worker A)
      → get_elem? ws i ≡ some w
      → get_elem? (set ws i v) i ≡ some v
  get-set_self [] i v w h = cc
  get-set_self (x ∷ ws) zero v w h = refl
  get-set_self (x ∷ ws) (suc i) v w h = get-set_self ws i v w h

  -- The turn of a thread before its critical section, with the queue's entries at hand.
  enter-exited :
      (i : ℕ) (p : Pool A) (queue : List A) (w : Worker A)
      → p.task_queue ≡ queue
      → get_elem? p.thread_vec i ≡ some w
      → get_elem? (enter i p).thread_vec i ≡ some exited
      → (p.is_stop_threadpool ≡ true) × (p.task_queue ≡ [])
  unfolding enter Queue.front
  enter-exited i p [] w e n x = ground (arith, get-set_self p.thread_vec i checked w n)
  enter-exited i p (t ∷ rest) w e n x = ground (arith, get-set_self p.thread_vec i (running t) w n)

  advance-exited :
      (i : ℕ) (w : Worker A) (p q : Pool A)
      → get_elem? p.thread_vec i ≡ some w
      → advance i w p ≡ some q
      → get_elem? q.thread_vec i ≡ some exited
      → (p.is_stop_threadpool ≡ true) × (p.task_queue ≡ [])
  unfolding advance
  advance-exited i ready p q n e x = ground (arith, enter-exited i p p.task_queue ready refl n)
  advance-exited i checked p q n e x = ground (arith, get-set_self p.thread_vec i waiting checked n)
  advance-exited i (running t) p q n e x =
      ground (arith, get-set_self p.thread_vec i ready (running t) n)
  advance-exited i _ p q n e x = cc

  -- A thread returns from `run_task` only when the pool is stopped and its queue is empty.
  pub run_task-exited :
      (i : ℕ) (p q : Pool A)
      → run_task i p ≡ some q
      → get_elem? q.thread_vec i ≡ some exited
      → (p.is_stop_threadpool ≡ true) × (p.task_queue ≡ [])
  unfolding run_task
  run_task-exited i p q e x = elim (Option-cases (get_elem? p.thread_vec i)) [
    | inl n ↦ ground arith
    | inr (w, n) ↦ advance-exited i w p q n (ground arith) x
  ]

  -- The turns of thread `i` that a queue asks for: two for a task, and one to return.
  abbrev pub turns : ℕ → List A → List (Action A)
  turns i [] = works i ∷ []
  turns i (t ∷ rest) = works i ∷ works i ∷ turns i rest

  abbrev with_task : ℕ → A → List A → Pool A → Pool A
  with_task i t rest p = record p {
    thread_vec = set p.thread_vec i (running t);
    task_queue = rest;
    taken = p.taken ++ t ∷ [];
  }

  abbrev with_worker : ℕ → Worker A → Pool A → Pool A
  with_worker i w p = record p { thread_vec = set p.thread_vec i w }

  take_turn :
      (i : ℕ) (t : A) (rest : List A) (p : Pool A)
      → p.task_queue ≡ t ∷ rest
      → p.mutex_free ≡ true
      → get_elem? p.thread_vec i ≡ some ready
      → step (works i) p ≡ some (with_task i t rest p)
  unfolding step run_task advance enter Queue.front Queue.pop_front
  take_turn i t rest p e m r = ground arith

  end_turn :
      (i : ℕ) (t : A) (p : Pool A)
      → get_elem? p.thread_vec i ≡ some (running t)
      → step (works i) p ≡ some (with_worker i ready p)
  unfolding step run_task advance
  end_turn i t p r = ground arith

  last_turn :
      (i : ℕ) (p : Pool A)
      → p.task_queue ≡ []
      → p.is_stop_threadpool ≡ true
      → p.mutex_free ≡ true
      → get_elem? p.thread_vec i ≡ some ready
      → step (works i) p ≡ some (with_worker i exited p)
  unfolding step run_task advance enter Queue.front
  last_turn i p e s m r = ground arith

  -- A thread that has a stopped pool to itself takes every task that is left, in order, and returns.
  pub stopped_pool_drains :
      (i : ℕ) (queue : List A) (p : Pool A)
      → p.task_queue ≡ queue
      → p.is_stop_threadpool ≡ true
      → p.mutex_free ≡ true
      → get_elem? p.thread_vec i ≡ some ready
      → let q = run (turns i queue) p in
        (q.task_queue ≡ [])
        × (q.taken ≡ p.taken ++ queue)
        × (get_elem? q.thread_vec i ≡ some exited)
  unfolding run
  stopped_pool_drains i [] p e s m r =
      rw (last_turn i p e s m r, run)
        (e, sym (append-nil p.taken), get-set_self p.thread_vec i exited ready r)
  stopped_pool_drains i (t ∷ rest) p e s m r =
      let r' = get-set_self p.thread_vec i (running t) ready r in
      let r'' = get-set_self (set p.thread_vec i (running t)) i ready (running t) r' in
      let (empty, order, gone) =
        stopped_pool_drains i rest (with_worker i ready (with_task i t rest p)) refl s m r'' in
      rw (take_turn i t rest p e m r, run, end_turn i t (with_task i t rest p) r', run)
        (empty, order ∙ append_assoc p.taken (t ∷ []) rest, gone)
