-- ===== src/Base/ThreadPool/Order.antt =====
-- The order of the task queue of czrpc/base/thread_pool.hpp.
use czrpc.Prelude.{
  ℕ, List, [], ◌∷◌, ◌++◌, append_assoc, some, Option-cases, inl, inr, ◌≡◌, refl, arith, get_elem?,
}
use czrpc.Base.ThreadPool.{
  Pool, Worker, ready, Action, pushes, works, init, init_thread_num, add_task, push_task,
  notify_one, wake_spuriously, enter, advance, run_task, stop, notify_all, step, run,
}

module _ {A : Type 0} where
  abbrev pub IsOrdered : Pool A → Type 0
  IsOrdered p = p.pushed ≡ p.taken ++ p.task_queue

  -- What stands behind the front goes on standing behind it.
  snoc_ordered :
      (pushed taken queue : List A) (t : A)
      → pushed ≡ taken ++ queue
      → pushed ++ t ∷ [] ≡ taken ++ (queue ++ t ∷ [])
  snoc_ordered pushed taken queue t h = rw h (append_assoc taken queue (t ∷ []))

  take_ordered :
      (pushed taken queue : List A) (t : A)
      → pushed ≡ taken ++ t ∷ queue
      → pushed ≡ (taken ++ t ∷ []) ++ queue
  take_ordered pushed taken queue t h = rw (append_assoc taken (t ∷ []) queue) h

  enter-IsOrdered :
      (i : ℕ) (p : Pool A) (queue : List A)
      → p.task_queue ≡ queue
      → IsOrdered p
      → IsOrdered (enter i p)
  unfolding enter
  enter-IsOrdered i p [] e h = ground arith
  enter-IsOrdered i p (t ∷ rest) e h = ground (arith, take_ordered p.pushed p.taken rest t)

  advance-IsOrdered :
      (i : ℕ) (w : Worker A) (p q : Pool A) → IsOrdered p → advance i w p ≡ some q → IsOrdered q
  unfolding advance
  advance-IsOrdered i ready p q h e = ground (arith, enter-IsOrdered i p p.task_queue refl h)
  advance-IsOrdered i _ p q h e = ground arith

  push-IsOrdered : (i : ℕ) (p q : Pool A) → IsOrdered p → push_task i p ≡ some q → IsOrdered q
  unfolding push_task
  push-IsOrdered i p q h e = elim (Option-cases (get_elem? p.passed i)) [
    | inl n ↦ ground arith
    | inr (t, n) ↦ ground (arith, snoc_ordered p.pushed p.taken p.task_queue t h)
  ]

  step-IsOrdered : (a : Action A) (p q : Pool A) → IsOrdered p → step a p ≡ some q → IsOrdered q
  unfolding step run_task add_task notify_one wake_spuriously stop notify_all
  step-IsOrdered (pushes i) p q h e = push-IsOrdered i p q h e
  step-IsOrdered (works i) p q h e = elim (Option-cases (get_elem? p.thread_vec i)) [
    | inl n ↦ ground arith
    | inr (w, n) ↦ advance-IsOrdered i w p q h (ground arith)
  ]
  step-IsOrdered _ p q h e = ground arith

  run-IsOrdered : (as' : List (Action A)) (p : Pool A) → IsOrdered p → IsOrdered (run as' p)
  unfolding run
  run-IsOrdered [] p h = h
  run-IsOrdered (a ∷ as') p h = elim (Option-cases (step a p)) [
    | inl n ↦ rw (n, run) (run-IsOrdered as' p h)
    | inr (q, n) ↦ rw (n, run) (run-IsOrdered as' q (step-IsOrdered a p q h n))
  ]

-- Whatever the threads do, what has entered the queue of a new pool is what has left it and then
-- what still stands in it, in this order.
pub run-fifo :
    {A : Type 0} (num : ℕ) (schedule : List (Action A))
    → let p = run schedule (init_thread_num num init) in p.pushed ≡ p.taken ++ p.task_queue
unfolding init_thread_num
run-fifo num schedule = run-IsOrdered schedule _ refl
