-- ===== src/Base/ThreadPool/Missed.antt =====
-- A thread of czrpc/base/thread_pool.hpp that misses the notification of `stop`.
use mathlib.Core.Path.{subst}
use czrpc.Prelude.{
  ℕ, zero, suc, true, false, List, [], ◌∷◌, some, map, ◌≡◌, ◌≢◌, refl, arith, ap, ◌⊎◌, ℕ_discrete,
  get_elem?, set, Bool-cases, Option-cases, inl, inr, ◌∙◌,
}
use czrpc.Base.Queue
use czrpc.Base.ThreadPool.{
  Pool, Worker, ready, checked, waiting, running, exited, Action, adds, pushes, notifies, wakes,
  works, stops, notifies_all, add_task, push_task, notify_one, enter, wake, has_exited, all_exited,
  advance, run_task, stop, notify_all, step, run, stop_impl_returns,
}
use czrpc.Base.ThreadPool.Shutdown.{get-set_self}

module _ {A : Type 0} where
  -- The schedule makes no thread wake for no reason.
  abbrev pub NoWakes : List (Action A) → Type 0
  NoWakes [] = Unit {0}
  NoWakes (wakes i ∷ as') = ⊥
  NoWakes (a ∷ as') = NoWakes as'

  -- The pool has been stopped and has notified, and the thread `i`, which tested before that, has not
  -- been woken since. No task is on its way into the queue.
  record IsMissed (i : ℕ) (p : Pool A) : Type 0 where
    sleeps : (get_elem? p.thread_vec i ≡ some checked) ⊎ (get_elem? p.thread_vec i ≡ some waiting)
    stopped : p.is_stop_threadpool ≡ true
    called : p.stop_called ≡ true
    notified : p.all_notified ≡ true
    none_passed : p.passed ≡ []
    none_due : p.notify_due ≡ 0

  get-set_other :
      (ws : List (Worker A)) (i j : ℕ) (v : Worker A)
      → i ≢ j
      → get_elem? (set ws j v) i ≡ get_elem? ws i
  get-set_other [] i j v h = refl
  get-set_other (w ∷ ws) zero zero v h = absurd (h refl)
  get-set_other (w ∷ ws) zero (suc j) v h = refl
  get-set_other (w ∷ ws) (suc i) zero v h = refl
  get-set_other (w ∷ ws) (suc i) (suc j) v h = get-set_other ws i j v (λ e. h (ap suc e))

  module _ (i j : ℕ) (other : i ≢ j) where
    sleeps_on :
        (ws : List (Worker A)) (v : Worker A)
        → (get_elem? ws i ≡ some checked) ⊎ (get_elem? ws i ≡ some waiting)
        → (get_elem? (set ws j v) i ≡ some checked) ⊎ (get_elem? (set ws j v) i ≡ some waiting)
    sleeps_on ws v h = rw (get-set_other ws i j v other) h

    same_flags :
        (p q : Pool A) (v : Worker A)
        → q.thread_vec ≡ set p.thread_vec j v
        → q.is_stop_threadpool ≡ p.is_stop_threadpool
        → q.stop_called ≡ p.stop_called
        → q.all_notified ≡ p.all_notified
        → q.passed ≡ p.passed
        → q.notify_due ≡ p.notify_due
        → IsMissed i p
        → IsMissed i q
    same_flags p q v moved st ca nt pa du h = record {
      sleeps = rw moved (sleeps_on p.thread_vec v h.sleeps);
      stopped = st ∙ h.stopped;
      called = ca ∙ h.called;
      notified = nt ∙ h.notified;
      none_passed = pa ∙ h.none_passed;
      none_due = du ∙ h.none_due;
    }

    enter-IsMissed :
        (p : Pool A) (queue : List A) → p.task_queue ≡ queue → IsMissed i p → IsMissed i (enter j p)
    unfolding enter Queue.front
    enter-IsMissed p [] e h =
        same_flags p (enter j p) exited (ground (arith, e, h.stopped))
          (ground (arith, e, h.stopped)) (ground (arith, e, h.stopped))
          (ground (arith, e, h.stopped)) (ground (arith, e, h.stopped))
          (ground (arith, e, h.stopped)) h
    enter-IsMissed p (t ∷ ts) e h =
        same_flags p (enter j p) (running t) (ground (arith, e)) (ground (arith, e))
          (ground (arith, e)) (ground (arith, e)) (ground (arith, e)) (ground (arith, e)) h

    advance-IsMissed :
        (w : Worker A) (p q : Pool A) → advance j w p ≡ some q → IsMissed i p → IsMissed i q
    unfolding advance
    advance-IsMissed ready p q e h = elim (Bool-cases p.mutex_free) [
      | inl y ↦ subst (IsMissed i) (ground arith) (enter-IsMissed p p.task_queue refl h)
      | inr y ↦ absurd (ground arith)
    ]
    advance-IsMissed checked p q e h = subst (IsMissed i) (ground arith) (
        same_flags p (record p { thread_vec = set p.thread_vec j waiting; mutex_free = true })
          waiting refl refl refl refl refl refl h)
    advance-IsMissed waiting p q e h = absurd (cc)
    advance-IsMissed (running t) p q e h = subst (IsMissed i) (ground arith) (
        same_flags p (record p { thread_vec = set p.thread_vec j ready }) ready refl refl refl refl
          refl refl h)
    advance-IsMissed exited p q e h = absurd (cc)

  -- The thread `i` itself goes to sleep, and then has no turn.
  own_turn :
      (i : ℕ) (w : Worker A) (p q : Pool A)
      → get_elem? p.thread_vec i ≡ some w
      → advance i w p ≡ some q
      → IsMissed i p
      → IsMissed i q
  unfolding advance
  own_turn i checked p q n e h = subst (IsMissed i) (ground arith) (asleep p h n)
    where
      asleep :
          (p : Pool A)
          → IsMissed i p
          → get_elem? p.thread_vec i ≡ some checked
          → IsMissed i (record p { thread_vec = set p.thread_vec i waiting; mutex_free = true })
      asleep p h n = record {
        sleeps = inr (get-set_self p.thread_vec i waiting checked n);
        stopped = h.stopped;
        called = h.called;
        notified = h.notified;
        none_passed = h.none_passed;
        none_due = h.none_due;
      }
  own_turn i waiting p q n e h = absurd (cc)
  own_turn i ready p q n e h = absurd (ground (arith, h.sleeps))
  own_turn i (running t) p q n e h = absurd (ground (arith, h.sleeps))
  own_turn i exited p q n e h = absurd (ground (arith, h.sleeps))

  works-IsMissed : (i j : ℕ) (p q : Pool A) → run_task j p ≡ some q → IsMissed i p → IsMissed i q
  unfolding run_task
  works-IsMissed i j p q e h = elim (Option-cases (get_elem? p.thread_vec j)) [
    | inl n ↦ absurd (ground arith)
    | inr (w, n) ↦ elim (ℕ_discrete i j) [
      | yes same ↦ own_turn i w p q (ap (get_elem? p.thread_vec) same ∙ n) (ground (arith, same)) h
      | no other ↦ advance-IsMissed i j other w p q (ground arith) h
    ]
  ]

  NoWakes-split :
      (a : Action A) (as' : List (Action A)) → NoWakes (a ∷ as') → NoWakes (a ∷ []) × NoWakes as'
  NoWakes-split (wakes i) as' n = absurd n
  NoWakes-split (adds t) as' n = (tt, n)
  NoWakes-split (pushes i) as' n = (tt, n)
  NoWakes-split (notifies i) as' n = (tt, n)
  NoWakes-split (works i) as' n = (tt, n)
  NoWakes-split stops as' n = (tt, n)
  NoWakes-split notifies_all as' n = (tt, n)

  step-IsMissed :
      (a : Action A) (i : ℕ) (p q : Pool A)
      → NoWakes (a ∷ [])
      → step a p ≡ some q
      → IsMissed i p
      → IsMissed i q
  unfolding step add_task push_task notify_one stop notify_all
  step-IsMissed (adds t) i p q n e h = absurd (ground (arith, h.stopped))
  step-IsMissed (pushes j) i p q n e h = absurd (ground (arith, h.none_passed))
  step-IsMissed (notifies j) i p q n e h = absurd (ground (arith, h.none_due))
  step-IsMissed (wakes j) i p q n e h = absurd n
  step-IsMissed (works j) i p q n e h = works-IsMissed i j p q e h
  step-IsMissed stops i p q n e h = absurd (ground (arith, h.called))
  step-IsMissed notifies_all i p q n e h = absurd (ground (arith, h.notified))

  run-IsMissed :
      (schedule : List (Action A)) (i : ℕ) (p : Pool A)
      → NoWakes schedule
      → IsMissed i p
      → IsMissed i (run schedule p)
  unfolding run
  run-IsMissed [] i p n h = h
  run-IsMissed (a ∷ as') i p n h =
      let (first, later) = NoWakes-split a as' n in
      elim (Option-cases (step a p)) [
        | inl e ↦ rw e (run-IsMissed as' i p later h)
        | inr (q, e) ↦ rw e (run-IsMissed as' i q later (step-IsMissed a i p q first e h))
      ]

  missed_not_exited :
      (ws : List (Worker A)) (i : ℕ) (w : Worker A)
      → get_elem? ws i ≡ some w
      → has_exited w ≡ false
      → all_exited ws ≡ false
  unfolding all_exited
  missed_not_exited [] i w e n = absurd (cc)
  missed_not_exited (v ∷ ws) zero w e n = ground arith
  missed_not_exited (v ∷ ws) (suc i) w e n = ground (arith, missed_not_exited ws i w e n)

  stopped_now : Pool A → Pool A
  stopped_now p = record p {
    thread_vec = map wake p.thread_vec;
    is_stop_threadpool = true;
    stop_called = true;
    all_notified = true;
  }

  get-map-wake :
      (ws : List (Worker A)) (i : ℕ)
      → get_elem? ws i ≡ some checked
      → get_elem? (map wake ws) i ≡ some checked
  get-map-wake [] i e = absurd (cc)
  get-map-wake (w ∷ ws) zero e = ground arith
  get-map-wake (w ∷ ws) (suc i) e = get-map-wake ws i e

  stop_notifies :
      (p : Pool A) (schedule : List (Action A))
      → p.stop_called ≡ false
      → p.all_notified ≡ false
      → run (stops ∷ notifies_all ∷ schedule) p ≡ run schedule (stopped_now p)
  unfolding run step stop notify_all stopped_now
  stop_notifies p schedule c n = ground (arith, c, n)

  -- `stop` sets the flag and notifies without the mutex. If it does both between the test of a thread
  -- and its sleep, when no `add_task` has passed its own test and not yet notified, then the thread is
  -- never woken: under every schedule in which no thread wakes for no reason, `stop` does not return.
  pub stop_may_hang :
      (i : ℕ) (p : Pool A) (schedule : List (Action A))
      → get_elem? p.thread_vec i ≡ some checked
      → p.passed ≡ []
      → p.notify_due ≡ 0
      → p.stop_called ≡ false
      → p.all_notified ≡ false
      → NoWakes schedule
      → stop_impl_returns (run (stops ∷ notifies_all ∷ schedule) p) ≡ false
  unfolding stop_impl_returns stopped_now
  stop_may_hang i p schedule c passed due called notified n =
      let q = run schedule (stopped_now p) in
      let missed = run-IsMissed schedule i (stopped_now p) n (record {
        sleeps = inl (get-map-wake p.thread_vec i c);
        stopped = refl;
        called = refl;
        notified = refl;
        none_passed = passed;
        none_due = due;
      }) in
      ap stop_impl_returns (stop_notifies p schedule called notified) ∙ elim missed.sleeps [
        | inl e ↦ ground (arith, missed_not_exited q.thread_vec i checked e refl)
        | inr e ↦ ground (arith, missed_not_exited q.thread_vec i waiting e refl)
      ]
