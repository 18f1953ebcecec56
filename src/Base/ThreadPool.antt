-- ===== src/Base/ThreadPool.antt =====
-- `thread_pool` of czrpc/base/thread_pool.hpp as a step function over a schedule. A step is what a
-- thread does between two points at which another may run: a critical section under `mutex_`, one
-- access of the atomic flag, or one call of the condition variable.
pub mod Order
pub mod Shutdown
pub mod Missed
use czrpc.Prelude.{
  ℕ, zero, suc, ◌+◌, ◌-◌, Bool, true, false, ◌&&◌, ◌||◌, not, List, [], ◌∷◌, ◌++◌, map, Option,
  none, some, length, is_empty, get_elem?, set, replicate, if◌then◌else◌, ◌==◌, Result, ok, throw,
  runtime_error, codes,
}
use czrpc.Base.Queue
use czrpc.Base.Queue.{Queue}

-- Where a thread of the pool stands in `run_task`.
pub data Worker (A : Type 0) : Type 0 where
  -- before it takes the mutex, at the top of the loop or woken in `wait`
  ready : Worker A
  -- in `wait`, with the mutex: the predicate was false, and the thread is not yet asleep
  checked : Worker A
  -- asleep in `wait`, without the mutex
  waiting : Worker A
  -- in `task()`
  running : A → Worker A
  -- returned from `run_task`
  exited : Worker A

pub record Pool (A : Type 0) : Type 0 where
  pub thread_vec : List (Worker A)
  pub task_queue : Queue A
  pub mutex_free : Bool
  pub is_stop_threadpool : Bool
  -- whether `call_once` has begun `stop_impl`, and whether that has called `notify_all`
  pub stop_called : Bool
  pub all_notified : Bool
  -- the tasks of the `add_task` calls that have passed the test of the flag and not yet the mutex
  pub passed : List A
  -- the `notify_one` calls that are due
  pub notify_due : ℕ
  -- what has been put into the queue and what has been taken out of it, in order
  pub pushed : List A
  pub taken : List A

abbrev pub init : {A : Type 0} → Pool A
init = record {
  thread_vec = [];
  task_queue = [];
  mutex_free = true;
  is_stop_threadpool = false;
  stop_called = false;
  all_notified = false;
  passed = [];
  notify_due = 0;
  pushed = [];
  taken = [];
}

module _ {A : Type 0} where
  unfoldable pub init_thread_num : ℕ → Pool A → Pool A
  init_thread_num num p = record p { thread_vec = p.thread_vec ++ replicate num ready }

  -- `add_task`: the test of the flag, which throws on a stopped pool.
  unfoldable pub add_task : A → Pool A → Result (Pool A)
  add_task t p =
      if p.is_stop_threadpool
      then throw (runtime_error (codes "Add task on stopped thread pool"))
      else ok (record p { passed = t ∷ p.passed })

  unfoldable pub remove_at : ℕ → List A → List A
  remove_at i [] = []
  remove_at zero (x ∷ xs) = xs
  remove_at (suc i) (x ∷ xs) = x ∷ remove_at i xs

  -- `add_task`: the critical section of the `i`th call that has passed the test.
  unfoldable pub push_task : ℕ → Pool A → Option (Pool A)
  unfolding remove_at Queue.emplace_back
  push_task i p =
      if p.mutex_free
      then (elim (get_elem? p.passed i) [
        | none ↦ none
        | some t ↦ some (record p {
          task_queue = Queue.emplace_back t p.task_queue;
          passed = remove_at i p.passed;
          notify_due = p.notify_due + 1;
          pushed = p.pushed ++ t ∷ [];
        })
      ])
      else none

  abbrev pub wake : Worker A → Worker A
  wake waiting = ready
  wake w = w

  unfoldable pub wake_at : ℕ → Pool A → Pool A
  wake_at i p = elim (get_elem? p.thread_vec i) [
    | none ↦ p
    | some w ↦ record p { thread_vec = set p.thread_vec i (wake w) }
  ]

  -- `add_task`: `cond_.notify_one()`, which wakes the thread `i` if that is asleep.
  unfoldable pub notify_one : ℕ → Pool A → Option (Pool A)
  unfolding wake_at
  notify_one i p =
      if p.notify_due == 0
      then none
      else some (record (wake_at i p) { notify_due = p.notify_due - 1 })

  -- A thread may also wake for no reason.
  unfoldable pub wake_spuriously : ℕ → Pool A → Option (Pool A)
  unfolding wake_at
  wake_spuriously i p = some (wake_at i p)

  -- The critical section of `run_task`, from the test of the predicate to the end of the block. The
  -- flag is never cleared, so what is read of it twice there may be read at once.
  unfoldable pub enter : ℕ → Pool A → Pool A
  unfolding Queue.front Queue.pop_front
  enter i p = elim (Queue.front p.task_queue) [
    | none ↦
        if p.is_stop_threadpool
        then record p { thread_vec = set p.thread_vec i exited }
        else record p { thread_vec = set p.thread_vec i checked; mutex_free = false }
    | some task ↦ record p {
      thread_vec = set p.thread_vec i (running task);
      task_queue = Queue.pop_front p.task_queue;
      taken = p.taken ++ task ∷ [];
    }
  ]

  -- The next step of the thread `i`, if it can make one.
  unfoldable pub advance : ℕ → Worker A → Pool A → Option (Pool A)
  unfolding enter
  advance i ready p = if p.mutex_free then some (enter i p) else none
  advance i checked p =
      some (record p { thread_vec = set p.thread_vec i waiting; mutex_free = true })
  advance i waiting p = none
  advance i (running task) p = some (record p { thread_vec = set p.thread_vec i ready })
  advance i exited p = none

  unfoldable pub run_task : ℕ → Pool A → Option (Pool A)
  unfolding advance
  run_task i p = elim (get_elem? p.thread_vec i) [ none ↦ none | some w ↦ advance i w p ]

  -- `stop`: `call_once` lets the first call alone through, which sets the flag.
  unfoldable pub stop : Pool A → Option (Pool A)
  stop p =
      if p.stop_called
      then none
      else some (record p { stop_called = true; is_stop_threadpool = true })

  -- `stop_impl`: `cond_.notify_all()`, without the mutex.
  unfoldable pub notify_all : Pool A → Option (Pool A)
  notify_all p =
      if p.stop_called && not p.all_notified
      then some (record p { thread_vec = map wake p.thread_vec; all_notified = true })
      else none

  abbrev pub has_exited : Worker A → Bool
  has_exited exited = true
  has_exited w = false

  unfoldable pub all_exited : List (Worker A) → Bool
  all_exited [] = true
  all_exited (w ∷ ws) = has_exited w && all_exited ws

  -- Whether the loop of `join` calls in `stop_impl` comes to its end.
  unfoldable pub stop_impl_returns : Pool A → Bool
  unfolding all_exited
  stop_impl_returns p = p.all_notified && all_exited p.thread_vec

  unfoldable pub size : Pool A → ℕ
  size p = Queue.size p.task_queue

pub data Action (A : Type 0) : Type 0 where
  adds : A → Action A
  pushes : ℕ → Action A
  notifies : ℕ → Action A
  wakes : ℕ → Action A
  works : ℕ → Action A
  stops : Action A
  notifies_all : Action A

module _ {A : Type 0} where
  abbrev after_add : Result (Pool A) → Option (Pool A)
  after_add (ok p) = some p
  after_add (throw e) = none

  -- `none`: the step cannot be made.
  unfoldable pub step : Action A → Pool A → Option (Pool A)
  step (adds t) p = after_add (add_task t p)
  step (pushes i) p = push_task i p
  step (notifies i) p = notify_one i p
  step (wakes i) p = wake_spuriously i p
  step (works i) p = run_task i p
  step stops p = stop p
  step notifies_all p = notify_all p

  -- A schedule: a step that cannot be made is passed over.
  unfoldable pub run : List (Action A) → Pool A → Pool A
  run [] p = p
  run (a ∷ as') p = run as' (elim (step a p) [ none ↦ p | some q ↦ q ])
