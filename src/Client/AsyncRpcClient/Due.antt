-- ===== src/Client/AsyncRpcClient/Due.antt =====
-- The tasks of czrpc/client/async_rpc_client.hpp whose calls have timed out by some time.
use czrpc.Prelude.{
  ℕ, ◌+◌, ◌≤◌, List, [], ◌∷◌, ℕ_discrete, ◌≡◌, refl, ap, arith, All, Option-cases, inl, inr,
}
use czrpc.Base.Map
use czrpc.Base.Map.{Map}
use czrpc.Client.AsyncRpcClient as AsyncRpcClient
use czrpc.Client.AsyncRpcClient.{
  TaskWithTimepoint, AsyncRpcClient, Output, Event, responds, expire, finish_route, find_task,
  route, call, check_request_timeout, new_client,
}
use czrpc.Client.AsyncRpcClient.Tasks.{dispatches, waiting, waiting-for_each_erase}

-- The time of every call lies so far back that it has timed out by `now`.
abbrev pub CalledBy : ℕ → ℕ → List Event → Type 0
CalledBy timeout now [] = Unit {0}
CalledBy timeout now (AsyncRpcClient.calls func_name body task begin ∷ es) =
    (begin + timeout ≤ now) × CalledBy timeout now es
CalledBy timeout now (e ∷ es) = CalledBy timeout now es

module _ (timeout now : ℕ) where
  abbrev AreDue : Map ℕ TaskWithTimepoint → Type 0
  AreDue = All (λ e. e.1.begin_time + timeout ≤ now)

  emplace-AreDue :
      (k : ℕ) (e : TaskWithTimepoint) (m : Map ℕ TaskWithTimepoint)
      → e.begin_time + timeout ≤ now
      → AreDue m
      → AreDue (Map.emplace ℕ_discrete k e m)
  unfolding Map.emplace
  emplace-AreDue k e m h d = ground arith

  erase-AreDue :
      (k : ℕ) (m : Map ℕ TaskWithTimepoint) → AreDue m → AreDue (Map.erase ℕ_discrete k m)
  unfolding Map.erase
  erase-AreDue k [] d = tt
  erase-AreDue k ((j, e) ∷ m) d = ground (arith, erase-AreDue k m d.1)

  module _ (garbage : ℕ) where
    for_each_erase-AreDue :
        (other : ℕ) (m : Map ℕ TaskWithTimepoint)
        → AreDue m
        → AreDue (Map.for_each_erase (expire timeout other garbage) m).0
    unfolding Map.for_each_erase
    for_each_erase-AreDue other [] d = tt
    for_each_erase-AreDue other ((k, e) ∷ m) d = ground (arith, for_each_erase-AreDue other m d.1)

    all_expired :
        (m : Map ℕ TaskWithTimepoint)
        → AreDue m
        → (Map.for_each_erase (expire timeout now garbage) m).0 ≡ []
    unfolding Map.for_each_erase
    all_expired [] d = refl
    all_expired ((k, e) ∷ m) d = ground (arith, all_expired m d.1)

  pub record IsDue (c : AsyncRpcClient) : Type 0 where
    pub due : AreDue c.task_map
    pub timed : c.request_timeout ≡ timeout

  pub step-IsDue :
      (e : Event) (c : AsyncRpcClient)
      → CalledBy timeout now (e ∷ [])
      → IsDue c
      → IsDue (AsyncRpcClient.step e c).0
  unfolding AsyncRpcClient.step
  step-IsDue (AsyncRpcClient.calls func_name body task begin) c b d = record {
    due = emplace-AreDue _ _ c.task_map b.0 d.due;
    timed = d.timed;
  }
  step-IsDue (responds content) c b d =
      elim (Option-cases (Map.find ℕ_discrete content.call_id c.task_map)) [
        | inl n ↦ rw (n, finish_route) d
        | inr (v, n) ↦
            rw (n, finish_route)
              (record { due = erase-AreDue content.call_id c.task_map d.due; timed = d.timed })
      ]
  step-IsDue (AsyncRpcClient.ticks other garbage) c b d = record {
    due = rw d.timed (for_each_erase-AreDue garbage other c.task_map d.due);
    timed = d.timed;
  }
  step-IsDue AsyncRpcClient.starts c b d = record { due = tt; timed = d.timed }

-- The check at `now` leaves none of the tasks that are due.
pub last_tick :
    (timeout now garbage t : ℕ) (c : AsyncRpcClient)
    → IsDue timeout now c
    → waiting t c.task_map ≡ dispatches t (check_request_timeout now garbage c).1
unfolding check_request_timeout
last_tick timeout now garbage t c d = rw d.timed (
    omega (
      arith,
      waiting-for_each_erase timeout now garbage t c.task_map,
      ap (waiting t) (all_expired timeout now garbage c.task_map d.due),
    ))
