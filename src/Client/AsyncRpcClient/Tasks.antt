-- ===== src/Client/AsyncRpcClient/Tasks.antt =====
-- The table of tasks of czrpc/client/async_rpc_client.hpp.
use czrpc.Prelude.{
  ℕ, suc, ◌+◌, ◌≤◌, ◌<◌, ◌%◌, Bytes, Bool, List, [], ◌∷◌, ◌++◌, Option, none, some, if◌then◌else◌,
  ◌==◌, ℕ_discrete, ◌≡◌, refl, sym, arith, All, inl, inr, Option-cases,
}
use czrpc.Base.Protocol.{ResponseContent}
use czrpc.Base.Map
use czrpc.Base.Map.{Map}
use czrpc.Base.Map.Laws.{IsMap, erase-IsMap, for_each_erase-IsMap}
use czrpc.Wire.Word.{u32_mod}
use czrpc.Client.AsyncRpcClient.{
  TaskWithTimepoint, AsyncRpcClient, Output, dispatch, write, Event, calls, responds, ticks, starts,
  expire, route, finish_route, check_request_timeout, call, step, run,
}

-- How often the task `t` is given to the thread pool.
abbrev pub dispatches : ℕ → List Output → ℕ
dispatches t [] = 0
dispatches t (dispatch u content ∷ rest) = (if u == t then 1 else 0) + dispatches t rest
dispatches t (write content ∷ rest) = dispatches t rest

-- How often it waits.
abbrev pub waiting : ℕ → Map ℕ TaskWithTimepoint → ℕ
waiting t [] = 0
waiting t ((k, e) ∷ m) = (if e.task == t then 1 else 0) + waiting t m

-- How often a history binds it to a call, and how many calls it makes.
abbrev pub bound : ℕ → List Event → ℕ
bound t [] = 0
bound t (calls func_name body task now ∷ es) = (if task == t then 1 else 0) + bound t es
bound t (e ∷ es) = bound t es

abbrev pub call_count : List Event → ℕ
call_count [] = 0
call_count (calls func_name body task now ∷ es) = suc (call_count es)
call_count (e ∷ es) = call_count es

-- The connection holds: nothing is forgotten.
abbrev pub NoStarts : List Event → Type 0
NoStarts [] = Unit {0}
NoStarts (starts ∷ es) = ⊥
NoStarts (e ∷ es) = NoStarts es

pub dispatches-append :
    (t : ℕ) (xs ys : List Output) → dispatches t (xs ++ ys) ≡ dispatches t xs + dispatches t ys
dispatches-append t [] ys = omega arith
dispatches-append t (dispatch u content ∷ xs) ys = omega (arith, dispatches-append t xs ys)
dispatches-append t (write content ∷ xs) ys = dispatches-append t xs ys

abbrev Below : ℕ → Map ℕ TaskWithTimepoint → Type 0
Below n m = All (λ e. e.0 ≤ n) m

find_above :
    (k n : ℕ) (m : Map ℕ TaskWithTimepoint) → Below n m → n < k → Map.find ℕ_discrete k m ≡ none
unfolding Map.find
find_above k n [] b h = refl
find_above k n ((j, e) ∷ m) b h = ground (arith, find_above k n m b.1 h)

Below-mono : (n p : ℕ) (m : Map ℕ TaskWithTimepoint) → n ≤ p → Below n m → Below p m
Below-mono n p [] h b = tt
Below-mono n p ((k, e) ∷ m) h b = (omega arith, Below-mono n p m h b.1)

erase-Below :
    (k n : ℕ) (m : Map ℕ TaskWithTimepoint) → Below n m → Below n (Map.erase ℕ_discrete k m)
unfolding Map.erase
erase-Below k n [] b = tt
erase-Below k n ((j, e) ∷ m) b = ground (arith, erase-Below k n m b.1)

abbrev found_as : ℕ → Option TaskWithTimepoint → ℕ
found_as t none = 0
found_as t (some e) = if e.task == t then 1 else 0

erase_absent :
    (t k : ℕ) (m : Map ℕ TaskWithTimepoint)
    → Map.find ℕ_discrete k m ≡ none
    → waiting t (Map.erase ℕ_discrete k m) ≡ waiting t m
unfolding Map.find Map.erase
erase_absent t k [] h = refl
erase_absent t k ((j, e) ∷ m) h = ground (arith, erase_absent t k m)

waiting-erase :
    (t k : ℕ) (m : Map ℕ TaskWithTimepoint)
    → IsMap ℕ_discrete m
    → waiting t m ≡ waiting t (Map.erase ℕ_discrete k m) + found_as t (Map.find ℕ_discrete k m)
unfolding Map.find Map.erase
waiting-erase t k [] h = refl
waiting-erase t k ((j, e) ∷ m) h = ground (arith, waiting-erase t k m h.1, erase_absent t k m)

module _ (timeout now garbage : ℕ) where
  abbrev expiring : ℕ → TaskWithTimepoint → Bool × List Output
  expiring = expire timeout now garbage

  pub waiting-for_each_erase :
      (t : ℕ) (m : Map ℕ TaskWithTimepoint)
      → waiting t m
        ≡ waiting t (Map.for_each_erase expiring m).0
          + dispatches t (Map.for_each_erase expiring m).1
  unfolding Map.for_each_erase
  waiting-for_each_erase t [] = refl
  waiting-for_each_erase t ((k, e) ∷ m) = ground (arith, waiting-for_each_erase t m)

  for_each_erase-Below :
      (n : ℕ) (m : Map ℕ TaskWithTimepoint) → Below n m → Below n (Map.for_each_erase expiring m).0
  unfolding Map.for_each_erase
  for_each_erase-Below n [] b = tt
  for_each_erase-Below n ((k, e) ∷ m) b = ground (arith, for_each_erase-Below n m b.1)

-- The keys are distinct, and no later than the last call id.
pub record IsFresh (c : AsyncRpcClient) : Type 0 where
  pub distinct : IsMap ℕ_discrete c.task_map
  pub below : Below c.call_id c.task_map

emplace_absent :
    (k : ℕ) (e : TaskWithTimepoint) (m : Map ℕ TaskWithTimepoint)
    → Map.find ℕ_discrete k m ≡ none
    → Map.emplace ℕ_discrete k e m ≡ (k, e) ∷ m
unfolding Map.emplace
emplace_absent k e m h = ground arith

module _ (t : ℕ) where
  pub call_step :
      (func_name body : Bytes) (task now : ℕ) (c : AsyncRpcClient)
      → IsFresh c
      → c.call_id + 1 < u32_mod
      → let (c', outputs) = call func_name body task now c in
        (waiting t c'.task_map + dispatches t outputs
          ≡ waiting t c.task_map + (if task == t then 1 else 0))
        × (c'.call_id ≡ c.call_id + 1)
        × IsFresh c'
  unfolding call
  call_step func_name body task now c f h =
      let wrap : (c.call_id + 1) % u32_mod ≡ c.call_id + 1 = omega arith in
      let absent = find_above (c.call_id + 1) c.call_id c.task_map f.below (omega arith) in
      let added =
        emplace_absent (c.call_id + 1) (record { task = task; begin_time = now }) c.task_map
          absent in
      rw (wrap, added)
        (
          omega arith,
          refl,
          record {
            distinct = (absent, f.distinct);
            below = (
              omega arith,
              Below-mono c.call_id (c.call_id + 1) c.task_map (omega arith) f.below,
            );
          },
        )

  pub route_step :
      (content : ResponseContent) (c : AsyncRpcClient)
      → IsFresh c
      → let (c', outputs) = route content c in
        (waiting t c'.task_map + dispatches t outputs ≡ waiting t c.task_map)
        × (c'.call_id ≡ c.call_id)
        × IsFresh c'
  unfolding route
  route_step content c f =
      let counted = waiting-erase t content.call_id c.task_map f.distinct in
      elim (Option-cases (Map.find ℕ_discrete content.call_id c.task_map)) [
        | inl e ↦ rw (e, finish_route) (omega arith, refl, f)
        | inr (v, e) ↦
            rw (e, finish_route)
              (
                ground (arith, counted),
                refl,
                record {
                  distinct = erase-IsMap ℕ_discrete content.call_id c.task_map f.distinct;
                  below = erase-Below content.call_id c.call_id c.task_map f.below;
                },
              )
      ]

  pub tick_step :
      (now garbage : ℕ) (c : AsyncRpcClient)
      → IsFresh c
      → let (c', outputs) = check_request_timeout now garbage c in
        (waiting t c'.task_map + dispatches t outputs ≡ waiting t c.task_map)
        × (c'.call_id ≡ c.call_id)
        × IsFresh c'
  unfolding check_request_timeout
  tick_step now garbage c f = (
    sym (waiting-for_each_erase c.request_timeout now garbage t c.task_map),
    refl,
    record {
      distinct =
          for_each_erase-IsMap ℕ_discrete (expire c.request_timeout now garbage) c.task_map
            f.distinct;
      below = for_each_erase-Below c.request_timeout now garbage c.call_id c.task_map f.below;
    },
  )

  -- As long as no connection comes about anew, and the call ids do not wrap, each task that has been
  -- bound to a call has been given to the thread pool once, or waits.
  pub run_counts :
      (events : List Event) (c : AsyncRpcClient)
      → NoStarts events
      → IsFresh c
      → c.call_id + call_count events < u32_mod
      → let (end, outputs) = run events c in
        waiting t end.task_map + dispatches t outputs ≡ waiting t c.task_map + bound t events
  unfolding run step
  run_counts [] c n f h = omega arith
  run_counts (calls func_name body task now ∷ es) c n f h =
      let (kept, counted, fresh) = call_step func_name body task now c f (omega arith) in
      let (c', outputs) = call func_name body task now c in
      let rest = run_counts es c' n fresh (omega arith) in
      omega (arith, dispatches-append t outputs (run es c').1, rest)
  run_counts (responds content ∷ es) c n f h =
      let (kept, counted, fresh) = route_step content c f in
      let (c', outputs) = route content c in
      let rest = run_counts es c' n fresh (omega arith) in
      omega (arith, dispatches-append t outputs (run es c').1, rest)
  run_counts (ticks now garbage ∷ es) c n f h =
      let (kept, counted, fresh) = tick_step now garbage c f in
      let (c', outputs) = check_request_timeout now garbage c in
      let rest = run_counts es c' n fresh (omega arith) in
      omega (arith, dispatches-append t outputs (run es c').1, rest)
  run_counts (starts ∷ es) c n f h = absurd n
