-- ===== src/Client/AsyncRpcClient/Deadline.antt =====
-- `check_request_timeout` of czrpc/client/async_rpc_client.hpp over whole histories of calls.
use mathlib.Core.Path.{subst}
use czrpc.Base.Protocol.{ResponseContent}
use czrpc.Base.Map.Laws.{find-emplace}
use czrpc.Prelude.{
  Bytes, Bool, true, false, Option, none, some, ◌⊎◌, ◌∙◌, sym, ℕ, ◌+◌, ◌≤◌, ◌<◌, List, [], ◌∷◌,
  ◌++◌, ℕ_discrete, ◌≡◌, refl, ap, arith, Option-cases, inl, inr,
}
use czrpc.Wire.Word.{u32_mod}
use czrpc.Client.AsyncRpcClient as AsyncRpcClient
use czrpc.Client.AsyncRpcClient.{
  TaskWithTimepoint, AsyncRpcClient, Output, Event, responds, expire, finish_route, find_task,
  route, call, check_request_timeout, new_client,
}
use czrpc.Client.AsyncRpcClient.Threads.{
  ClientThreads, idle, Step, calls, finds, finishes, ticks, starts, find, finish, step, run,
  events_of, AreApart,
}
use czrpc.Client.AsyncRpcClient.Tasks.{
  dispatches, dispatches-append, waiting, bound, call_count, NoStarts, IsFresh, call_step,
  route_step, tick_step,
}
use czrpc.Client.AsyncRpcClient.Due.{CalledBy, IsDue, step-IsDue, last_tick}

-- The clauses of `AreApart` for both values of its first argument.
apart_calls :
    (func_name body : Bytes) (task begin : ℕ) (under_way : Bool) (xs : List Step)
    → AreApart under_way (calls func_name body task begin ∷ xs)
    → AreApart under_way xs
apart_calls func_name body task begin false xs a = a
apart_calls func_name body task begin true xs a = a

apart_finds :
    (content : ResponseContent) (under_way : Bool) (xs : List Step)
    → AreApart under_way (finds content ∷ xs)
    → AreApart true xs
apart_finds content false xs a = a
apart_finds content true xs a = a

apart_finishes :
    (under_way : Bool) (xs : List Step) → AreApart under_way (finishes ∷ xs) → AreApart false xs
apart_finishes false xs a = a
apart_finishes true xs a = a

found_client : (content : ResponseContent) (s : ClientThreads) → (find content s).client ≡ s.client
unfolding find
found_client content s = ground arith

module _ (timeout now t : ℕ) where
  -- The client is in order, the tasks are due, and what a `route` has found is still there.
  record IsInOrder (under_way : Bool) (s : ClientThreads) : Type 0 where
    fresh : IsFresh s.client
    due : IsDue timeout now s.client
    kept :
        (content : ResponseContent) (e : TaskWithTimepoint)
        → s.routing ≡ some (content, some e)
        → find_task content.call_id s.client ≡ some e
    idle_now : under_way ≡ false → s.routing ≡ none

  find_task-call :
      (func_name body : Bytes) (task begin k : ℕ) (e : TaskWithTimepoint) (c : AsyncRpcClient)
      → find_task k c ≡ some e
      → find_task k (call func_name body task begin c).0 ≡ some e
  unfolding call find_task
  find_task-call func_name body task begin k e c h =
      find-emplace ℕ_discrete _ k (record { task = task; begin_time = begin }) c.task_map
      ∙ rw h refl

  call-IsInOrder :
      (func_name body : Bytes) (task begin : ℕ) (under_way : Bool) (s : ClientThreads)
      → begin + timeout ≤ now
      → s.client.call_id + 1 < u32_mod
      → IsInOrder under_way s
      → IsInOrder under_way (step (calls func_name body task begin) s).0
  unfolding step AsyncRpcClient.step
  call-IsInOrder func_name body task begin under_way s b h o = record {
    fresh = (call_step t func_name body task begin s.client o.fresh h).2;
    due =
        step-IsDue timeout now (AsyncRpcClient.calls func_name body task begin) s.client (b, tt)
          o.due;
    kept = λ content e r.
        find_task-call func_name body task begin content.call_id e s.client (o.kept content e r);
    idle_now = o.idle_now;
  }

  find-IsInOrder :
      (content : ResponseContent) (under_way : Bool) (s : ClientThreads)
      → IsInOrder under_way s
      → IsInOrder true (step (finds content) s).0
  unfolding step
  find-IsInOrder content under_way s o = elim (Option-cases s.routing) [
    | inl n ↦ rw n (record {
      fresh = o.fresh;
      due = o.due;
      kept = λ d e r. ground arith;
      idle_now = λ e. absurd (cc);
    })
    | inr (v, n) ↦ rw n (record {
      fresh = o.fresh;
      due = o.due;
      kept = λ d e r. o.kept d e (n ∙ r);
      idle_now = λ e. absurd (cc);
    })
  ]

  -- The rest of `route` is `route` itself, or nothing, if what it found is still there.
  finish_cases :
      (r : Option (ResponseContent × Option TaskWithTimepoint)) (c : AsyncRpcClient)
      → ((content : ResponseContent) (e : TaskWithTimepoint)
          → r ≡ some (content, some e)
          → find_task content.call_id c ≡ some e)
      → (finish r c ≡ (c, [])) ⊎ ((content : ResponseContent) × (finish r c ≡ route content c))
  unfolding finish finish_route route
  finish_cases none c kept = inl refl
  finish_cases (some (content, none)) c kept = inl refl
  finish_cases (some (content, some e)) c kept =
      inr (content, sym (ap (λ o. finish_route content o c) (kept content e refl)))

  Finishes : ClientThreads → AsyncRpcClient × List Output → Type 0
  Finishes s (c, outputs) =
      IsInOrder false (record { client = c; routing = none })
      × (waiting t c.task_map + dispatches t outputs ≡ waiting t s.client.task_map)
      × (c.call_id ≡ s.client.call_id)

  finish-Finishes :
      (under_way : Bool) (s : ClientThreads)
      → IsInOrder under_way s
      → Finishes s (finish s.routing s.client)
  unfolding Finishes route AsyncRpcClient.step
  finish-Finishes under_way s o = elim (finish_cases s.routing s.client o.kept) [
    | inl e ↦ subst (Finishes s) (sym e) (
      record { fresh = o.fresh; due = o.due; kept = λ d x r. absurd (cc); idle_now = λ x. refl },
      omega arith,
      refl,
    )
    | inr (content, e) ↦
        let (counted, same, fresh) = route_step t content s.client o.fresh in
        subst (Finishes s) (sym e) (
          record {
            fresh = fresh;
            due = step-IsDue timeout now (responds content) s.client tt o.due;
            kept = λ d x r. absurd (cc);
            idle_now = λ x. refl;
          },
          counted,
          same,
        )
  ]

  tick-IsInOrder :
      (other garbage : ℕ) (s : ClientThreads)
      → IsInOrder false s
      → IsInOrder false (step (ticks other garbage) s).0
  unfolding step AsyncRpcClient.step
  tick-IsInOrder other garbage s o = record {
    fresh = (tick_step t other garbage s.client o.fresh).2;
    due = step-IsDue timeout now (AsyncRpcClient.ticks other garbage) s.client tt o.due;
    kept = λ d x r. ground (arith, o.idle_now refl);
    idle_now = o.idle_now;
  }

  -- What a schedule leaves: every task that has been bound has been given to the thread pool once, or
  -- waits, and all that waits is due.
  Counted : List Step → ClientThreads → ClientThreads × List Output → Type 0
  Counted xs s (end, outputs) =
      (waiting t end.client.task_map + dispatches t outputs
        ≡ waiting t s.client.task_map + bound t (events_of xs))
      × IsInOrder false end

  run-Counted :
      (xs : List Step) (under_way : Bool) (s : ClientThreads)
      → NoStarts (events_of xs)
      → AreApart under_way xs
      → CalledBy timeout now (events_of xs)
      → s.client.call_id + call_count (events_of xs) < u32_mod
      → IsInOrder under_way s
      → Counted xs s (run xs s)
  unfolding run step Counted Finishes
  run-Counted [] false s n a b h o = (omega arith, o)
  run-Counted [] true s n a b h o = absurd a
  run-Counted (calls func_name body task begin ∷ xs) under_way s n a b h o =
      let (kept, counted, fresh) =
        call_step t func_name body task begin s.client o.fresh (omega arith) in
      let s' = (step (calls func_name body task begin) s).0 in
      let (rest, end) =
        run-Counted xs under_way s' n (apart_calls func_name body task begin under_way xs a) b.1
          (omega arith)
          (call-IsInOrder func_name body task begin under_way s b.0 (omega arith) o) in
      (
        omega (
          arith,
          kept,
          rest,
          dispatches-append t (call func_name body task begin s.client).1 (run xs s').1,
        ),
        end,
      )
  run-Counted (finds content ∷ xs) under_way s n a b h o =
      let s' = (step (finds content) s).0 in
      let same = found_client content s in
      let (rest, end) =
        run-Counted xs true s' n (apart_finds content under_way xs a) b (rw same h)
          (find-IsInOrder content under_way s o) in
      (ground (arith, rest, same), end)
  run-Counted (finishes ∷ xs) under_way s n a b h o =
      let (order, counted, same) = finish-Finishes under_way s o in
      let s' = (step finishes s).0 in
      let (rest, end) =
        run-Counted xs false s' n (apart_finishes under_way xs a) b (omega arith) order in
      (
        omega
            (arith, counted, rest, dispatches-append t (finish s.routing s.client).1 (run xs s').1),
        end,
      )
  run-Counted (ticks other garbage ∷ xs) true s n a b h o = absurd a
  run-Counted (ticks other garbage ∷ xs) false s n a b h o =
      let (counted, same, fresh) = tick_step t other garbage s.client o.fresh in
      let s' = (step (ticks other garbage) s).0 in
      let (rest, end) =
        run-Counted xs false s' n a b (omega arith) (tick-IsInOrder other garbage s o) in
      (
        omega (
          arith,
          counted,
          rest,
          dispatches-append t (check_request_timeout other garbage s.client).1 (run xs s').1,
        ),
        end,
      )
  run-Counted (starts ∷ xs) under_way s n a b h o = absurd n

-- Let callers of a new client make less than 2^32 calls, let its io_service look up and finish any
-- responses, and let its timer check at any times, under any schedule in which the timer does not check
-- between the two halves of a `route`, while the connection holds. When it has checked once more, after all
-- calls have timed out, each task has been given to the thread pool exactly as often as it was bound to a
-- call.
pub every_task_dispatched :
    (steps : List Step) (timeout now garbage t : ℕ)
    → NoStarts (events_of steps)
    → AreApart false steps
    → call_count (events_of steps) < u32_mod
    → CalledBy timeout now (events_of steps)
    → let (s, outputs) = run steps (idle (new_client timeout)) in
      dispatches t (outputs ++ (check_request_timeout now garbage s.client).1)
      ≡ bound t (events_of steps)
unfolding Counted
every_task_dispatched steps timeout now garbage t n a few by =
    let (s, outputs) = run steps (idle (new_client timeout)) in
    let begun : IsInOrder timeout now t false (idle (new_client timeout)) = record {
      fresh = record { distinct = tt; below = tt };
      due = record { due = tt; timed = refl };
      kept = λ content e r. absurd (cc);
      idle_now = λ e. refl;
    } in
    let (counted, end) =
      run-Counted timeout now t steps false (idle (new_client timeout)) n a by (omega arith)
        begun in
    omega (
      arith,
      counted,
      last_tick timeout now garbage t s.client end.due,
      dispatches-append t outputs (check_request_timeout now garbage s.client).1,
    )
