-- ===== src/Client/AsyncRpcClient/Race.antt =====
-- `route` looks for the task and erases it in two steps, and the timer runs on a thread of its own.
use czrpc.Prelude.{ℕ, ◌+◌, ◌≤◌, [], ◌∷◌, ◌++◌, some, ℕ_discrete, ◌≡◌, arith}
use czrpc.Base.Protocol.{ResponseContent}
use czrpc.Base.Map
use czrpc.Base.Map.{Map}
use czrpc.Client.AsyncRpcClient.{
  TaskWithTimepoint, AsyncRpcClient, dispatch, find_task, finish_route, check_request_timeout,
  expire,
}
use czrpc.Client.AsyncRpcClient.Tasks.{dispatches, dispatches-append}

expired_dispatched :
    (timeout now garbage k : ℕ) (e : TaskWithTimepoint) (m : Map ℕ TaskWithTimepoint)
    → Map.find ℕ_discrete k m ≡ some e
    → e.begin_time + timeout ≤ now
    → 1 ≤ dispatches e.task (Map.for_each_erase (expire timeout now garbage) m).1
unfolding Map.find Map.for_each_erase
expired_dispatched timeout now garbage k e [] f h = absurd (cc)
expired_dispatched timeout now garbage k e ((j, d) ∷ m) f h =
    ground (arith, expired_dispatched timeout now garbage k e m)

-- If the timer's thread checks for timeouts between the two steps of `route`, for a response that
-- comes when its call has just timed out, then the one task of the call is given to the thread pool
-- twice, or more often: for the timeout, and for the response.
pub response_races_timeout :
    (content : ResponseContent) (now garbage : ℕ) (e : TaskWithTimepoint) (c : AsyncRpcClient)
    → find_task content.call_id c ≡ some e
    → e.begin_time + c.request_timeout ≤ now
    → let (c', timed_out) = check_request_timeout now garbage c in
      let (end, answered) = finish_route content (find_task content.call_id c) c' in
      2 ≤ dispatches e.task (timed_out ++ answered)
unfolding find_task finish_route check_request_timeout
response_races_timeout content now garbage e c f h = ground (
  arith,
  expired_dispatched c.request_timeout now garbage content.call_id e c.task_map f h,
  dispatches-append e.task (Map.for_each_erase (expire c.request_timeout now garbage) c.task_map).1
      (dispatch e.task content ∷ []),
)
