-- ===== src/Client/AsyncRpcClient/Threads.antt =====
-- `async_rpc_client` of czrpc/client/async_rpc_client.hpp with its threads apart: callers, the thread of
-- the io_service, which alone runs `route`, and the thread of the timer. Each method of `task_map_` holds
-- its mutex; `route` calls two of them, and another thread may run between. A call is one step: the id that
-- it takes is its own, and the one access of the table is that which binds the task.
use czrpc.Prelude.{ℕ, Bytes, Bool, true, false, List, [], ◌∷◌, ◌++◌, Option, none, some}
use czrpc.Base.Protocol.{ResponseContent}
use czrpc.Client.AsyncRpcClient.{
  AsyncRpcClient, TaskWithTimepoint, Output, Event, find_task, finish_route, call,
  check_request_timeout, start,
}
use czrpc.Client.AsyncRpcClient as AsyncRpcClient

pub record ClientThreads : Type 0 where
  pub client : AsyncRpcClient
  -- the response that `route` has looked up, and what it found
  pub routing : Option (ResponseContent × Option TaskWithTimepoint)

abbrev pub idle : AsyncRpcClient → ClientThreads
idle c = record { client = c; routing = none }

pub data Step : Type 0 where
  -- `async_call_raw(func_name, body).result(task)` at a time
  calls : Bytes → Bytes → ℕ → ℕ → Step
  -- `task_map_.find` of `route`
  finds : ResponseContent → Step
  -- the rest of `route`: `task_map_.erase` and `add_task`
  finishes : Step
  ticks : ℕ → ℕ → Step
  starts : Step

unfoldable pub finish :
    Option (ResponseContent × Option TaskWithTimepoint)
    → AsyncRpcClient
    → AsyncRpcClient × List Output
finish none c = (c, [])
finish (some (content, found)) c = finish_route content found c

-- The one thread of the io_service begins no `route` before the last one has ended: a step that would do
-- so does nothing.
unfoldable pub find : ResponseContent → ClientThreads → ClientThreads
find content s = elim s.routing [
  | none ↦ record s { routing = some (content, find_task content.call_id s.client) }
  | some r ↦ s
]

-- A step that changes the client alone.
abbrev pub alone :
    Option (ResponseContent × Option TaskWithTimepoint)
    → AsyncRpcClient × List Output
    → ClientThreads × List Output
alone routing (c, outputs) = (record { client = c; routing = routing }, outputs)

unfoldable pub step : Step → ClientThreads → ClientThreads × List Output
unfolding finish find
step (calls func_name body task now) s = alone s.routing (call func_name body task now s.client)
step (finds content) s = (find content s, [])
step finishes s = alone none (finish s.routing s.client)
step (ticks now garbage) s = alone s.routing (check_request_timeout now garbage s.client)
step starts s = alone s.routing (start s.client, [])

unfoldable pub run : List Step → ClientThreads → ClientThreads × List Output
run [] s = (s, [])
run (x ∷ xs) s =
    let (s', outputs) = step x s in let (end, later) = run xs s' in (end, outputs ++ later)

-- The calls, the checks and the new connections of a schedule.
abbrev pub events_of : List Step → List Event
events_of [] = []
events_of (calls func_name body task now ∷ xs) =
    AsyncRpcClient.calls func_name body task now ∷ events_of xs
events_of (ticks now garbage ∷ xs) = AsyncRpcClient.ticks now garbage ∷ events_of xs
events_of (starts ∷ xs) = AsyncRpcClient.starts ∷ events_of xs
events_of (x ∷ xs) = events_of xs

-- The timer does not check between the two halves of a `route`, and each `route` ends. The first argument
-- says whether a `route` is under way.
abbrev pub AreApart : Bool → List Step → Type 0
AreApart false [] = Unit {0}
AreApart true [] = ⊥
AreApart true (ticks now garbage ∷ xs) = ⊥
AreApart under_way (finds content ∷ xs) = AreApart true xs
AreApart under_way (finishes ∷ xs) = AreApart false xs
AreApart under_way (x ∷ xs) = AreApart under_way xs
