-- ===== src/Tests/ClientTests.antt =====
-- The client at concrete inputs.
use czrpc.Prelude.{codes, true, List, [], ◌∷◌, ◌++◌, ◌≡◌, ◌≤◌, refl, arith, ℕ_discrete}
use czrpc.Base.Map
use czrpc.Base.Queue
use czrpc.Client.SendQueue.{no_writes, posts, written, fails}
use czrpc.Client.SendQueue as SendQueue
use czrpc.Client.SendQueue.Order.{run-resends}
use czrpc.Client.AsyncRpcClient as AsyncRpcClient
use czrpc.Client.AsyncRpcClient.{
  AsyncRpcClient, TaskWithTimepoint, Event, calls, responds, ticks, dispatch, new_client,
  check_request_timeout, find_task, finish_route,
}
use czrpc.Client.AsyncRpcClient.Threads as Threads
use czrpc.Client.AsyncRpcClient.Tasks.{dispatches}
use czrpc.Client.AsyncRpcClient.Deadline.{every_task_dispatched}
use czrpc.Client.AsyncRpcClient.Forgets.{start_forgets}
use czrpc.Client.AsyncRpcClient.Race.{response_races_timeout}
use czrpc.Tests.Sample.{echo_response}

abbrev broken_write : List SendQueue.Event
broken_write = posts (codes "a") ∷ fails ∷ posts (codes "b") ∷ written ∷ []

run-resends_example :
    ((SendQueue.run broken_write (no_writes true)).sent
        ++ (SendQueue.run broken_write (no_writes true)).send_queue
      ≡ codes "a" ∷ codes "b" ∷ [])
    × ((SendQueue.run broken_write (no_writes true)).in_flight
        ≡ Queue.front (SendQueue.run broken_write (no_writes true)).send_queue)
unfolding Queue.front
run-resends_example =
    run-resends broken_write (no_writes true) (record { on = refl; sending = refl })

-- The second call is made while the response to the first is routed.
abbrev two_calls : List Threads.Step
two_calls =
    Threads.calls (codes "f") (codes "x") 1 0
    ∷ Threads.finds (record echo_response { call_id = 1 })
    ∷ Threads.calls (codes "g") (codes "y") 2 5
    ∷ Threads.finishes
    ∷ Threads.ticks 12 0
    ∷ []

every_task_dispatched_example :
    let (s, outputs) = Threads.run two_calls (Threads.idle (new_client 10)) in
    dispatches 2 (outputs ++ (check_request_timeout 20 0 s.client).1) ≡ 1
every_task_dispatched_example =
    every_task_dispatched two_calls 10 20 0 2 tt tt (omega arith) (omega arith, (omega arith, tt))

abbrev waiting_task : TaskWithTimepoint
waiting_task = record { task = 1; begin_time = 0 }

abbrev one_waiting : AsyncRpcClient
one_waiting = record { task_map = (7, waiting_task) ∷ []; call_id = 7; request_timeout = 10 }

response_races_timeout_example :
    2
    ≤ dispatches 1 (
        (check_request_timeout 10 0 one_waiting).1
        ++ (finish_route echo_response
            (find_task 7 one_waiting)
            (check_request_timeout 10 0 one_waiting).0).1)
unfolding find_task Map.find ℕ_discrete
response_races_timeout_example =
    response_races_timeout echo_response 10 0 waiting_task one_waiting refl (omega arith)

start_forgets_example :
    (AsyncRpcClient.run
      (AsyncRpcClient.starts ∷ responds echo_response ∷ ticks 50 0 ∷ [])
      one_waiting).1
    ≡ []
start_forgets_example = start_forgets (responds echo_response ∷ ticks 50 0 ∷ []) one_waiting tt
