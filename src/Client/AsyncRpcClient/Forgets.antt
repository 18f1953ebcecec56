-- ===== src/Client/AsyncRpcClient/Forgets.antt =====
-- `start` of czrpc/client/async_rpc_client.hpp when a connection comes about anew.
use czrpc.Prelude.{ℕ, List, [], ◌∷◌, ◌++◌, ◌≡◌, refl, arith, ◌∙◌, ap}
use czrpc.Base.Map
use czrpc.Client.AsyncRpcClient.{
  AsyncRpcClient, Event, calls, responds, ticks, starts, start, route, find_task, finish_route,
  check_request_timeout, expire, step, run,
}

-- No call is made.
abbrev pub NoCalls : List Event → Type 0
NoCalls [] = Unit {0}
NoCalls (calls func_name body task now ∷ es) = ⊥
NoCalls (e ∷ es) = NoCalls es

idle_tick :
    (now garbage : ℕ) (c : AsyncRpcClient)
    → c.task_map ≡ []
    → ((check_request_timeout now garbage c).1 ≡ [])
      × ((check_request_timeout now garbage c).0.task_map ≡ [])
unfolding check_request_timeout Map.for_each_erase
idle_tick now garbage c e = (
  ap (λ m. (Map.for_each_erase (expire c.request_timeout now garbage) m).1) e,
  ap (λ m. (Map.for_each_erase (expire c.request_timeout now garbage) m).0) e,
)

idle_run :
    (events : List Event) (c : AsyncRpcClient)
    → NoCalls events
    → c.task_map ≡ []
    → (run events c).1 ≡ []
unfolding run step start route find_task finish_route Map.find Map.clear
idle_run [] c n e = refl
idle_run (calls f b t now ∷ es) c n e = absurd n
idle_run (responds content ∷ es) c n e = ground (arith, idle_run es c n e)
idle_run (ticks now garbage ∷ es) c n e =
    let (no_outputs, idle) = idle_tick now garbage c e in
    ap (λ outputs. outputs ++ (run es (check_request_timeout now garbage c).0).1) no_outputs
    ∙ idle_run es (check_request_timeout now garbage c).0 n idle
idle_run (starts ∷ es) c n e = ground (arith, idle_run es (start c) n refl)

-- When a connection comes about anew, the tasks of the calls that wait are never given to the thread
-- pool: as long as no other call is made, no response and no timeout gives any task to it.
pub start_forgets :
    (events : List Event) (c : AsyncRpcClient) → NoCalls events → (run (starts ∷ events) c).1 ≡ []
unfolding run step start Map.clear
start_forgets events c n = idle_run events (start c) n refl
