-- ===== src/System/AsyncCalls/Routed.antt =====
-- The responses to many asynchronous calls, as `route` of czrpc/client/async_rpc_client.hpp takes them.
use czrpc.Prelude.{
  ℕ, zero, suc, ◌+◌, ◌<◌, ◌≤◌, Bytes, List, [], ◌∷◌, ◌++◌, map, some, length, take, drop,
  ℕ_discrete, ◌≡◌, ◌≢◌, refl, ap, ◌∙◌, arith,
}
use mathlib.Core.Path.{subst}
use czrpc.Base.Protocol.{ResponseContent}
use czrpc.Base.Map
use czrpc.Base.Map.Laws.{find-erase}
use czrpc.Server.RpcMessage.{ok_content}
use czrpc.Client.AsyncRpcClient as AsyncRpcClient
use czrpc.Client.AsyncRpcClient.{
  AsyncRpcClient, Output, dispatch, responds, find_task, finish_route,
}
use czrpc.System.AsyncCalls.{Call, numbered, task_of, AreWaiting}

pub numbered-take :
    (m last : ℕ) (calls : List Call) → take m (numbered last calls) ≡ numbered last (take m calls)
numbered-take zero last calls = refl
numbered-take (suc m) last [] = refl
numbered-take (suc m) last (call ∷ calls) =
    ap (◌∷◌ (suc last, call)) (numbered-take m (suc last) calls)

pub AreWaiting-take :
    (m last : ℕ) (calls : List Call) (c : AsyncRpcClient)
    → AreWaiting c (numbered last calls)
    → AreWaiting c (numbered last (take m calls))
AreWaiting-take zero last calls c h = tt
AreWaiting-take (suc m) last [] c h = tt
AreWaiting-take (suc m) last (call ∷ calls) c h = (h.0, AreWaiting-take m (suc last) calls c h.1)

AreWaiting-same :
    (last : ℕ) (calls : List Call) (c c' : AsyncRpcClient)
    → AreWaiting c (numbered last calls)
    → ((j : ℕ) → last < j → find_task j c' ≡ find_task j c)
    → AreWaiting c' (numbered last calls)
AreWaiting-same last [] c c' h keeps = tt
AreWaiting-same last (call ∷ calls) c c' h keeps = (
  keeps (suc last) (omega arith) ∙ h.0,
  AreWaiting-same (suc last) calls c c' h.1 (λ j later. keeps j (omega (arith, later))),
)

-- The calls behind the first `m` wait still, in a client that has kept what was later.
pub AreWaiting-drop :
    (m last n : ℕ) (calls : List Call) (c c' : AsyncRpcClient)
    → n ≡ last + m
    → AreWaiting c (numbered last calls)
    → ((j : ℕ) → last + length (take m calls) < j → find_task j c' ≡ find_task j c)
    → AreWaiting c' (numbered n (drop m calls))
AreWaiting-drop zero last n calls c c' e h keeps =
    subst (λ k. AreWaiting c' (numbered k calls)) (omega (arith, e))
      (AreWaiting-same last calls c c' h (λ j later. keeps j (omega (arith, later))))
AreWaiting-drop (suc m) last n [] c c' e h keeps = tt
AreWaiting-drop (suc m) last n (call ∷ calls) c c' e h keeps =
    AreWaiting-drop m (suc last) n calls c c' (omega (arith, e)) h.1
      (λ j later. keeps j (omega (arith, later)))

module _ (out : Bytes → Bytes → Bytes) where
  -- The response to a call, whose body the server computes by `out`.
  abbrev pub answer_of : ℕ × Call → ResponseContent
  answer_of (call_id, call) = ok_content call_id [] (out call.func_name call.body)

  abbrev pub route_all : List ResponseContent → AsyncRpcClient → AsyncRpcClient × List Output
  route_all rs c = AsyncRpcClient.run (map responds rs) c

  abbrev routed : ℕ × Call → AsyncRpcClient → AsyncRpcClient
  routed x c = (AsyncRpcClient.step (responds (answer_of x)) c).0

  route_found :
      (x : ℕ × Call) (c : AsyncRpcClient)
      → find_task x.0 c ≡ some (task_of x.1)
      → AsyncRpcClient.step (responds (answer_of x)) c ≡ (
        record c { task_map = Map.erase ℕ_discrete x.0 c.task_map },
        dispatch x.1.task (answer_of x) ∷ [],
      )
  unfolding AsyncRpcClient.step AsyncRpcClient.route finish_route
  route_found x c h = ground (arith, h)

  find_task-routed :
      (x : ℕ × Call) (c : AsyncRpcClient) (j : ℕ)
      → find_task x.0 c ≡ some (task_of x.1)
      → j ≢ x.0
      → find_task j (routed x c) ≡ find_task j c
  unfolding find_task
  find_task-routed x c j h other =
      ap (λ (r : AsyncRpcClient × List Output). find_task j r.0) (route_found x c h)
      ∙ find-erase ℕ_discrete x.0 j c.task_map
      ∙ ground (arith, other)

  AreWaiting-routed :
      (x : ℕ × Call) (last : ℕ) (calls : List Call) (c : AsyncRpcClient)
      → find_task x.0 c ≡ some (task_of x.1)
      → x.0 ≤ last
      → AreWaiting c (numbered last calls)
      → AreWaiting (routed x c) (numbered last calls)
  AreWaiting-routed x last [] c h older w = tt
  AreWaiting-routed x last (call ∷ calls) c h older w = (
    find_task-routed x c (suc last) h (omega arith) ∙ w.0,
    AreWaiting-routed x (suc last) calls c h (omega arith) w.1,
  )

  -- The responses to calls that wait give each call's task to the thread pool, once, with its own
  -- response, and later calls go on waiting.
  pub all_routed :
      (last : ℕ) (calls : List Call) (c : AsyncRpcClient)
      → AreWaiting c (numbered last calls)
      → let (c', outputs) = route_all (map answer_of (numbered last calls)) c in
        (outputs ≡ map (λ x. dispatch x.1.task (answer_of x)) (numbered last calls))
        × ((j : ℕ) → last + length calls < j → find_task j c' ≡ find_task j c)
  unfolding AsyncRpcClient.run
  all_routed last [] c w = (refl, λ j later. refl)
  all_routed last (call ∷ calls) c w =
      let x : ℕ × Call = (suc last, call) in
      let c1 = routed x c in
      let (outputs, keeps) =
        all_routed (suc last) calls c1
          (AreWaiting-routed x (suc last) calls c w.0 (omega arith) w.1) in
      (
        ap
              (λ (r : AsyncRpcClient × List Output).
                r.1 ++ (route_all (map answer_of (numbered (suc last) calls)) c1).1)
              (route_found x c w.0)
            ∙ ap (◌∷◌ (dispatch call.task (answer_of x))) outputs,
        λ j later.
            keeps j (omega (arith, later)) ∙ find_task-routed x c j w.0 (omega (arith, later)),
      )
