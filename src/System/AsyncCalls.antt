-- ===== src/System/AsyncCalls.antt =====
-- Many asynchronous calls with raw data of one client, `async_call_raw(...).result(task)` of
-- czrpc/client/async_rpc_client.hpp, and the responses that it routes.
pub mod Routed
pub mod Served
pub mod Frames
pub mod Stages
pub mod Answered
use czrpc.Prelude.{
  ℕ, zero, suc, ◌+◌, ◌%◌, ◌<◌, ◌≤◌, Bytes, List, [], ◌∷◌, ◌++◌, map, none, some, length, take,
  ℕ_discrete, All, ◌≡◌, ◌≢◌, refl, ap, ◌∙◌, arith, ite,
}
use mathlib.Core.Path.{subst}
use czrpc.Base.ClientType
use czrpc.Base.SerializeMode
use czrpc.Base.Protocol.{RequestContent, ResponseContent}
use czrpc.Base.Map
use czrpc.Base.Map.Laws.{find-emplace}
use czrpc.Wire.Word.{u32_mod}
use czrpc.Client.AsyncRpcClient as AsyncRpcClient
use czrpc.Client.AsyncRpcClient.{
  AsyncRpcClient, TaskWithTimepoint, Output, write, Event, next_call_id, async_call_raw,
  add_bind_func, result, find_task,
}

-- A call, the task of its result, and the time of it.
pub record Call : Type 0 where
  pub func_name : Bytes
  pub body : Bytes
  pub task : ℕ
  pub now : ℕ

abbrev event : Call → Event
event call = AsyncRpcClient.calls call.func_name call.body call.task call.now

-- The client makes the calls one after the other.
abbrev pub make_calls : List Call → AsyncRpcClient → AsyncRpcClient × List Output
make_calls calls c = AsyncRpcClient.run (map event calls) c

abbrev pub content_of : ℕ → Call → RequestContent
content_of call_id call = record {
  call_id = call_id;
  flag = record { mode = SerializeMode.non_serialize; type = ClientType.async_rpc_client };
  protocol = call.func_name;
  message_name = [];
  body = call.body;
}

-- The calls under the ids that follow the last one.
abbrev pub numbered : ℕ → List Call → List (ℕ × Call)
numbered last [] = []
numbered last (call ∷ calls) = (suc last, call) ∷ numbered (suc last) calls

abbrev pub request_of : ℕ × Call → RequestContent
request_of (call_id, call) = content_of call_id call

abbrev pub task_of : Call → TaskWithTimepoint
task_of call = record { task = call.task; begin_time = call.now }

-- No call waits under an id that has not been given.
abbrev pub IsCounting : AsyncRpcClient → Type 0
IsCounting c = (j : ℕ) → c.call_id < j → find_task j c ≡ none

module _ (call : Call) (c : AsyncRpcClient) (small : suc c.call_id < u32_mod) where
  abbrev called : AsyncRpcClient
  called = (AsyncRpcClient.step (event call) c).0

  next_id : (c.call_id + 1) % u32_mod ≡ suc c.call_id
  next_id = omega arith

  called-call_id : called.call_id ≡ suc c.call_id
  unfolding AsyncRpcClient.step AsyncRpcClient.call async_call_raw next_call_id result add_bind_func
  called-call_id = next_id

  called_writes :
      (AsyncRpcClient.step (event call) c).1 ≡ write (content_of (suc c.call_id) call) ∷ []
  unfolding AsyncRpcClient.step AsyncRpcClient.call async_call_raw next_call_id result add_bind_func
  called_writes = ap (λ n. write (content_of n call) ∷ []) next_id

  find_task-called :
      (j : ℕ)
      → find_task j called ≡ elim (find_task j c) [
        | none ↦ ite (ℕ_discrete (suc c.call_id) j) (some (task_of call)) none
        | some t ↦ some t
      ]
  unfolding AsyncRpcClient.step AsyncRpcClient.call async_call_raw next_call_id result add_bind_func
      find_task
  find_task-called j =
      ap (λ n. Map.find ℕ_discrete j (Map.emplace ℕ_discrete n (task_of call) c.task_map)) next_id
      ∙ find-emplace ℕ_discrete (suc c.call_id) j (task_of call) c.task_map

  called-IsCounting : IsCounting c → IsCounting called
  called-IsCounting h j later = find_task-called j ∙ ground (arith, h j, called-call_id)

  called_keeps : (j : ℕ) → j ≤ c.call_id → find_task j called ≡ find_task j c
  called_keeps j old = find_task-called j ∙ ground arith

  called_waits : IsCounting c → find_task (suc c.call_id) called ≡ some (task_of call)
  called_waits h = find_task-called (suc c.call_id) ∙ ground (arith, h (suc c.call_id))

-- The calls of a list wait under their ids.
abbrev pub AreWaiting : AsyncRpcClient → List (ℕ × Call) → Type 0
AreWaiting c = All (λ x. find_task x.0 c ≡ some (task_of x.1))

calls_keep :
    (calls : List Call) (c : AsyncRpcClient) (j : ℕ)
    → c.call_id + length calls < u32_mod
    → j ≤ c.call_id
    → find_task j (make_calls calls c).0 ≡ find_task j c
unfolding AsyncRpcClient.run
calls_keep [] c j small old = refl
calls_keep (call ∷ calls) c j small old =
    let first : suc c.call_id < u32_mod = omega arith in
    let counted = called-call_id call c first in
    calls_keep calls (called call c first) j (omega arith) (omega arith)
    ∙ called_keeps call c first j old

-- What the calls write.
pub calls_write :
    (calls : List Call) (c : AsyncRpcClient)
    → c.call_id + length calls < u32_mod
    → (make_calls calls c).1 ≡ map (λ x. write (request_of x)) (numbered c.call_id calls)
unfolding AsyncRpcClient.run
calls_write [] c small = refl
calls_write (call ∷ calls) c small =
    let first : suc c.call_id < u32_mod = omega arith in
    let counted = called-call_id call c first in
    let later = calls_write calls (called call c first) (omega arith) in
    ap (λ os. os ++ (make_calls calls (called call c first)).1) (called_writes call c first)
    ∙ ap (◌∷◌ (write (content_of (suc c.call_id) call)))
        (later ∙ ap (λ n. map (λ x. write (request_of x)) (numbered n calls)) counted)

-- Each call waits when all have been made.
pub calls_wait :
    (calls : List Call) (c : AsyncRpcClient)
    → c.call_id + length calls < u32_mod
    → IsCounting c
    → AreWaiting (make_calls calls c).0 (numbered c.call_id calls)
unfolding AsyncRpcClient.run
calls_wait [] c small h = tt
calls_wait (call ∷ calls) c small h =
    let first : suc c.call_id < u32_mod = omega arith in
    let counted = called-call_id call c first in
    let c' = called call c first in
    (
      calls_keep calls c' (suc c.call_id) (omega arith) (omega arith) ∙ called_waits call c first h,
      subst (λ n. AreWaiting (make_calls calls c').0 (numbered n calls)) counted
          (calls_wait calls c' (omega arith) (called-IsCounting call c first h)),
    )
