-- ===== src/Client/AsyncRpcClient.antt =====
-- `async_rpc_client` of czrpc/client/async_rpc_client.hpp: the calls that wait for an answer. A task is
-- known by a number; a task that is given to the thread pool, with the content that it is called
-- with, is an output, and so is a request that is written. `time(nullptr)` is an argument.
pub mod Tasks
pub mod Threads
pub mod Due
pub mod Deadline
pub mod Race
pub mod Forgets
pub mod Responses
use czrpc.Prelude.{
  ℕ, zero, suc, ◌+◌, ◌%◌, ◌^◌, Bytes, Bool, true, false, List, [], ◌∷◌, ◌++◌, Option, none, some,
  leb, if◌then◌else◌, ℕ_discrete, Result, ok, throw, runtime_error, ◌>>=◌, ◌>>◌,
}
use czrpc.Base.ClientType
use czrpc.Base.SerializeMode
use czrpc.Base.ErrorCode
use czrpc.Base.Protocol.{RequestContent, ResponseContent}
use czrpc.Base.Map
use czrpc.Base.Protobuf.{Protobuf}
use czrpc.Base.SerializeUtil.{MessagePtr, check_message, serialize}
use czrpc.Base.Map.{Map}
use czrpc.Wire.Word.{u32_mod}

pub record TaskWithTimepoint : Type 0 where
  pub task : ℕ
  pub begin_time : ℕ

pub record AsyncRpcClient : Type 0 where
  pub task_map : Map ℕ TaskWithTimepoint
  -- `std::atomic<unsigned int>`
  pub call_id : ℕ
  -- `time_t`, not negative
  pub request_timeout : ℕ

abbrev pub new_client : ℕ → AsyncRpcClient
new_client request_timeout = record {
  task_map = [];
  call_id = 0;
  request_timeout = request_timeout;
}

pub data Output : Type 0 where
  -- `threadpool_.add_task(task, content)`
  dispatch : ℕ → ResponseContent → Output
  -- `async_write` of a request
  write : RequestContent → Output

-- `++call_id_`
unfoldable pub next_call_id : AsyncRpcClient → AsyncRpcClient
next_call_id c = record c { call_id = (c.call_id + 1) % u32_mod }

unfoldable pub async_call_raw : Bytes → Bytes → AsyncRpcClient → AsyncRpcClient × RequestContent
unfolding next_call_id
async_call_raw func_name body c =
    let c' = next_call_id c in
    (
      c',
      record {
        call_id = c'.call_id;
        flag = record { mode = SerializeMode.non_serialize; type = ClientType.async_rpc_client };
        protocol = func_name;
        message_name = [];
        body = body;
      },
    )

unfoldable pub add_bind_func : ℕ → ℕ → ℕ → AsyncRpcClient → AsyncRpcClient
unfolding Map.emplace
add_bind_func call_id task now c = record c {
  task_map = Map.emplace ℕ_discrete call_id (record { task = task; begin_time = now }) c.task_map;
}

-- `rpc_task::result`: the task is bound first, and then the request is written.
unfoldable pub result : RequestContent → ℕ → ℕ → AsyncRpcClient → AsyncRpcClient × List Output
unfolding add_bind_func
result content task now c = (add_bind_func content.call_id task now c, write content ∷ [])

-- The first half of `route`: the look for the task.
unfoldable pub find_task : ℕ → AsyncRpcClient → Option TaskWithTimepoint
find_task call_id c = Map.find ℕ_discrete call_id c.task_map

-- The second half: the task is erased and given to the thread pool. One that is not found is logged.
unfoldable pub finish_route :
    ResponseContent → Option TaskWithTimepoint → AsyncRpcClient → AsyncRpcClient × List Output
finish_route content none c = (c, [])
finish_route content (some task_time) c = (
  record c { task_map = Map.erase ℕ_discrete content.call_id c.task_map },
  dispatch task_time.task content ∷ [],
)

unfoldable pub route : ResponseContent → AsyncRpcClient → AsyncRpcClient × List Output
unfolding find_task finish_route
route content c = finish_route content (find_task content.call_id c) c

-- The content that `check_request_timeout` makes: its call id is not initialised, so it is whatever
-- `garbage` is.
abbrev pub timeout_content : ℕ → ResponseContent
timeout_content garbage = record {
  call_id = garbage;
  code = ErrorCode.request_timeout;
  message_name = [];
  body = [];
}

-- `current_time - begin_time >= request_timeout_`
abbrev pub is_expired : ℕ → ℕ → TaskWithTimepoint → Bool
is_expired timeout now t = leb (t.begin_time + timeout) now

abbrev pub expire : ℕ → ℕ → ℕ → ℕ → TaskWithTimepoint → Bool × List Output
expire timeout now garbage k t =
    if is_expired timeout now t
    then (true, dispatch t.task (timeout_content garbage) ∷ [])
    else (false, [])

unfoldable pub check_request_timeout : ℕ → ℕ → AsyncRpcClient → AsyncRpcClient × List Output
unfolding Map.for_each_erase
check_request_timeout now garbage c =
    let (kept, outputs) = Map.for_each_erase (expire c.request_timeout now garbage) c.task_map in
    (record c { task_map = kept }, outputs)

-- `start`, when a connection has come about: all tasks are forgotten.
unfoldable pub start : AsyncRpcClient → AsyncRpcClient
unfolding Map.clear
start c = record c { task_map = Map.clear c.task_map }

-- What happens at a client while the timer does not check within a `route`: that is one event here. The
-- steps of its threads are in Client/AsyncRpcClient/Threads.
pub data Event : Type 0 where
  -- `async_call_raw(func_name, body).result(task)` at a time
  calls : Bytes → Bytes → ℕ → ℕ → Event
  responds : ResponseContent → Event
  ticks : ℕ → ℕ → Event
  starts : Event

unfoldable pub call : Bytes → Bytes → ℕ → ℕ → AsyncRpcClient → AsyncRpcClient × List Output
unfolding async_call_raw result
call func_name body task now c =
    let (c', content) = async_call_raw func_name body c in result content task now c'

unfoldable pub step : Event → AsyncRpcClient → AsyncRpcClient × List Output
unfolding call route check_request_timeout start
step (calls func_name body task now) c = call func_name body task now c
step (responds content) c = route content c
step (ticks now garbage) c = check_request_timeout now garbage c
step starts c = (start c, [])

unfoldable pub run : List Event → AsyncRpcClient → AsyncRpcClient × List Output
run [] c = (c, [])
run (e ∷ es) c =
    let (c', outputs) = step e c in let (end, later) = run es c' in (end, outputs ++ later)

module _ (pb : Protobuf) where
  -- The content of a call whose id has been taken; `serialize` may throw behind it.
  abbrev pub message_content : ℕ → Bytes → pb.Message → Bytes → RequestContent
  message_content call_id func_name message body = record {
    call_id = call_id;
    flag = record { mode = SerializeMode.serialize; type = ClientType.async_rpc_client };
    protocol = func_name;
    message_name = pb.full_name message;
    body = body;
  }

  checked_call :
      Bytes
      → pb.Message
      → Result (Unit {0})
      → AsyncRpcClient
      → AsyncRpcClient × Result RequestContent
  unfolding next_call_id
  checked_call func_name message (throw e) c = (c, throw e)
  checked_call func_name message (ok done) c =
      let c' = next_call_id c in
      (
        c',
        (do
          body ← serialize pb (some message)
          ok (message_content c'.call_id func_name message body)),
      )

  -- The call of a null message ends with the exception of `check_message`.
  unfoldable pub async_call :
      Bytes → MessagePtr pb → AsyncRpcClient → AsyncRpcClient × Result RequestContent
  unfolding checked_call
  async_call func_name none c = (c, (do check_message pb none; throw (runtime_error [])))
  async_call func_name (some message) c =
      checked_call func_name message (check_message pb (some message)) c
