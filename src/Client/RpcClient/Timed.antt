-- ===== src/Client/RpcClient/Timed.antt =====
-- `rpc_client` of czrpc/client/rpc_client.hpp with its timer and the clock: the bytes of a response
-- come in at their times, and the timer, whose one function is `disconnect`, ends the read when the
-- request times out. Times are in seconds.
pub mod Guard
pub mod InTime
pub mod Ends
pub mod Returns
pub mod Stopped
use czrpc.Prelude.{
  ℕ, ◌+◌, Bytes, Bool, true, false, ◌||◌, List, [], ◌∷◌, ◌++◌, Option, none, some, ltb,
  if◌then◌else◌, Result, ok, throw, Exception, runtime_error, require, ◌>>◌,
}
use czrpc.Base.Timer as Timer
use czrpc.Base.Timer.{Timer, Wait, armed, new_timer, expires, handles, stops}
use czrpc.Base.Protocol.{RequestContent, ResponseContent}
use czrpc.Client.ClientBase
use czrpc.Client.ClientBase.{
  ClientBase, Attempt, new_client_base, disconnect, try_connect, write, read,
}
use czrpc.Base.Protobuf.{Protobuf}
use czrpc.Base.SerializeUtil.{MessagePtr, check_message, serialize, deserialize}
use czrpc.Client.RpcClient.{raw_content, message_content, check_error_code}

pub record RpcClient : Type 0 where
  pub base : ClientBase
  pub timer : Timer

-- `init_timer`; the function 0 is `disconnect`.
unfoldable pub init_timer : Timer → Timer
init_timer t = Timer.set_single_shot true (Timer.bind 0 t)

abbrev pub new_rpc_client : RpcClient
new_rpc_client = record { base = new_client_base; timer = init_timer new_timer }

-- What the network and the clock do during a call.
pub record Link : Type 0 where
  pub begin_time : ℕ
  pub attempts : List Attempt
  pub write_error : Option Exception
  -- when the blocking write has ended, with or without the error; `none`: it does not end, as when
  -- the server reads nothing and the buffers are full
  pub written_at : Option ℕ
  -- the bytes that come in, with their times, the first in front
  pub arrivals : List (ℕ × ℕ)
  -- when the connection ends behind them, if it does
  pub ends_at : Option ℕ
  -- whether the timer expires between the end of the read and the end of the guard
  pub late : Bool
  pub read_error : Exception

-- When the wait of the timer is over.
unfoldable pub has_armed : List Wait → Bool
has_armed [] = false
has_armed (armed ∷ ws) = true
has_armed (w ∷ ws) = has_armed ws

unfoldable pub deadline : ℕ → Timer → Option ℕ
unfolding has_armed
deadline now t = if has_armed t.waits then some (now + t.duration) else none

unfoldable pub is_before : ℕ → Option ℕ → Bool
is_before t none = true
is_before t (some limit) = ltb t limit

-- The bytes that come in before the socket is closed.
unfoldable pub in_time : Option ℕ → List (ℕ × ℕ) → Bytes
unfolding is_before
in_time limit [] = []
in_time limit ((t, byte) ∷ later) =
    let rest = in_time limit later in if is_before t limit then byte ∷ rest else []

-- The calls of the timer's functions.
unfoldable pub disconnects : List ℕ → ClientBase → ClientBase
disconnects [] c = c
disconnects (func ∷ funcs) c = disconnects funcs (disconnect c)

-- The timer through `events`, and what it does to the client.
unfoldable pub timed : List Timer.Event → RpcClient → RpcClient
unfolding disconnects
timed events c =
    let (timer, calls) = Timer.run events c.timer in
    record { base = disconnects calls c.base; timer = timer }

-- How a read that lacks bytes ends: the connection ends first, or the timer closes the socket, or
-- neither (`none`), and the read goes on.
unfoldable pub read_fails : Option ℕ → Option ℕ → Option (List Timer.Event)
unfolding is_before
read_fails (some ended) limit =
    some (if is_before ended limit then stops ∷ handles ∷ [] else expires ∷ handles ∷ stops ∷ [])
read_fails none none = none
read_fails none (some t) = some (expires ∷ handles ∷ stops ∷ [])

-- `read()` under the guard, which stops the timer at the end.
unfoldable pub guarded :
    Link
    → Option ℕ
    → Timer
    → ClientBase × Result ResponseContent
    → Option (RpcClient × Result ResponseContent)
unfolding timed
guarded net limit timer (base, ok rsp) =
    let c : RpcClient = record { base = base; timer = timer } in
    some
      (timed (if net.late then expires ∷ stops ∷ handles ∷ [] else stops ∷ handles ∷ []) c, ok rsp)
guarded net limit timer (base, throw e) = elim (read_fails net.ends_at limit) [
  | none ↦ none
  | some events ↦ some (timed events (record { base = base; timer = timer }), throw e)
]

-- Behind the write, which has ended at the time `now`. Only now is the timer started.
unfoldable pub after_write :
    Link → ℕ → Timer → ClientBase × Result Bytes → Option (RpcClient × Result ResponseContent)
unfolding guarded
after_write net now timer (base, throw e) = some (record { base = base; timer = timer }, throw e)
after_write net now timer (base, ok sent) =
    let started = Timer.start base.request_timeout timer in
    let limit = deadline now started in
    guarded net limit started (read net.read_error (in_time limit net.arrivals) base)

unfoldable pub write_and_read :
    Link → RequestContent → RpcClient → Option (RpcClient × Result ResponseContent)
unfolding after_write
write_and_read net content c = elim net.written_at [
  | none ↦ none
  | some now ↦ after_write net now c.timer (write net.write_error content c.base)
]

-- The rest of a call behind `write_and_read`: `out` is what it returns of a good response.
unfoldable pub checked :
    {A : Type 0}
    → (ResponseContent → Result A)
    → Option (RpcClient × Result ResponseContent)
    → Option (RpcClient × Result A)
checked out none = none
checked out (some (c, throw e)) = some (c, throw e)
checked out (some (c, ok rsp)) = some (c, (do check_error_code rsp.code; out rsp))

-- The rest of a call behind `sync_connect`.
unfoldable pub after_connect :
    {A : Type 0}
    → Timer
    → (RpcClient → Option (RpcClient × Result A))
    → Option (ClientBase × Result Bool)
    → Option (RpcClient × Result A)
after_connect timer next none = none
after_connect timer next (some (base, throw e)) =
    some (record { base = base; timer = timer }, throw e)
after_connect timer next (some (base, ok connected)) = next (record { base = base; timer = timer })

abbrev pub raw_body : ResponseContent → Result Bytes
raw_body rsp = ok rsp.body

-- `none`: the call does not return.
unfoldable pub call_raw : Link → Bytes → Bytes → RpcClient → Option (RpcClient × Result Bytes)
unfolding after_connect checked
call_raw net func_name body c =
    after_connect c.timer
      (λ c'. checked raw_body (write_and_read net (raw_content func_name body) c'))
      (try_connect net.begin_time net.attempts c.base)

module _ (pb : Protobuf) where
  abbrev pub message_of : ResponseContent → Result pb.Message
  message_of rsp = deserialize pb rsp.message_name rsp.body

  -- The message has been serialized, or the serialization has thrown.
  unfoldable pub call_serialized :
      Link → Bytes → pb.Message → Result Bytes → RpcClient → Option (RpcClient × Result pb.Message)
  unfolding checked
  call_serialized net func_name message (throw e) c = some (c, throw e)
  call_serialized net func_name message (ok body) c =
      checked message_of (write_and_read net (message_content pb func_name message body) c)

  -- The message has been checked, or the check has thrown.
  unfoldable pub call_checked :
      Link
      → Bytes
      → pb.Message
      → Result (Unit {0})
      → RpcClient
      → Option (RpcClient × Result pb.Message)
  unfolding call_serialized after_connect
  call_checked net func_name message (throw e) c = some (c, throw e)
  call_checked net func_name message (ok done) c =
      after_connect c.timer
        (λ c'. call_serialized net func_name message (serialize pb (some message)) c')
        (try_connect net.begin_time net.attempts c.base)

  -- A null message does not pass `check_message`.
  unfoldable pub null_call : Result (Unit {0}) → RpcClient → Option (RpcClient × Result pb.Message)
  null_call (throw e) c = some (c, throw e)
  null_call (ok done) c = none

  unfoldable pub call :
      Link → Bytes → MessagePtr pb → RpcClient → Option (RpcClient × Result pb.Message)
  unfolding call_checked null_call check_message
  call net func_name none c = null_call (check_message pb none) c
  call net func_name (some message) c =
      call_checked net func_name message (check_message pb (some message)) c

-- `stop`, but for the end of the threads.
unfoldable pub stop : RpcClient → RpcClient
stop c = record { base = ClientBase.stop c.base; timer = Timer.destroy c.timer }
