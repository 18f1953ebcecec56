-- ===== src/Client/RpcClient.antt =====
-- `rpc_client` of czrpc/client/rpc_client.hpp: calls that block. One caller at a time is in
-- `write_and_read`, which holds the mutex. The timer that it starts closes the socket when the
-- request times out, which ends the bytes that come in: that is part of `Network`.
pub mod Calls
pub mod Timed
use czrpc.Prelude.{
  ℕ, Bytes, Bool, true, false, List, [], ◌∷◌, Option, none, some, ◌==◌, Result, ok, throw,
  Exception, runtime_error, require, ◌>>=◌, ◌>>◌,
}
use czrpc.Base.ClientType
use czrpc.Base.SerializeMode
use czrpc.Base.ErrorCode
use czrpc.Base.ErrorCode.{RpcErrorCode, get_rpc_error_string}
use czrpc.Base.Protocol.{RequestContent, ResponseContent, ClientFlag}
use czrpc.Base.Protobuf.{Protobuf}
use czrpc.Base.SerializeUtil.{MessagePtr, check_message, serialize, deserialize}
use czrpc.Client.ClientBase.{ClientBase, Attempt, and_then, try_connect, write, read}

-- What the network does during a call.
pub record Network : Type 0 where
  pub begin_time : ℕ
  pub attempts : List Attempt
  pub write_error : Option Exception
  -- the bytes that come in before the connection ends, and the error of a read behind them
  pub incoming : Bytes
  pub read_error : Exception

-- A read that lacks bytes throws: the connection ends behind them, or the timer closes the socket.
-- Client/RpcClient/Timed has the timer and its guard, and the calls that neither ends.
unfoldable pub write_and_read :
    Network → RequestContent → ClientBase → ClientBase × Result ResponseContent
write_and_read net content c =
    and_then (write net.write_error content c) (λ sent c'. read net.read_error net.incoming c')

unfoldable pub check_error_code : RpcErrorCode → Result (Unit {0})
check_error_code code = require (code == ErrorCode.ok) (runtime_error (get_rpc_error_string code))

-- `sync_connect`, then the rest of the call; an exception of the first leaves the rest undone.
after_connect :
    {A : Type 0}
    → Option (ClientBase × Result Bool)
    → (ClientBase → ClientBase × Result A)
    → Option (ClientBase × Result A)
after_connect none next = none
after_connect (some (c, throw e)) next = some (c, throw e)
after_connect (some (c, ok b)) next = some (next c)

unfoldable pub sync_connect : Network → ClientBase → Option (ClientBase × Result Bool)
sync_connect net c = try_connect net.begin_time net.attempts c

abbrev pub raw_content : Bytes → Bytes → RequestContent
raw_content func_name body = record {
  call_id = 0;
  flag = record { mode = SerializeMode.non_serialize; type = ClientType.rpc_client };
  protocol = func_name;
  message_name = [];
  body = body;
}

-- `none`: the loop of `connect` has not ended within the attempts.
unfoldable pub call_raw : Network → Bytes → Bytes → ClientBase → Option (ClientBase × Result Bytes)
unfolding after_connect
call_raw net func_name body c = after_connect (sync_connect net c) (λ c'.
    and_then (write_and_read net (raw_content func_name body) c')
      (λ rsp c''. (c'', (do check_error_code rsp.code; ok rsp.body))))

module _ (pb : Protobuf) where
  abbrev pub message_content : Bytes → pb.Message → Bytes → RequestContent
  message_content func_name message body = record {
    call_id = 0;
    flag = record { mode = SerializeMode.serialize; type = ClientType.rpc_client };
    protocol = func_name;
    message_name = pb.full_name message;
    body = body;
  }

  call_serialized :
      Network → Bytes → pb.Message → Result Bytes → ClientBase → ClientBase × Result pb.Message
  call_serialized net func_name message (throw e) c = (c, throw e)
  call_serialized net func_name message (ok body) c =
      and_then (write_and_read net (message_content func_name message body) c)
        (λ rsp c'. (c', (do check_error_code rsp.code; deserialize pb rsp.message_name rsp.body)))

  call_checked :
      Network
      → Bytes
      → pb.Message
      → Result (Unit {0})
      → ClientBase
      → Option (ClientBase × Result pb.Message)
  unfolding call_serialized after_connect
  call_checked net func_name message (throw e) c = some (c, throw e)
  call_checked net func_name message (ok done) c =
      after_connect (sync_connect net c)
        (λ c'. call_serialized net func_name message (serialize pb (some message)) c')

  null_call : Result (Unit {0}) → ClientBase → Option (ClientBase × Result pb.Message)
  null_call (throw e) c = some (c, throw e)
  null_call (ok done) c = none

  -- A null message does not pass `check_message`.
  unfoldable pub call :
      Network → Bytes → MessagePtr pb → ClientBase → Option (ClientBase × Result pb.Message)
  unfolding call_checked null_call check_message
  call net func_name none c = null_call (check_message pb none) c
  call net func_name (some message) c =
      call_checked net func_name message (check_message pb (some message)) c
