-- ===== src/Tests/TimedTests.antt =====
-- Calls that block, with the clock, at concrete inputs. A response whose every byte comes in at the
-- second 3 is in time for a request that is written at the second 1 and may take 10 seconds; a byte that
-- comes in at the second 20 is not.
use czrpc.Prelude.{
  ℕ, codes, true, false, List, [], ◌∷◌, ◌++◌, map, none, some, ok, throw, runtime_error, length,
  take, ◌≡◌, refl, arith, inl, inr,
}
use czrpc.Base.Timer as Timer
use czrpc.Wire.Word.{put_u32}
use czrpc.Wire.Reads.{read_frame, read_exact}
use czrpc.Wire.Response.{response_buffer, read_response}
use czrpc.Wire.Response.RoundTrip.{IsSendable, read_response-response_buffer}
use czrpc.Client.ClientBase.{disconnect, try_connect, succeeds, fails}
use czrpc.Client.RpcClient.Calls.{connected_client}
use czrpc.Client.RpcClient.Timed.{
  RpcClient, Link, new_rpc_client, init_timer, call_raw, call, stop, in_time,
}
use czrpc.Client.RpcClient.Timed.Guard.{IsReady, rested}
use czrpc.Client.RpcClient.Timed.InTime.{timed_call_decides}
use czrpc.Client.RpcClient.Timed.Returns.{Call, calls_raw, calls, Answer, call_all, calls_return}
use czrpc.Client.RpcClient.Timed.Stopped.{stopped_call_waits}
use czrpc.Base.SerializeUtil.{check_message, serialize, deserialize}
use czrpc.Tests.Sample.{text_protobuf, echo_response}

new_rpc_client-IsReady : IsReady new_rpc_client
unfolding init_timer Timer.set_single_shot Timer.bind
new_rpc_client-IsReady = record {
  limited = λ e. cc;
  alive = refl;
  single_shot = refl;
  bound = refl;
  resting = refl;
}

-- The first attempt to connect succeeds, and nothing comes in.
abbrev silent : Link
silent = record {
  begin_time = 0;
  attempts = succeeds ∷ [];
  write_error = none;
  written_at = some 1;
  arrivals = [];
  ends_at = none;
  late = false;
  read_error = runtime_error (codes "End of file");
}

abbrev whole : List (ℕ × ℕ)
whole = map (λ byte. (3, byte)) (response_buffer echo_response)

-- The last byte of the response is late.
abbrev cut : List (ℕ × ℕ)
cut = map (λ byte. (3, byte)) (take 20 (response_buffer echo_response)) ++ (20, 111) ∷ []

echo_response-IsSendable : IsSendable echo_response
echo_response-IsSendable = record {
  call_id = omega arith;
  code = omega arith;
  message_name = omega arith;
  body = omega arith;
}

abbrev called : RpcClient
called = new_rpc_client

size : length (response_buffer echo_response) ≡ 21
unfolding response_buffer put_u32
size = refl

serialized : serialize text_protobuf (some (codes "hi")) ≡ ok (codes "hi")
unfolding serialize check_message
serialized = refl

arrived_whole : in_time (some 11) whole ≡ response_buffer echo_response ++ []
unfolding response_buffer put_u32 in_time
arrived_whole = refl

arrived_cut : in_time (some 11) cut ≡ take 20 (response_buffer echo_response)
unfolding response_buffer put_u32 in_time
arrived_cut = refl

timed_call_decides_example :
    let in_whole = record silent { arrivals = whole } in
    let in_cut = record silent { arrivals = cut } in
    let timer = rested 10 called.timer in
    let c = connected_client called.base in
    (call_raw in_whole (codes "echo") (codes "hello") called
      ≡ some (record { base = c; timer = timer }, ok (codes "hello")))
    × (call text_protobuf in_whole (codes "echo") (some (codes "hi")) called
        ≡ some (record { base = c; timer = timer }, deserialize text_protobuf [] (codes "hello")))
    × (call_raw in_cut (codes "echo") (codes "hello") called
        ≡ some (record { base = disconnect c; timer = timer }, throw silent.read_error))
    × (call text_protobuf in_cut (codes "echo") (some (codes "hi")) called
        ≡ some (record { base = disconnect c; timer = timer }, throw silent.read_error))
timed_call_decides_example =
    timed_call_decides text_protobuf silent 1 (codes "echo") (codes "hello") [] (codes "hi")
      (codes "hi") echo_response 20 whole cut called new_rpc_client-IsReady
      (record { connects = inr ([], refl); writes = refl; written = refl }) serialized
      echo_response-IsSendable arrived_whole arrived_cut (omega (arith, size))

-- A call of a silent server, a message call whose connection fails until the time is over, a call that
-- is answered, a null message, and a message that is answered.
abbrev five_calls : List (Call text_protobuf)
five_calls =
    calls_raw silent (codes "echo") (codes "hello")
    ∷ calls (record silent { attempts = fails silent.read_error 3 ∷ [] }) (codes "echo")
        (some (codes "hello"))
    ∷ calls_raw (record silent { arrivals = whole }) (codes "echo") (codes "hello")
    ∷ calls silent (codes "echo") none
    ∷ calls (record silent { arrivals = whole }) (codes "echo") (some (codes "hello"))
    ∷ []

calls_return_example :
    (end : RpcClient) × (rs : List (Answer text_protobuf)) × (call_all text_protobuf five_calls
        called
      ≡ some (end, rs))
    × (length rs ≡ 5)
    × IsReady end
    × (end.base.connect_timeout ≡ 3)
    × (end.base.request_timeout ≡ 10)
calls_return_example = calls_return text_protobuf five_calls called new_rpc_client-IsReady (
  (tt, λ e. cc),
  ((inl (omega arith), λ e. cc), ((tt, λ e. cc), ((tt, λ e. cc), ((tt, λ e. cc), tt)))),
)

one_byte : read_response (in_time none ((3, 1) ∷ [])) ≡ none
unfolding read_response in_time read_frame read_exact
one_byte = refl

-- The response comes in an hour late.
abbrev an_hour_late : List (ℕ × ℕ)
an_hour_late = map (λ byte. (3600, byte)) (response_buffer echo_response)

read_late : read_response (in_time none an_hour_late) ≡ some (echo_response, [])
unfolding in_time response_buffer put_u32
read_late = read_response-response_buffer echo_response [] echo_response-IsSendable

stopped_call_waits_example :
    let in_part = record silent { arrivals = (3, 1) ∷ [] } in
    let in_whole = record silent { arrivals = an_hour_late } in
    let base = (stop called).base in
    (base.is_connected ≡ false)
    × (base.is_open ≡ false)
    × (try_connect 0 (succeeds ∷ []) base
        ≡ some (record base { is_connected = true; is_open = true }, ok true))
    × (call_raw in_part (codes "echo") (codes "hello") (stop called) ≡ none)
    × (call text_protobuf in_part (codes "echo") (some (codes "hi")) (stop called) ≡ none)
    × ((end : RpcClient) × (call_raw in_whole (codes "echo") (codes "hello") (stop called)
          ≡ some (end, ok (codes "hello"))))
    × ((end : RpcClient) × (call text_protobuf in_whole
            (codes "echo")
            (some (codes "hi"))
            (stop called)
          ≡ some (end, deserialize text_protobuf [] (codes "hello"))))
stopped_call_waits_example =
    stopped_call_waits text_protobuf silent 1 (codes "echo") (codes "hello") (codes "hi") []
      (codes "hi") echo_response [] ((3, 1) ∷ []) an_hour_late called new_rpc_client-IsReady refl
      refl refl refl serialized one_byte read_late
