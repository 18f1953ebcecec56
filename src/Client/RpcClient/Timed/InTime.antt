-- ===== src/Client/RpcClient/Timed/InTime.antt =====
-- The calls of czrpc/client/rpc_client.hpp and the clock.
use czrpc.Prelude.{
  ℕ, ◌+◌, ◌<◌, Bytes, Bool, true, false, List, ◌∷◌, ◌++◌, Option, none, some, length, take, ◌==◌,
  if◌then◌else◌, Result, ok, throw, runtime_error, ◌≡◌, refl, ap, ◌∙◌, arith, ◌⊎◌,
}
use czrpc.Base.Timer as Timer
use czrpc.Base.Timer.{
  Timer, Wait, armed, cancelled, over, cancel, cancel_wait, restart, on_wait, expire_wait,
  take_ended, handle, expires, handles, stops,
}
use czrpc.Base.ErrorCode
use czrpc.Base.ErrorCode.{get_rpc_error_string}
use czrpc.Base.Protobuf.{Protobuf}
use czrpc.Base.SerializeUtil.{serialize}
use czrpc.Base.Protocol.{RequestContent, ResponseContent}
use czrpc.Wire.Response.{response_buffer}
use czrpc.Wire.Response.RoundTrip.{IsSendable}
use czrpc.Client.ClientBase.{
  ClientBase, Attempt, succeeds, disconnect, connect_loop, try_connect, write, read,
}
use czrpc.Client.ClientBase.Connect.{read-response_buffer}
use czrpc.Client.RpcClient.{raw_content, message_content, check_error_code}
use czrpc.Client.RpcClient.Calls.{connected_client}
use czrpc.Client.RpcClient.Timed.{
  RpcClient, Link, in_time, guarded, after_write, write_and_read, checked, raw_body, after_connect,
  call_raw, message_of, call_serialized, call_checked, call,
}
use czrpc.Client.RpcClient.Timed.Guard.{
  IsReady, rested, started-deadline, guarded-ok, guarded-throw,
}

-- The client is connected, or its first attempt to connect succeeds; and what it writes has gone out at
-- the time `now`.
pub record IsReachable (net : Link) (now : ℕ) (b : ClientBase) : Type 0 where
  pub connects :
      (b.is_connected ≡ true) ⊎ ((rest : List Attempt) × (net.attempts ≡ succeeds ∷ rest))
  pub writes : net.write_error ≡ none
  pub written : net.written_at ≡ some now

abbrev pub limit_of : ℕ → RpcClient → Option ℕ
limit_of now c = some (now + c.base.request_timeout)

-- The client when `sync_connect` has returned.
abbrev connected : RpcClient → RpcClient
connected c = record { base = connected_client c.base; timer = c.timer }

connects_first :
    {A : Type 0} (net : Link) (now : ℕ) (next : RpcClient → Option (RpcClient × Result A))
    (c : RpcClient)
    → IsReachable net now c.base
    → after_connect c.timer next (try_connect net.begin_time net.attempts c.base)
      ≡ next (connected c)
unfolding after_connect try_connect connect_loop
connects_first net now next c reach = ground (arith, reach.connects)

exchange_reads :
    (net : Link) (now : ℕ) (content : RequestContent) (c : RpcClient)
    → IsReady c
    → IsReachable net now c.base
    → write_and_read net content (connected c)
      ≡ guarded net
          (limit_of now c)
          (Timer.start c.base.request_timeout c.timer)
          (read net.read_error (in_time (limit_of now c) net.arrivals) (connected_client c.base))
unfolding write_and_read after_write write
exchange_reads net now content c r reach =
    ground (arith, reach.writes, reach.written, started-deadline c.base c.timer r now)

disconnected_once :
    (closed : Bool) (b : ClientBase)
    → (if closed then disconnect (disconnect b) else disconnect b) ≡ disconnect b
unfolding disconnect
disconnected_once true b = refl
disconnected_once false b = refl

-- The client after a call that has read a response.
abbrev pub after_whole : Link → RpcClient → RpcClient
after_whole net c =
    let b = connected_client c.base in
    record {
      base = if net.late then disconnect b else b;
      timer = rested c.base.request_timeout c.timer;
    }

-- The client after a call that could not read one.
abbrev pub after_cut : RpcClient → RpcClient
after_cut c = record {
  base = disconnect (connected_client c.base);
  timer = rested c.base.request_timeout c.timer;
}

-- What a call returns or throws on a response.
abbrev pub returned : {A : Type 0} → (ResponseContent → Result A) → ResponseContent → Result A
returned out rsp =
    if rsp.code == ErrorCode.ok
    then out rsp
    else throw (runtime_error (get_rpc_error_string rsp.code))

pub checked-ok :
    {A : Type 0} (out : ResponseContent → Result A) (c : RpcClient) (rsp : ResponseContent)
    → checked out (some (c, ok rsp)) ≡ some (c, returned out rsp)
unfolding checked check_error_code
checked-ok out c rsp = ground arith

module _ (net : Link) (now : ℕ) (content : RequestContent) (rest : Bytes) (rsp : ResponseContent)
    (n : ℕ) (c : RpcClient) (r : IsReady c) (reach : IsReachable net now c.base)
    (s : IsSendable rsp) (h : n < length (response_buffer rsp)) where
  exchange_whole :
      in_time (limit_of now c) net.arrivals ≡ response_buffer rsp ++ rest
      → write_and_read net content (connected c) ≡ some (after_whole net c, ok rsp)
  exchange_whole w =
      let b = connected_client c.base in
      let started' = Timer.start c.base.request_timeout c.timer in
      exchange_reads net now content c r reach
      ∙ ap (λ stream. guarded net (limit_of now c) started' (read net.read_error stream b)) w
      ∙ ap (guarded net (limit_of now c) started')
          (read-response_buffer net.read_error rsp rest n b s h).0
      ∙ guarded-ok c.base c.timer r net (limit_of now c) b rsp

  exchange_cut :
      in_time (limit_of now c) net.arrivals ≡ take n (response_buffer rsp)
      → write_and_read net content (connected c) ≡ some (after_cut c, throw net.read_error)
  exchange_cut p =
      let b = connected_client c.base in
      let started' = Timer.start c.base.request_timeout c.timer in
      let (closed, ended) =
        guarded-throw c.base c.timer r net (now + c.base.request_timeout) (disconnect b)
          net.read_error in
      exchange_reads net now content c r reach
      ∙ ap (λ stream. guarded net (limit_of now c) started' (read net.read_error stream b)) p
      ∙ ap (guarded net (limit_of now c) started')
          (read-response_buffer net.read_error rsp rest n b s h).1
      ∙ ended
      ∙ ap
          (λ (d : ClientBase). some (
            record { base = d; timer = rested c.base.request_timeout c.timer },
            throw net.read_error,
          ))
          (disconnected_once closed b)

  module _ {A : Type 0} (out : ResponseContent → Result A) where
    abbrev pub exchange : RpcClient → Option (RpcClient × Result A)
    exchange c' = checked out (write_and_read net content c')

    pub call_whole :
        in_time (limit_of now c) net.arrivals ≡ response_buffer rsp ++ rest
        → after_connect c.timer exchange (try_connect net.begin_time net.attempts c.base)
          ≡ some (after_whole net c, returned out rsp)
    call_whole w =
        connects_first net now exchange c reach
        ∙ ap (checked out) (exchange_whole w)
        ∙ checked-ok out (after_whole net c) rsp

    pub call_cut :
        in_time (limit_of now c) net.arrivals ≡ take n (response_buffer rsp)
        → after_connect c.timer exchange (try_connect net.begin_time net.attempts c.base)
          ≡ some (after_cut c, throw net.read_error)
    unfolding checked
    call_cut p = connects_first net now exchange c reach ∙ ap (checked out) (exchange_cut p)

module _ (pb : Protobuf) where
  pub message_call :
      (net : Link) (func_name : Bytes) (m : pb.Message) (serialized : Bytes) (c : RpcClient)
      → serialize pb (some m) ≡ ok serialized
      → call pb net func_name (some m) c
        ≡ after_connect c.timer
            (λ c'.
              checked
                (message_of pb)
                (write_and_read net (message_content pb func_name m serialized) c'))
            (try_connect net.begin_time net.attempts c.base)
  unfolding call call_checked call_serialized serialize
  message_call net func_name m serialized c e = ground (arith, e)

  -- A call of a client that is ready, and that reaches the server, with raw data or with a message that
  -- can be serialized, is decided by the bytes that come in before the request times out, counted from when
  -- it has been written. If a response is among them whole, the call returns what it holds, the body or
  -- the message, or throws the text of its code; the client stays connected, unless the timer expires
  -- between the read and the end of its guard, which closes the socket all the same. If the response is
  -- cut short, the call throws the error of the read, and the client is disconnected.
  pub timed_call_decides :
      (net : Link) (now : ℕ) (func_name body rest serialized : Bytes) (m : pb.Message)
      (rsp : ResponseContent) (n : ℕ) (whole cut : List (ℕ × ℕ)) (c : RpcClient)
      → IsReady c
      → IsReachable net now c.base
      → serialize pb (some m) ≡ ok serialized
      → IsSendable rsp
      → in_time (limit_of now c) whole ≡ response_buffer rsp ++ rest
      → in_time (limit_of now c) cut ≡ take n (response_buffer rsp)
      → n < length (response_buffer rsp)
      → let in_whole = record net { arrivals = whole } in
        let in_cut = record net { arrivals = cut } in
        (call_raw in_whole func_name body c ≡ some (after_whole net c, returned raw_body rsp))
        × (call pb in_whole func_name (some m) c
            ≡ some (after_whole net c, returned (message_of pb) rsp))
        × (call_raw in_cut func_name body c ≡ some (after_cut c, throw net.read_error))
        × (call pb in_cut func_name (some m) c ≡ some (after_cut c, throw net.read_error))
  unfolding call_raw
  timed_call_decides net now func_name body rest serialized m rsp n whole cut c r reach e s w p h =
      let in_whole = record net { arrivals = whole } in
      let in_cut = record net { arrivals = cut } in
      let reach_whole : IsReachable in_whole now c.base = record {
        connects = reach.connects;
        writes = reach.writes;
        written = reach.written;
      } in
      let reach_cut : IsReachable in_cut now c.base = record {
        connects = reach.connects;
        writes = reach.writes;
        written = reach.written;
      } in
      let raw = raw_content func_name body in
      let content = message_content pb func_name m serialized in
      (
        call_whole in_whole now raw rest rsp n c r reach_whole s h raw_body w,
        message_call in_whole func_name m serialized c e
            ∙ call_whole in_whole now content rest rsp n c r reach_whole s h (message_of pb) w,
        call_cut in_cut now raw rest rsp n c r reach_cut s h raw_body p,
        message_call in_cut func_name m serialized c e
            ∙ call_cut in_cut now content rest rsp n c r reach_cut s h (message_of pb) p,
      )
