-- ===== src/Client/RpcClient/Timed/Stopped.antt =====
-- A client of czrpc/client/rpc_client.hpp that is called when it has been stopped.
use czrpc.Prelude.{
  ℕ, Bytes, true, false, List, ◌∷◌, Option, none, some, Result, ok, throw, ◌≡◌, refl, ap, ◌∙◌,
  arith,
}
use czrpc.Base.Protobuf.{Protobuf}
use czrpc.Base.Protocol.{RequestContent, ResponseContent}
use czrpc.Base.SerializeUtil.{serialize}
use czrpc.Client.RpcClient.{raw_content, message_content}
use czrpc.Client.RpcClient.Timed.InTime.{returned, checked-ok, message_call}
use czrpc.Base.Timer as Timer
use czrpc.Base.Timer.{Timer}
use czrpc.Wire.Response.{read_response}
use czrpc.Client.ClientBase
use czrpc.Client.ClientBase.{
  ClientBase, Attempt, succeeds, disconnect, connect_loop, try_connect, write, read,
}
use czrpc.Client.ClientBase.Connect.{read-read_response, read_outcome}
use czrpc.Client.RpcClient.Timed.{
  RpcClient, Link, deadline, in_time, read_fails, guarded, after_write, write_and_read, checked,
  after_connect, call_raw, raw_body, message_of, call, stop, has_armed,
}
use czrpc.Client.RpcClient.Timed.Guard.{IsReady}

unlimited :
    (c : RpcClient) (r : IsReady c) (now d : ℕ)
    → (Timer.start d (Timer.destroy c.timer) ≡ Timer.destroy c.timer)
      × (deadline now (Timer.destroy c.timer) ≡ none)
unfolding Timer.start Timer.destroy Timer.stop Timer.cancel deadline has_armed
unlimited c r now d = (ground arith, ground (arith, r.resting))

waits :
    (net : Link) (base : ClientBase) (timer : Timer)
    → net.ends_at ≡ none
    → guarded net none timer (base, throw net.read_error) ≡ none
unfolding guarded read_fails
waits net base timer e = ground (arith, e)

module _ (net : Link) (now : ℕ) (attempts : List Attempt) (c : RpcClient) (r : IsReady c)
    (a : net.attempts ≡ succeeds ∷ attempts) (w : net.write_error ≡ none)
    (at : net.written_at ≡ some now) where
  abbrev anew : RpcClient
  anew = record {
    base = record (ClientBase.stop c.base) { is_connected = true; is_open = true };
    timer = Timer.destroy c.timer;
  }

  connects_anew : try_connect net.begin_time net.attempts (stop c).base ≡ some (anew.base, ok true)
  unfolding try_connect connect_loop stop ClientBase.stop disconnect
  connects_anew = ground (arith, a)

  unlimited_read :
      (content : RequestContent)
      → write_and_read net content anew
        ≡ guarded net none anew.timer (read net.read_error (in_time none net.arrivals) anew.base)
  unfolding write_and_read after_write write
  unlimited_read content = ground (arith, w, at, unlimited c r now anew.base.request_timeout)

  module _ {A : Type 0} (content : RequestContent) (out : ResponseContent → Result A) where
    abbrev exchange : RpcClient → Option (RpcClient × Result A)
    exchange d = checked out (write_and_read net content d)

    connects_and :
        after_connect
          (stop c).timer
          exchange
          (try_connect net.begin_time net.attempts (stop c).base)
        ≡ exchange anew
    unfolding after_connect stop
    connects_and = ap (after_connect (stop c).timer exchange) connects_anew

    waits_on :
        net.ends_at ≡ none
        → read_response (in_time none net.arrivals) ≡ none
        → after_connect
            (stop c).timer
            exchange
            (try_connect net.begin_time net.attempts (stop c).base)
          ≡ none
    unfolding checked
    waits_on e p =
        connects_and
        ∙ ap (checked out) (
            unlimited_read content
            ∙ ap (guarded net none anew.timer) (
                read-read_response net.read_error (in_time none net.arrivals) anew.base
                ∙ ap (read_outcome net.read_error anew.base) p)
            ∙ waits net (disconnect anew.base) anew.timer e)

    returns_late :
        (rsp : ResponseContent) (rest : Bytes)
        → read_response (in_time none net.arrivals) ≡ some (rsp, rest)
        → (end : RpcClient) × (after_connect
              (stop c).timer
              exchange
              (try_connect net.begin_time net.attempts (stop c).base)
            ≡ some (end, returned out rsp))
    unfolding guarded
    returns_late rsp rest p = (
      _,
      connects_and
          ∙ ap (checked out) (
              unlimited_read content
              ∙ ap (guarded net none anew.timer) (
                  read-read_response net.read_error (in_time none net.arrivals) anew.base
                  ∙ ap (read_outcome net.read_error anew.base) p))
          ∙ checked-ok out _ rsp,
    )

module _ (pb : Protobuf) where
  -- A client that was ready and has been stopped is disconnected. A call of it, with raw data or with a
  -- message that can be serialized, whose first attempt to connect succeeds and whose write goes out,
  -- connects anew and has no request timeout, since the timer is gone. While the response has not come
  -- whole and the connection does not end, it does not return; if the response comes whole, however late,
  -- the call returns what it holds or throws the text of its code.
  pub stopped_call_waits :
      (net : Link) (now : ℕ) (func_name body serialized rest : Bytes) (m : pb.Message)
      (rsp : ResponseContent) (attempts : List Attempt) (part whole : List (ℕ × ℕ)) (c : RpcClient)
      → IsReady c
      → net.attempts ≡ succeeds ∷ attempts
      → net.write_error ≡ none
      → net.written_at ≡ some now
      → net.ends_at ≡ none
      → serialize pb (some m) ≡ ok serialized
      → read_response (in_time none part) ≡ none
      → read_response (in_time none whole) ≡ some (rsp, rest)
      → let in_part = record net { arrivals = part } in
        let in_whole = record net { arrivals = whole } in
        let base = (stop c).base in
        (base.is_connected ≡ false)
        × (base.is_open ≡ false)
        × (try_connect net.begin_time net.attempts base
            ≡ some (record base { is_connected = true; is_open = true }, ok true))
        × (call_raw in_part func_name body (stop c) ≡ none)
        × (call pb in_part func_name (some m) (stop c) ≡ none)
        × ((end : RpcClient) × (call_raw in_whole func_name body (stop c)
              ≡ some (end, returned raw_body rsp)))
        × ((end : RpcClient) × (call pb in_whole func_name (some m) (stop c)
              ≡ some (end, returned (message_of pb) rsp)))
  unfolding call_raw stop ClientBase.stop disconnect
  stopped_call_waits net now func_name body serialized rest m rsp attempts part whole c r a w at e s
        p q =
      let in_part = record net { arrivals = part } in
      let in_whole = record net { arrivals = whole } in
      let raw = raw_content func_name body in
      let content = message_content pb func_name m serialized in
      let (late, returns) =
        returns_late in_whole now attempts c r a w at content (message_of pb) rsp rest q in
      (
        refl,
        refl,
        connects_anew net now attempts c r a w at,
        waits_on in_part now attempts c r a w at raw raw_body e p,
        message_call pb in_part func_name m serialized (stop c) s
            ∙ waits_on in_part now attempts c r a w at content (message_of pb) e p,
        returns_late in_whole now attempts c r a w at raw raw_body rsp rest q,
        (late, message_call pb in_whole func_name m serialized (stop c) s ∙ returns),
      )
