-- ===== src/Client/RpcClient/Timed/Returns.antt =====
-- Whole sequences of calls of a client of czrpc/client/rpc_client.hpp.
use czrpc.Prelude.{
  true, ◌≢◌, Bytes, List, [], ◌∷◌, Option, none, some, length, All, Result, ◌≡◌, refl, ap, arith,
}
use czrpc.Client.ClientBase.{try_connect, ClientBase}
use czrpc.Client.ClientBase.Connect.{IsDecisive}
use czrpc.Base.Protobuf.{Protobuf}
use czrpc.Base.SerializeUtil.{MessagePtr}
use czrpc.Client.RpcClient.Timed.{
  after_connect, write_and_read, checked, RpcClient, Link, call_raw, call,
}
use czrpc.Client.RpcClient.Timed.Guard.{IsReady}
use czrpc.Client.RpcClient.Timed.Ends.{Follows, call_raw-Ends, call-Ends}

-- A call with raw data or with a message, and what the network does during it.
pub data Call (pb : Protobuf) : Type 0 where
  calls_raw : Link → Bytes → Bytes → Call pb
  calls : Link → Bytes → MessagePtr pb → Call pb

pub data Answer (pb : Protobuf) : Type 0 where
  raw_result : Result Bytes → Answer pb
  message_result : Result pb.Message → Answer pb

abbrev pub link_of : {pb : Protobuf} → Call pb → Link
link_of (calls_raw net func_name body) = net
link_of (calls net func_name message) = net

abbrev answered :
    {pb : Protobuf} {A : Type 0}
    → (Result A → Answer pb)
    → Option (RpcClient × Result A)
    → Option (RpcClient × Answer pb)
answered answer none = none
answered answer (some (c, r)) = some (c, answer r)

abbrev call_once : (pb : Protobuf) → Call pb → RpcClient → Option (RpcClient × Answer pb)
call_once pb (calls_raw net func_name body) c = answered raw_result (call_raw net func_name body c)
call_once pb (calls net func_name message) c =
    answered message_result (call pb net func_name message c)

-- Calls one after the other, and their results.
abbrev pub call_all :
    (pb : Protobuf) → List (Call pb) → RpcClient → Option (RpcClient × List (Answer pb))
call_all pb [] c = some (c, [])
call_all pb (x ∷ xs) c = elim (call_once pb x c) [
  | none ↦ none
  | some (c', r) ↦ elim (call_all pb xs c') [ none ↦ none | some (end, rs) ↦ some (end, r ∷ rs) ]
]

module _ (pb : Protobuf) where
  IsDecided : ClientBase → Call pb → Type 0
  IsDecided b x =
      IsDecisive (link_of x).begin_time b.connect_timeout (link_of x).attempts
      × ((link_of x).written_at ≢ none)

  Continues : ClientBase → Option (RpcClient × Answer pb) → Type 0
  Continues b o = (c : RpcClient) × (r : Answer pb) × (o ≡ some (c, r)) × Follows b c

  call_once-Continues :
      (x : Call pb) (b : ClientBase) (c : RpcClient)
      → Follows b c
      → IsDecided b x
      → Continues b (call_once pb x c)
  unfolding IsDecided Continues
  call_once-Continues (calls_raw net func_name body) b c f d =
      let (c', r, e, g) = call_raw-Ends net func_name body b c d.1 f d.0 in
      (c', raw_result r, ap (answered raw_result) e, g)
  call_once-Continues (calls net func_name message) b c f d =
      let (c', r, e, g) = call-Ends pb net func_name message b c d.1 f d.0 in
      (c', message_result r, ap (answered message_result) e, g)

  call_all_ends :
      (xs : List (Call pb)) (b : ClientBase) (c : RpcClient)
      → Follows b c
      → All (IsDecided b) xs
      → (end : RpcClient) × (rs : List (Answer pb)) × (call_all pb xs c ≡ some (end, rs))
        × (length rs ≡ length xs)
        × Follows b end
  unfolding Continues
  call_all_ends [] b c f d = (c, [], refl, refl, f)
  call_all_ends (x ∷ xs) b c f d =
      let (c', r, e, g) = call_once-Continues x b c f d.0 in
      let (end, rs, es, n, h) = call_all_ends xs b c' g d.1 in
      (end, r ∷ rs, ground (arith, e, es), omega (arith, n), h)

  -- Calls with raw data and with messages that are made one after the other all return or throw, whatever
  -- comes in or does not, if the client is ready and has a request timeout, and if in each call some attempt
  -- to connect succeeds or fails after the connect timeout and the blocking write ends, well or with an
  -- error: the request timeout does not bound the write. Then the client is ready again, with the timeouts
  -- that it had.
  pub calls_return :
      (xs : List (Call pb)) (c : RpcClient)
      → IsReady c
      → All
          (λ x.
            IsDecisive (link_of x).begin_time c.base.connect_timeout (link_of x).attempts
            × ((link_of x).written_at ≢ none))
          xs
      → (end : RpcClient) × (rs : List (Answer pb)) × (call_all pb xs c ≡ some (end, rs))
        × (length rs ≡ length xs)
        × IsReady end
        × (end.base.connect_timeout ≡ c.base.connect_timeout)
        × (end.base.request_timeout ≡ c.base.request_timeout)
  unfolding IsDecided
  calls_return xs c r d =
      let f : Follows c.base c = record {
        ready = r;
        keeps = record { connect = refl; request = refl };
      } in
      let (end, rs, e, n, h) = call_all_ends xs c.base c f d in
      (end, rs, e, n, h.ready, h.keeps.connect, h.keeps.request)

  -- A call whose write does not end does not return, whatever the request timeout.
  unwritten_call_waits :
      (net : Link) (func_name body : Bytes) (c : RpcClient)
      → c.base.is_connected ≡ true
      → net.written_at ≡ none
      → call_raw net func_name body c ≡ none
  unfolding call_raw after_connect try_connect write_and_read checked
  unwritten_call_waits net func_name body c on w = ground (arith, on, w)
