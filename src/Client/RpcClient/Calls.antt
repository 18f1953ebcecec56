-- ===== src/Client/RpcClient/Calls.antt =====
-- The results of `call_raw` of czrpc/client/rpc_client.hpp.
use czrpc.Prelude.{
  ℕ, ◌<◌, Bytes, Bool, true, false, List, ◌∷◌, ◌++◌, none, some, ◌==◌, ok, throw, runtime_error,
  if◌then◌else◌, ◌≡◌, arith, length, take, ◌⊎◌,
}
use czrpc.Base.ErrorCode
use czrpc.Base.ErrorCode.{get_rpc_error_string}
use czrpc.Base.Protocol.{ResponseContent}
use czrpc.Wire.Response.{response_buffer}
use czrpc.Wire.Response.RoundTrip.{IsSendable}
use czrpc.Client.ClientBase.{
  ClientBase, Attempt, succeeds, try_connect, connect_loop, write, read, disconnect,
}
use czrpc.Client.ClientBase.Connect.{read-response_buffer}
use czrpc.Client.RpcClient.{
  Network, call_raw, write_and_read, check_error_code, sync_connect, after_connect,
}

-- The client is connected, or its first attempt to connect succeeds; and what it writes goes out.
pub record IsReachable (net : Network) (c : ClientBase) : Type 0 where
  pub connects :
      (c.is_connected ≡ true) ⊎ ((rest : List Attempt) × (net.attempts ≡ succeeds ∷ rest))
  pub writes : net.write_error ≡ none

-- The client when it is connected.
abbrev pub connected_client : ClientBase → ClientBase
connected_client c = if c.is_connected then c else record c { is_connected = true; is_open = true }

sync_connect_reachable :
    (net : Network) (c : ClientBase)
    → IsReachable net c
    → (b : Bool) × (sync_connect net c ≡ some (connected_client c, ok b))
unfolding sync_connect try_connect connect_loop
sync_connect_reachable net c r =
    (if c.is_connected then false else true, ground (arith, r.connects))

module _ (net : Network) (func_name body : Bytes) (c : ClientBase) (reach : IsReachable net c) where
  reads_response :
      (rsp : ResponseContent)
      → read net.read_error net.incoming (connected_client c) ≡ (connected_client c, ok rsp)
      → call_raw net func_name body c
        ≡ some (
          connected_client c,
          (if rsp.code == ErrorCode.ok
              then ok rsp.body
              else throw (runtime_error (get_rpc_error_string rsp.code))),
        )
  unfolding call_raw write_and_read write check_error_code
  reads_response rsp e =
      let (b, connected) = sync_connect_reachable net c reach in
      rw (connected, after_connect) (ground (arith, reach.writes))

  reads_error :
      (d : ClientBase)
      → read net.read_error net.incoming (connected_client c) ≡ (d, throw net.read_error)
      → call_raw net func_name body c ≡ some (d, throw net.read_error)
  unfolding call_raw write_and_read write
  reads_error d e =
      let (b, connected) = sync_connect_reachable net c reach in
      rw (connected, after_connect) (ground (arith, reach.writes))

-- A call of a reachable server returns the body of the response that comes in, if its code is good,
-- and throws the text of its code otherwise; if the response does not come whole before the
-- connection ends or the request times out, it throws the error of the read, and the client is
-- disconnected.
pub call_raw_returns :
    (net : Network) (func_name body rest : Bytes) (rsp : ResponseContent) (n : ℕ) (c : ClientBase)
    → IsReachable net c
    → IsSendable rsp
    → n < length (response_buffer rsp)
    → (call_raw (record net { incoming = response_buffer rsp ++ rest }) func_name body c
        ≡ some (
          connected_client c,
          (if rsp.code == ErrorCode.ok
              then ok rsp.body
              else throw (runtime_error (get_rpc_error_string rsp.code))),
        ))
      × (call_raw (record net { incoming = take n (response_buffer rsp) }) func_name body c
          ≡ some (disconnect (connected_client c), throw net.read_error))
call_raw_returns net func_name body rest rsp n c r s h =
    let (whole, cut) = read-response_buffer net.read_error rsp rest n (connected_client c) s h in
    let r' : (stream : Bytes) → IsReachable (record net { incoming = stream }) c =
      λ stream. record { connects = r.connects; writes = r.writes } in
    (
      reads_response (record net { incoming = response_buffer rsp ++ rest }) func_name body c
          (r' (response_buffer rsp ++ rest)) rsp whole,
      reads_error (record net { incoming = take n (response_buffer rsp) }) func_name body c
          (r' (take n (response_buffer rsp))) (disconnect (connected_client c)) cut,
    )
