-- ===== src/System/RawCall.antt =====
-- A blocking call with raw data, from the caller through the server's handler and back.
use czrpc.Prelude.{
  ℕ, Bytes, Bytes-discrete, codes, false, [], ◌∷◌, append-nil, some, ok, throw, runtime_error, ◌≡◌,
  ◌≢◌, sym, ap, ◌∙◌, arith, length, if◌then◌else◌, ◌==◌,
}
use czrpc.Base.ErrorCode
use czrpc.Base.ErrorCode.{get_rpc_error_string}
use czrpc.Base.Protocol.{RequestContent, ResponseContent}
use czrpc.Base.Protobuf.{Protobuf}
use czrpc.Base.Map
use czrpc.Wire.Word.{IsWord, put_u32}
use czrpc.Wire.Request.{request_buffer, read_request}
use czrpc.Wire.Request.RoundTrip.{read_request-request_buffer}
use czrpc.Wire.Response.{response_buffer}
use czrpc.Wire.Response.RoundTrip as ResponseTrip
use czrpc.Server.RpcMessage.{Response, raw_request, set_response_raw, ok_content}
use czrpc.Server.Invoker.{Handler, raw_reply, invoke}
use czrpc.Server.Router.{Router, is_bind_raw, route_raw}
use czrpc.Server.TopicManager.{Topics}
use czrpc.Server.Dispatch.{Connections, router_thread}
use czrpc.Client.ClientBase.{ClientBase, disconnect}
use czrpc.Client.RpcClient.{Network, call_raw, raw_content}
use czrpc.Client.RpcClient.Calls.{IsReachable, connected_client, call_raw_returns}
use czrpc.System.{served, written_to}

module _ (pb : Protobuf) (conns : Connections) (r : Router pb) (topics : Topics) (conn : ℕ)
    (session_id func_name body : Bytes) (name_fits : IsWord (length func_name))
    (body_fits : IsWord (length body)) (session : conns.session_id conn ≡ ok session_id) where
  abbrev request : RequestContent
  request = raw_content func_name body

  request_read : read_request (request_buffer request) ≡ some (request, [])
  request_read =
      ap read_request (sym (append-nil (request_buffer request)))
      ∙ read_request-request_buffer request [] (record {
        call_id = omega arith;
        mode = omega arith;
        type = omega arith;
        protocol = name_fits;
        message_name = omega arith;
        body = body_fits;
      })

  abbrev rsp : Response
  rsp = record { connect = conn; call_id = 0 }

  abbrev failed : ResponseContent
  failed = record { call_id = 0; code = ErrorCode.route_failed; message_name = []; body = [] }

  served_unbound :
      is_bind_raw pb func_name r ≡ false
      → served pb conns r topics conn (request_buffer request) ≡ response_buffer failed
  unfolding served router_thread route_raw is_bind_raw Map.exists
  served_unbound u = rw (request_read, served) (ground (arith, append-nil (response_buffer failed)))

  served_bound :
      (func : Handler pb)
      → Map.find Bytes-discrete func_name r.route_raw_map ≡ some func
      → served pb conns r topics conn (request_buffer request)
        ≡ written_to conn (invoke pb func (raw_request pb body session_id) rsp)
  unfolding served router_thread route_raw
  served_bound func f = rw (request_read, served) (ground arith)

  module _ (net : Network) (c : ClientBase) (reach : IsReachable net c) where
    abbrev answered : Network
    answered = record net { incoming = served pb conns r topics conn (request_buffer request) }

    -- The call reads the one response that the server writes.
    reads :
        (rsp' : ResponseContent)
        → ResponseTrip.IsSendable rsp'
        → served pb conns r topics conn (request_buffer request) ≡ response_buffer rsp'
        → call_raw answered func_name body c
          ≡ some (
            connected_client c,
            (if rsp'.code == ErrorCode.ok
                then ok rsp'.body
                else throw (runtime_error (get_rpc_error_string rsp'.code))),
          )
    reads rsp' s e =
        ap (λ (b : Bytes). call_raw (record net { incoming = b }) func_name body c)
          (e ∙ sym (append-nil (response_buffer rsp')))
        ∙ (call_raw_returns net func_name body [] rsp' 0 c reach s
            (unfold response_buffer put_u32 in omega arith)).0

    -- A call of a function that is bound, and whose handler sets raw data that are not empty as its
    -- one response, returns these data.
    pub raw_call_answered :
        (func : Handler pb) (out : Bytes)
        → Map.find Bytes-discrete func_name r.route_raw_map ≡ some func
        → (func (raw_request pb body session_id)).0 ≡ raw_reply out ∷ []
        → out ≢ []
        → IsWord (length out)
        → call_raw answered func_name body c ≡ some (connected_client c, ok out)
    unfolding invoke set_response_raw written_to
    raw_call_answered func out f replies some_out fits =
        reads (ok_content 0 [] out)
          (record {
            call_id = omega arith;
            code = omega arith;
            message_name = omega arith;
            body = fits;
          })
          (served_bound func f ∙ ground (arith, append-nil (response_buffer (ok_content 0 [] out))))

    -- A call of a function that is not bound throws the text of the error.
    pub raw_call_unbound :
        is_bind_raw pb func_name r ≡ false
        → call_raw answered func_name body c
          ≡ some (connected_client c, throw (runtime_error (codes "Route failed")))
    unfolding get_rpc_error_string
    raw_call_unbound u =
        reads failed
          (record {
            call_id = omega arith;
            code = omega arith;
            message_name = omega arith;
            body = omega arith;
          })
          (served_unbound u)

    -- A handler that sets empty data as its response has nothing sent. The caller does not get empty
    -- data, but the error of a read that no byte comes for, and is disconnected.
    pub raw_call_empty_reply :
        (func : Handler pb)
        → Map.find Bytes-discrete func_name r.route_raw_map ≡ some func
        → (func (raw_request pb body session_id)).0 ≡ raw_reply [] ∷ []
        → call_raw answered func_name body c
          ≡ some (disconnect (connected_client c), throw net.read_error)
    unfolding invoke set_response_raw written_to
    raw_call_empty_reply func f replies =
        ap (λ (b : Bytes). call_raw (record net { incoming = b }) func_name body c)
          (served_bound func f ∙ ground arith)
        ∙ (call_raw_returns net func_name body [] failed 0 c reach
            (record {
              call_id = omega arith;
              code = omega arith;
              message_name = omega arith;
              body = omega arith;
            })
            (unfold response_buffer put_u32 in omega arith)).1
