-- ===== src/System/AsyncCalls/Served.antt =====
-- Many requests with raw data at a server: `router_thread` of czrpc/server/server.hpp and the frames of
-- the responses.
use czrpc.Prelude.{
  ℕ, suc, ◌+◌, ◌<◌, Bytes, Bytes-discrete, List, [], ◌∷◌, map, some, length, ok, All, ◌==◌,
  if◌then◌else◌, ◌≡◌, ◌≢◌, refl, arith,
}
use czrpc.Base.Protobuf.{Protobuf}
use czrpc.Base.Protocol.{ResponseContent}
use czrpc.Base.Map
use czrpc.Wire.Word.{IsWord, u32_mod}
use czrpc.Wire.Response.{response_buffer}
use czrpc.Wire.Request.RoundTrip as RequestTrip
use czrpc.Wire.Response.RoundTrip as ResponseTrip
use czrpc.Server.RpcMessage.{Output, send, raw_request, set_response_raw}
use czrpc.Server.Invoker.{Handler, raw_reply, invoke}
use czrpc.Server.Router.{Router, route_raw}
use czrpc.Server.TopicManager.{Topics}
use czrpc.Server.Dispatch.{Connections, router_thread}
use czrpc.Server.Work.{Task, serve_all}
use czrpc.System.AsyncCalls.{Call, numbered, request_of}
use czrpc.System.AsyncCalls.Routed.{answer_of}

-- What `async_write` of a connection is given: the frames of the responses to it.
abbrev pub responses_to : ℕ → List Output → List Bytes
responses_to conn [] = []
responses_to conn (send c content ∷ rest) =
    let later = responses_to conn rest in
    if c == conn then response_buffer content ∷ later else later
responses_to conn (o ∷ rest) = responses_to conn rest

pub responses_to-send :
    (conn : ℕ) (rs : List ResponseContent)
    → responses_to conn (map (send conn) rs) ≡ map response_buffer rs
responses_to-send conn [] = refl
responses_to-send conn (r ∷ rs) = ground (arith, responses_to-send conn rs)

module _ (pb : Protobuf) (r : Router pb) (session_id : Bytes) (out : Bytes → Bytes → Bytes) where
  -- The handler that is bound to the call's function sets `out` of the call as its one response, which is
  -- not empty; and the lengths of the texts are 32-bit words.
  pub record CanAnswer (call : Call) : Type 0 where
    pub func : Handler pb
    pub bound : Map.find Bytes-discrete call.func_name r.route_raw_map ≡ some func
    pub replies :
        (func (raw_request pb call.body session_id)).0
        ≡ raw_reply (out call.func_name call.body) ∷ []
    pub some_out : out call.func_name call.body ≢ []
    pub name_fits : IsWord (length call.func_name)
    pub body_fits : IsWord (length call.body)
    pub out_fits : IsWord (length (out call.func_name call.body))

  pub requests-IsSendable :
      (last : ℕ) (calls : List Call)
      → last + length calls < u32_mod
      → All CanAnswer calls
      → All RequestTrip.IsSendable (map request_of (numbered last calls))
  requests-IsSendable last [] small h = tt
  requests-IsSendable last (call ∷ calls) small h =
      let first : RequestTrip.IsSendable (request_of (suc last, call)) = record {
        call_id = omega arith;
        mode = omega arith;
        type = omega arith;
        protocol = h.0.name_fits;
        message_name = omega arith;
        body = h.0.body_fits;
      } in
      (first, requests-IsSendable (suc last) calls (omega arith) h.1)

  pub answers-IsSendable :
      (last : ℕ) (calls : List Call)
      → last + length calls < u32_mod
      → All CanAnswer calls
      → All ResponseTrip.IsSendable (map (answer_of out) (numbered last calls))
  answers-IsSendable last [] small h = tt
  answers-IsSendable last (call ∷ calls) small h =
      let first : ResponseTrip.IsSendable (answer_of out (suc last, call)) = record {
        call_id = omega arith;
        code = omega arith;
        message_name = omega arith;
        body = h.0.out_fits;
      } in
      (first, answers-IsSendable (suc last) calls (omega arith) h.1)

  module _ (conns : Connections) (conn : ℕ) (session : conns.session_id conn ≡ ok session_id) where
    abbrev pub task_on : ℕ × Call → Task
    task_on x = (request_of x, conn)

    call_served :
        (x : ℕ × Call) (topics : Topics)
        → CanAnswer x.1
        → router_thread pb conns (request_of x) conn r topics
          ≡ (topics, send conn (answer_of out x) ∷ [])
    unfolding router_thread route_raw invoke set_response_raw
    call_served x topics h = ground (arith, h.bound, h.replies, h.some_out)

    -- The server answers each call under its id, in order.
    pub calls_served :
        (last : ℕ) (calls : List Call) (topics : Topics)
        → All CanAnswer calls
        → serve_all pb conns r (map task_on (numbered last calls)) topics
          ≡ (topics, map (send conn) (map (answer_of out) (numbered last calls)))
    unfolding serve_all
    calls_served last [] topics h = refl
    calls_served last (call ∷ calls) topics h =
        ground
          (arith, call_served (suc last, call) topics h.0, calls_served (suc last) calls topics h.1)
