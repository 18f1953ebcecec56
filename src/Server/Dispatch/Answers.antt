-- ===== src/Server/Dispatch/Answers.antt =====
-- The answers of `router_thread` of czrpc/server/server.hpp.
use czrpc.Prelude.{
  ℕ, List, [], ◌∷◌, ◌++◌, Option, none, some, ◌>>=◌, Result, ok, throw, ◌≡◌, refl, arith, All,
}
use czrpc.Base.Protocol.{RequestContent}
use czrpc.Base.Protobuf.{Protobuf}
use czrpc.Base.SerializeUtil.{deserialize}
use czrpc.Server.RpcMessage.{
  Output, send, push, disconnect, Request, Response, message_request, raw_request, set_response,
  set_response_raw,
}
use czrpc.Server.Invoker.{
  Handler, Reply, message_reply, raw_reply, reply_outputs, run_replies, invoke,
}
use czrpc.Server.Router.{Router, call_found, route, route_raw}
use czrpc.Server.TopicManager.{Topics}
use czrpc.Server.Dispatch.{
  Connections, or_route_failed, rpc_coming, router_thread, rpc_coming_with_serialize,
  rpc_coming_with_non_serialize, or_disconnect,
}

-- A response on the connection, with the call id; or the end of the connection.
abbrev pub Answers : ℕ → ℕ → Output → Type 0
Answers conn call_id (send c content) = (c ≡ conn) × (content.call_id ≡ call_id)
Answers conn call_id (push c content) = ⊥
Answers conn call_id (disconnect c) = c ≡ conn

module _ (conn call_id : ℕ) where
  All-append :
      (xs ys : List Output)
      → All (Answers conn call_id) xs
      → All (Answers conn call_id) ys
      → All (Answers conn call_id) (xs ++ ys)
  All-append [] ys h k = k
  All-append (x ∷ xs) ys h k = (h.0, All-append xs ys h.1 k)

  abbrev AllOk : Result (List Output) → Type 0
  AllOk (ok outputs) = All (Answers conn call_id) outputs
  AllOk (throw e) = Unit {0}

module _ (pb : Protobuf) (conn call_id : ℕ) where
  abbrev rsp : Response
  rsp = record { connect = conn; call_id = call_id }

  reply-Answers : (r : Reply pb) → AllOk conn call_id (reply_outputs pb rsp r)
  unfolding set_response set_response_raw
  reply-Answers (message_reply none) = tt
  reply-Answers (message_reply (some m)) = ground arith
  reply-Answers (raw_reply raw) = ground arith

  run_replies-Answers : (rs : List (Reply pb)) → All (Answers conn call_id) (run_replies pb rsp rs)
  unfolding run_replies
  run_replies-Answers [] = tt
  run_replies-Answers (r ∷ rs) =
      join (reply_outputs pb rsp r) (reply-Answers r) (run_replies-Answers rs)
    where
      join :
          (o : Result (List Output))
          → AllOk conn call_id o
          → All (Answers conn call_id) (run_replies pb rsp rs)
          → All
              (Answers conn call_id)
              (elim o [ ok outputs ↦ outputs ++ run_replies pb rsp rs | throw e ↦ [] ])
      join (ok outputs) h k = All-append conn call_id outputs _ h k
      join (throw e) h k = tt

  found-Answers :
      (h : Option (Handler pb)) (req : Request pb)
      → All (Answers conn call_id) (or_route_failed call_id conn (call_found pb h req rsp))
  unfolding or_route_failed call_found invoke
  found-Answers none req = ((refl, refl), tt)
  found-Answers (some func) req = run_replies-Answers (func req).0

module _ (conn call_id : ℕ) where
  AllOk-bind {ℓ} :
      {A : Type ℓ} (m : Result A) (f : A → Result (List Output))
      → ((a : A) → AllOk conn call_id (f a))
      → AllOk conn call_id (m >>= f)
  AllOk-bind (ok a) f h = h a
  AllOk-bind (throw e) f h = tt

  or_disconnect-Answers :
      (m : Result (List Output))
      → AllOk conn call_id m
      → All (Answers conn call_id) (or_disconnect conn m)
  or_disconnect-Answers (ok outputs) h = h
  or_disconnect-Answers (throw e) h = (refl, tt)

module _ (pb : Protobuf) (conns : Connections) (content : RequestContent) (conn : ℕ)
    (r : Router pb) where
  serialize-Answers : AllOk conn content.call_id (rpc_coming_with_serialize pb conns content conn r)
  unfolding rpc_coming_with_serialize route
  serialize-Answers =
      AllOk-bind conn content.call_id (deserialize pb content.message_name content.body) _ λ m.
        AllOk-bind conn content.call_id (conns.session_id conn) _ λ session_id.
          found-Answers pb conn content.call_id _ (message_request pb (some m) session_id)

  non_serialize-Answers :
      AllOk conn content.call_id (rpc_coming_with_non_serialize pb conns content conn r)
  unfolding rpc_coming_with_non_serialize route_raw
  non_serialize-Answers =
      AllOk-bind conn content.call_id (conns.session_id conn) _ λ session_id.
        found-Answers pb conn content.call_id _ (raw_request pb content.body session_id)

  -- Whatever handlers are bound and whatever a request holds, all that the server does for it is to
  -- send responses on the request's own connection under the request's own call id, and to cut that
  -- connection.
  pub router_thread-Answers :
      (topics : Topics)
      → All (Answers conn content.call_id) (router_thread pb conns content conn r topics).1
  unfolding router_thread rpc_coming
  router_thread-Answers topics = ground (
    arith,
    or_disconnect-Answers conn content.call_id _ serialize-Answers,
    or_disconnect-Answers conn content.call_id _ non_serialize-Answers,
  )
