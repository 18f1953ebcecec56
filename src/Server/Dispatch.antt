-- ===== src/Server/Dispatch.antt =====
-- What a server does with a request, and with a message to publish: `router_thread` to `handle_error`
-- of czrpc/server/server.hpp, over the router and the topic manager, which are singletons there.
-- `route` gives a request to the thread pool, one of whose threads runs `router_thread`.
pub mod Answers
pub mod Publish
use czrpc.Prelude.{
  ℕ, Bytes, Bytes-discrete, codes, Bool, true, false, ◌&&◌, ◌||◌, List, [], ◌∷◌, ◌++◌, Option, none,
  some, ite, ◌==◌, if◌then◌else◌, Result, ok, throw, ◌>>=◌, ◌>>◌,
}
use czrpc.Base.ClientType
use czrpc.Base.SerializeMode
use czrpc.Base.ErrorCode
use czrpc.Base.ErrorCode.{RpcErrorCode}
use czrpc.Base.Protocol.{
  RequestContent, ResponseContent, PushContent, subscribe_topic_flag, cancel_subscribe_topic_flag,
}
use czrpc.Base.Protobuf.{Protobuf}
use czrpc.Base.SerializeUtil.{MessagePtr, check_message, serialize, deserialize}
use czrpc.Server.RpcMessage.{
  Output, send, push, disconnect, Request, Response, message_request, raw_request,
}
use czrpc.Server.Router.{Router, route, route_raw}
use czrpc.Server.TopicManager.{
  Topics, add_topic, remove_topic, remove_all_topic, get_connection_by_topic,
}

-- What the server asks of a connection: whether it still is (`expired` of the weak pointer is the
-- opposite), and its `get_session_id()`, which throws if the socket has no peer.
pub record Connections : Type 0 where
  pub alive : ℕ → Bool
  pub session_id : ℕ → Result Bytes

abbrev pub raw_content : Bytes → Bytes → PushContent
raw_content topic_name message = record {
  mode = SerializeMode.non_serialize;
  protocol = topic_name;
  message_name = [];
  body = message;
}

-- The content is not initialised but for what is set, and its texts are empty.
unfoldable pub response_error : ℕ → RpcErrorCode → ℕ → List Output
response_error call_id code conn =
    send conn (record { call_id = call_id; code = code; message_name = []; body = [] }) ∷ []

or_route_failed : ℕ → ℕ → Option (List Output) → List Output
unfolding response_error
or_route_failed call_id conn none = response_error call_id ErrorCode.route_failed conn
or_route_failed call_id conn (some outputs) = outputs

-- `catch`: the connection is cut.
abbrev or_disconnect : ℕ → Result (List Output) → List Output
or_disconnect conn (ok outputs) = outputs
or_disconnect conn (throw e) = disconnect conn ∷ []

module _ (pb : Protobuf) (conns : Connections) where
  unfoldable pub rpc_coming_with_serialize : RequestContent → ℕ → Router pb → Result (List Output)
  unfolding or_route_failed message_request
  rpc_coming_with_serialize content conn r = do
    req_message ← deserialize pb content.message_name content.body
    session_id ← conns.session_id conn
    ok (
        or_route_failed content.call_id conn (
          route pb content.protocol (message_request pb (some req_message) session_id)
            (record { connect = conn; call_id = content.call_id }) r))

  unfoldable pub rpc_coming_with_non_serialize :
      RequestContent → ℕ → Router pb → Result (List Output)
  unfolding or_route_failed raw_request
  rpc_coming_with_non_serialize content conn r = do
    session_id ← conns.session_id conn
    ok (
        or_route_failed content.call_id conn (
          route_raw pb content.protocol (raw_request pb content.body session_id)
            (record { connect = conn; call_id = content.call_id }) r))

  unfoldable pub rpc_coming : RequestContent → ℕ → Router pb → List Output
  unfolding rpc_coming_with_serialize rpc_coming_with_non_serialize
  rpc_coming content conn r = or_disconnect conn (
      if content.flag.mode == SerializeMode.serialize
      then rpc_coming_with_serialize content conn r
      else if content.flag.mode == SerializeMode.non_serialize
      then rpc_coming_with_non_serialize content conn r
      else ok [])

  unfoldable pub subscriber_coming : Bytes → Bytes → ℕ → Topics → Topics
  subscriber_coming topic_name body conn topics =
      ite (Bytes-discrete body subscribe_topic_flag) (add_topic conns.alive topic_name conn topics)
        (ite (Bytes-discrete body cancel_subscribe_topic_flag)
          (remove_topic conns.alive topic_name conn topics) topics)

  unfoldable pub router_thread : RequestContent → ℕ → Router pb → Topics → Topics × List Output
  unfolding rpc_coming subscriber_coming
  router_thread content conn r topics =
      if content.flag.type == ClientType.rpc_client
        || content.flag.type == ClientType.async_rpc_client
      then (topics, rpc_coming content conn r)
      else if content.flag.type == ClientType.sub_client
      then (subscriber_coming content.protocol content.body conn topics, [])
      else (topics, [])

  unfoldable pub handle_error : ℕ → Topics → Topics
  handle_error conn topics = remove_all_topic conns.alive conn topics

  -- The loop of `publish_impl`: a connection that is no more is passed over.
  push_to : PushContent → List ℕ → List Output
  push_to content [] = []
  push_to content (conn ∷ rest) =
      let later = push_to content rest in
      if conns.alive conn then push conn content ∷ later else later

  unfoldable pub publish_impl : PushContent → Topics → List Output
  unfolding push_to
  publish_impl content topics = push_to content (get_connection_by_topic content.protocol topics)

  unfoldable pub publish : Bytes → MessagePtr pb → Topics → Result (List Output)
  unfolding publish_impl
  publish topic_name none topics = do check_message pb none; ok []
  publish topic_name (some message) topics = do
    check_message pb (some message)
    body ← serialize pb (some message)
    ok (
        publish_impl
          (record {
            mode = SerializeMode.serialize;
            protocol = topic_name;
            message_name = pb.full_name message;
            body = body;
          })
          topics)

  unfoldable pub publish_raw : Bytes → Bytes → Topics → List Output
  publish_raw topic_name message topics = publish_impl (raw_content topic_name message) topics
