-- ===== src/Client/SubClient.antt =====
-- `sub_client` of czrpc/client/sub_client.hpp: subscriptions, and what becomes of a push. A request
-- that is written and a function that is called are outputs.
pub mod Subscriptions
pub mod Pushes
use czrpc.Prelude.{
  ℕ, Bytes, Bool, true, false, Option, none, some, List, [], ◌∷◌, ◌++◌, map, ◌==◌, if◌then◌else◌,
  Result, ok, throw,
}
use czrpc.Base.ClientType
use czrpc.Base.SerializeMode
use czrpc.Base.SerializeMode.{SerializeMode}
use czrpc.Base.Protocol.{
  RequestContent, PushContent, subscribe_topic_flag, cancel_subscribe_topic_flag,
}
use czrpc.Base.Protobuf.{Protobuf}
use czrpc.Base.SerializeUtil.{deserialize}
use czrpc.Client.SubRouter
use czrpc.Client.SubRouter.{SubRouter, Call, get_all_topic}

-- A request about a topic: its body tells whether to subscribe or to cancel.
unfoldable pub topic_request : SerializeMode → Bytes → Bytes → RequestContent
topic_request mode topic_name flag_body = record {
  call_id = 0;
  flag = record { mode = mode; type = ClientType.sub_client };
  protocol = topic_name;
  message_name = [];
  body = flag_body;
}

-- The router, which is a singleton, and the request that is written.
unfoldable pub subscribe : Bytes → ℕ → SubRouter → SubRouter × RequestContent
unfolding topic_request
subscribe topic_name func r = (
  SubRouter.bind topic_name func r,
  topic_request SerializeMode.serialize topic_name subscribe_topic_flag,
)

unfoldable pub subscribe_raw : Bytes → ℕ → SubRouter → SubRouter × RequestContent
unfolding topic_request
subscribe_raw topic_name func r = (
  SubRouter.bind_raw topic_name func r,
  topic_request SerializeMode.non_serialize topic_name subscribe_topic_flag,
)

unfoldable pub cancel_subscribe : Bytes → SubRouter → SubRouter × RequestContent
unfolding topic_request
cancel_subscribe topic_name r = (
  SubRouter.unbind topic_name r,
  topic_request SerializeMode.serialize topic_name cancel_subscribe_topic_flag,
)

-- The mode is that of a message here too.
unfoldable pub cancel_subscribe_raw : Bytes → SubRouter → SubRouter × RequestContent
unfolding topic_request
cancel_subscribe_raw topic_name r = (
  SubRouter.unbind_raw topic_name r,
  topic_request SerializeMode.serialize topic_name cancel_subscribe_topic_flag,
)

unfoldable pub is_subscribe : Bytes → SubRouter → Bool
is_subscribe topic_name r = SubRouter.is_bind topic_name r

unfoldable pub is_subscribe_raw : Bytes → SubRouter → Bool
is_subscribe_raw topic_name r = SubRouter.is_bind_raw topic_name r

-- `retry_subscribe`, when a connection has come about.
unfoldable pub retry_subscribe : SubRouter → List RequestContent
unfolding topic_request
retry_subscribe r =
    map (λ topic_name. topic_request SerializeMode.serialize topic_name subscribe_topic_flag)
      (get_all_topic r)

module _ (pb : Protobuf) where
  routed : Bytes → Result pb.Message → SubRouter → Option (Call pb)
  routed protocol (throw e) r = none
  routed protocol (ok req) r = SubRouter.route pb protocol req r

  -- What a thread of the pool does with a push. An exception of `deserialize` goes into a future that
  -- nobody reads.
  unfoldable pub router_thread : PushContent → SubRouter → Option (Call pb)
  unfolding routed
  router_thread content r =
      if content.mode == SerializeMode.serialize
      then routed content.protocol (deserialize pb content.message_name content.body) r
      else if content.mode == SerializeMode.non_serialize
      then SubRouter.route_raw pb content.protocol content.body r
      else none
