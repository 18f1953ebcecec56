-- ===== src/Tests/PublicationTests.antt =====
-- Publications at concrete inputs, from the server to the functions of a subscriber.
use czrpc.Prelude.{
  Bytes, Bytes-discrete, codes, List, [], ◌∷◌, ◌++◌, concat, map, none, some, All, take, length,
  runtime_error, ◌≡◌, refl, arith,
}
use czrpc.Base.Map
use czrpc.Base.Protocol.{PushContent, push_header_len}
use czrpc.Wire.Push.{push_buffer}
use czrpc.Wire.Push.RoundTrip.{IsSendable}
use czrpc.Base.SerializeUtil.{check_message, serialize}
use czrpc.Server.TopicManager.{add_topic, has_topic, get_connection_by_topic}
use czrpc.Server.Dispatch.{router_thread, subscriber_coming, publish, publish_raw, publish_impl}
use czrpc.System.Delivery.{posted}
use czrpc.Server.SendQueue as SendQueue
use czrpc.Server.SendQueue.{no_writes, posts, written}
use czrpc.Server.Dispatch.Publish.{Event, request, after}
use czrpc.Client.SubRouter.{SubRouter, message_call}
use czrpc.Client.SubClient as SubClient
use czrpc.Client.SubClient.Pushes.{push_size, push_made}
use czrpc.Client.ReadLoop.{ReadLoop, reading, received, receive}
use czrpc.Client.ReadLoop.Frames.{IsReading}
use czrpc.System.Publications.{Publication, message, raw_data, content_of, CanPublish, publish_all}
use czrpc.System.Publications.Reach.{buffers, publications_reach}
use czrpc.System.Publications.Effects.{Program, handle_pushes, publications_played}
use czrpc.Tests.Sample.{
  text_protobuf, text_protobuf-IsDocumented, two_connections, echo_router, subscribe_request,
}

abbrev news : Bytes
news = codes "news"

abbrev history : List (Event text_protobuf two_connections)
history = request (subscribe_request news (codes "1")) 4 ∷ []

abbrev published : List (Publication text_protobuf)
published = message (codes "hi") ∷ raw_data (codes "today") ∷ []

abbrev first : PushContent
first = content_of text_protobuf news (message (codes "hi"))

abbrev second : PushContent
second = content_of text_protobuf news (raw_data (codes "today"))

first-IsSendable : IsSendable first
first-IsSendable = record {
  mode = omega arith;
  protocol = omega arith;
  message_name = omega arith;
  body = omega arith;
}

second-IsSendable : IsSendable second
second-IsSendable = record {
  mode = omega arith;
  protocol = omega arith;
  message_name = omega arith;
  body = omega arith;
}

published-CanPublish : All (CanPublish text_protobuf news) published
published-CanPublish = ((refl, first-IsSendable), (second-IsSendable, tt))

-- Both frames have been posted, and the first has been written whole.
abbrev writes : List SendQueue.Event
writes = posts (push_buffer first) ∷ posts (push_buffer second) ∷ written ∷ []

abbrev subscriber : SubRouter
subscriber = record { route_map = (news, 1) ∷ []; route_raw_map = (news, 2) ∷ [] }

posted_both :
    posted writes
    ≡ buffers 4 (
        publish_all text_protobuf news two_connections published
          (after text_protobuf two_connections echo_router history))
unfolding router_thread subscriber_coming add_topic has_topic publish publish_raw publish_impl
    get_connection_by_topic check_message serialize Bytes-discrete
posted_both = refl

publications_reach_example :
    let q = SendQueue.run writes no_writes in
    let whole = take (length q.sent) published in
    ((end : ReadLoop) × (receive push_size push_made push_header_len 2
          (concat q.sent ++ codes "rest")
          reading
        ≡ (codes "rest", (end, map received (map (content_of text_protobuf news) whole))))
      × IsReading push_size push_made push_header_len end)
    × (map
          (λ content. SubClient.router_thread text_protobuf content subscriber)
          (map (content_of text_protobuf news) whole)
        ≡ some (message_call 1 (codes "hi")) ∷ [])
    × (q.sent ++ q.send_queue ≡ push_buffer first ∷ push_buffer second ∷ [])
unfolding SendQueue.run Bytes-discrete Map.find
publications_reach_example =
    publications_reach text_protobuf news two_connections echo_router 4 history (refl, tt) refl
      published writes (codes "rest") 1 2 reading subscriber published-CanPublish posted_both tt
      (record { going = refl; opened = refl; waits = refl }) text_protobuf-IsDocumented refl refl

-- The functions append to a text; that for messages throws every time.
abbrev appending : Program text_protobuf Bytes
appending = record {
  functions = λ func m s. (s ++ m, some (runtime_error m));
  raw_functions = λ func data' s. (s ++ data', none);
}

publications_played_example :
    handle_pushes text_protobuf Bytes appending subscriber (first ∷ second ∷ []) (codes ">")
    ≡ codes ">hitoday"
unfolding Bytes-discrete Map.find
publications_played_example =
    publications_played text_protobuf Bytes appending news 1 2 subscriber published (codes ">")
      text_protobuf-IsDocumented refl refl published-CanPublish
