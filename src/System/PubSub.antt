-- ===== src/System/PubSub.antt =====
-- Publish and subscribe, from the subscriber's call through the server's topics and back.
use czrpc.Prelude.{
  ℕ, Bytes, Bytes-discrete, codes, Bool, true, false, ◌||◌, List, [], ◌∷◌, ◌++◌, map, some, ◌≡◌,
  refl, ◌∙◌, arith, length, ite,
}
use czrpc.Base.Protocol.{RequestContent}
use czrpc.Base.Protobuf.{Protobuf}
use czrpc.Base.Map
use czrpc.Base.Map.{Map}
use czrpc.Base.Map.Laws.{find-replace}
use czrpc.Wire.Word.{IsWord}
use czrpc.Wire.Push.{push_buffer, read_push}
use czrpc.Wire.Push.RoundTrip.{read_push-push_buffer}
use czrpc.Server.Router.{Router}
use czrpc.Server.TopicManager.{Topics, has_topic}
use czrpc.Server.TopicManager.Counts.{IsTopics}
use czrpc.Server.Dispatch.{Connections, router_thread, publish_raw, raw_content}
use czrpc.Server.Dispatch.Publish.{pushes, publish_impl_exact, request-IsTopics, request-has_topic}
use czrpc.Client.SubRouter
use czrpc.Client.SubRouter.{SubRouter, Call, raw_call, get_all_topic}
use czrpc.Client.SubClient
use czrpc.Client.SubClient.{
  subscribe_raw, cancel_subscribe, is_subscribe, is_subscribe_raw, retry_subscribe, topic_request,
}

module _ (pb : Protobuf) (conns : Connections) (r : Router pb) (conn : ℕ)
    (live : conns.alive conn ≡ true) where
  -- The server when it has handled a request of the connection.
  abbrev pub handled : RequestContent → Topics → Topics
  handled content topics = (router_thread pb conns content conn r topics).0

  -- The server when it has handled several.
  abbrev pub handled_all : List RequestContent → Topics → Topics
  handled_all [] topics = topics
  handled_all (content ∷ rest) topics = handled_all rest (handled content topics)

  -- When the server has handled the request that `subscribe_raw` writes, raw data published on the
  -- topic are pushed to the subscriber's connection once; and when the subscriber has read the push
  -- from the stream, it calls the function that it has subscribed with, with the data.
  pub subscribe_raw_delivers :
      (topic message rest : Bytes) (func : ℕ) (topics : Topics) (sub : SubRouter)
      → IsTopics topics
      → IsWord (length topic)
      → IsWord (length message)
      → let (sub', content) = subscribe_raw topic func sub in
        (pushes conn (publish_raw pb conns topic message (handled content topics)) ≡ 1)
        × (read_push (push_buffer (raw_content topic message) ++ rest)
            ≡ some (raw_content topic message, rest))
        × (SubClient.router_thread pb (raw_content topic message) sub'
            ≡ some (raw_call func message))
  unfolding publish_raw subscribe_raw SubRouter.bind_raw SubClient.router_thread SubRouter.route_raw
  subscribe_raw_delivers topic message rest func topics sub t n m =
      let (sub', content) = subscribe_raw topic func sub in
      (
        (publish_impl_exact pb conns (raw_content topic message) conn (handled content topics)
              (request-IsTopics pb conns r content conn topics live t)).0
            ∙ ground (arith, request-has_topic pb conns r content conn topic conn topics live),
        read_push-push_buffer (raw_content topic message) rest
            (record { mode = omega arith; protocol = n; message_name = omega arith; body = m }),
        ground (arith, find-replace Bytes-discrete topic topic func sub.route_raw_map),
      )

  -- `cancel_subscribe` of a topic for messages ends a subscription to the same topic for raw data on
  -- the server, while the subscriber goes on saying that it has it.
  pub cancel_silences_raw :
      (topic message : Bytes) (topics : Topics) (sub : SubRouter)
      → IsTopics topics
      → is_subscribe_raw topic sub ≡ true
      → let (sub', content) = cancel_subscribe topic sub in
        (is_subscribe_raw topic sub' ≡ true)
        × (pushes conn (publish_raw pb conns topic message (handled content topics)) ≡ 0)
  unfolding publish_raw cancel_subscribe SubRouter.unbind is_subscribe_raw SubRouter.is_bind_raw
  cancel_silences_raw topic message topics sub t s =
      let (sub', content) = cancel_subscribe topic sub in
      (
        s,
        (publish_impl_exact pb conns (raw_content topic message) conn (handled content topics)
              (request-IsTopics pb conns r content conn topics live t)).0
            ∙ ground (arith, request-has_topic pb conns r content conn topic conn topics live),
      )

  abbrev among : Bytes → List Bytes → Bool
  among t [] = false
  among t (u ∷ us) = ite (Bytes-discrete u t) true false || among t us

  abbrev requests : List Bytes → List RequestContent
  requests = map (λ topic_name. topic_request 0 topic_name (codes "1"))

  handled_requests :
      (t : Bytes) (names : List Bytes) (topics : Topics)
      → has_topic conns.alive t conn (handled_all (requests names) topics)
        ≡ (among t names || has_topic conns.alive t conn topics)
  unfolding topic_request
  handled_requests t [] topics = refl
  handled_requests t (u ∷ us) topics =
      let content = topic_request 0 u (codes "1") in
      ground (
        arith,
        handled_requests t us (handled content topics),
        request-has_topic pb conns r content conn t conn topics live,
      )

  among-append : (t : Bytes) (us vs : List Bytes) → among t (us ++ vs) ≡ (among t us || among t vs)
  among-append t [] vs = refl
  among-append t (u ∷ us) vs = ground (arith, among-append t us vs)

  among-keys :
      (t : Bytes) (m : Map Bytes ℕ)
      → among t (Map.for_each_key (λ protocol. protocol) m) ≡ Map.exists Bytes-discrete t m
  unfolding Map.for_each_key Map.exists Map.find
  among-keys t [] = refl
  among-keys t ((u, f) ∷ m) = ground (arith, among-keys t m)

  -- When a server has handled the requests that a subscriber writes on connecting anew, the
  -- connection has, beside what it had, exactly the topics that the client says it is subscribed to,
  -- for messages or for raw data.
  pub retry_subscribe_restores :
      (topic : Bytes) (topics : Topics) (sub : SubRouter)
      → has_topic conns.alive topic conn (handled_all (retry_subscribe sub) topics) ≡ (
          is_subscribe topic sub
          || is_subscribe_raw topic sub
          || has_topic conns.alive topic conn topics)
  unfolding retry_subscribe get_all_topic is_subscribe is_subscribe_raw SubRouter.is_bind
      SubRouter.is_bind_raw
  retry_subscribe_restores topic topics sub = ground (
    arith,
    handled_requests topic (get_all_topic sub) topics,
    among-append topic (Map.for_each_key (λ protocol. protocol) sub.route_map)
        (Map.for_each_key (λ protocol. protocol) sub.route_raw_map),
    among-keys topic sub.route_map,
    among-keys topic sub.route_raw_map,
  )
