-- ===== src/Server/Dispatch/Publish.antt =====
-- `publish` of czrpc/server/server.hpp over whole histories of requests and errors.
use czrpc.Prelude.{
  ℕ, ◌+◌, Bytes, Bytes-discrete, Bool, true, false, ◌&&◌, List, [], ◌∷◌, ite, ◌==◌, if◌then◌else◌,
  ◌≡◌, refl, arith, All, ◌∙◌, ap,
}
use czrpc.Base.ClientType
use czrpc.Base.Protocol.{
  RequestContent, PushContent, subscribe_topic_flag, cancel_subscribe_topic_flag,
}
use czrpc.Base.Protobuf.{Protobuf}
use czrpc.Server.RpcMessage.{Output, push}
use czrpc.Server.Router.{Router}
use czrpc.Server.TopicManager.{Topics, has_topic, get_connection_by_topic}
use czrpc.Server.TopicManager.Sets.{
  is_topic, has_topic-add_topic, has_topic-remove_topic, has_topic-remove_all_topic,
}
use czrpc.Server.TopicManager.Counts.{
  IsTopics, count, count-get_connection_by_topic, has_topic-count, add_topic-IsTopics,
  remove_topic-IsTopics, remove_all_topic-IsTopics,
}
use czrpc.Server.Dispatch.{
  Connections, subscriber_coming, router_thread, handle_error, push_to, publish_impl, publish_raw,
  raw_content,
}

-- How often `content` is pushed to `c`, if that is all that is done.
abbrev pub pushes : ℕ → List Output → ℕ
pushes c [] = 0
pushes c (push d content ∷ rest) = (if d == c then 1 else 0) + pushes c rest
pushes c (o ∷ rest) = pushes c rest

abbrev pub IsPush : PushContent → Output → Type 0
IsPush content (push d sent) = sent ≡ content
IsPush content o = ⊥

module _ (pb : Protobuf) (conns : Connections) where
  abbrev pub alive : ℕ → Bool
  alive = conns.alive

  pushes-push_to :
      (c : ℕ) (content : PushContent) (ws : List ℕ)
      → pushes c (push_to pb conns content ws) ≡ (if alive c then count c ws else 0)
  unfolding push_to
  pushes-push_to c content [] = ground arith
  pushes-push_to c content (w ∷ ws) = ground (arith, pushes-push_to c content ws)

  push_to-IsPush :
      (content : PushContent) (ws : List ℕ) → All (IsPush content) (push_to pb conns content ws)
  unfolding push_to
  push_to-IsPush content [] = tt
  push_to-IsPush content (w ∷ ws) = ground (arith, push_to-IsPush content ws)

  -- What is published goes to the live subscribers of its topic, once to each, and nothing else is
  -- done.
  pub publish_impl_exact :
      (content : PushContent) (c : ℕ) (topics : Topics)
      → IsTopics topics
      → (pushes c (publish_impl pb conns content topics)
          ≡ (if has_topic alive content.protocol c topics then 1 else 0))
        × All (IsPush content) (publish_impl pb conns content topics)
  unfolding publish_impl
  publish_impl_exact content c topics h = (
    ground (
      arith,
      h content.protocol c,
      pushes-push_to c content (get_connection_by_topic content.protocol topics),
      count-get_connection_by_topic content.protocol c topics,
      has_topic-count alive content.protocol c topics,
    ),
    push_to-IsPush content _,
  )

  -- What changes the topics: a request that a thread of the pool handles, and the error of a
  -- subscriber's connection.
  pub data Event : Type 0 where
    request : RequestContent → ℕ → Event
    error : ℕ → Event

  abbrev pub sender : Event → ℕ
  sender (request content conn) = conn
  sender (error conn) = conn

  module _ (r : Router pb) where
    abbrev pub apply : Event → Topics → Topics
    apply (request content conn) topics = (router_thread pb conns content conn r topics).0
    apply (error conn) topics = handle_error pb conns conn topics

    -- The topics after a history, the newest event first.
    abbrev pub after : List Event → Topics
    after [] = []
    after (e ∷ older) = apply e (after older)

  -- What a request says of a topic.
  abbrev pub word : RequestContent → Bytes → Bool → Bool
  word content t before =
      if content.flag.type == ClientType.sub_client && is_topic alive content.protocol t
      then ite (Bytes-discrete content.body subscribe_topic_flag) true
          (ite (Bytes-discrete content.body cancel_subscribe_topic_flag) false before)
      else before

  -- The last word of connection `c` on the topic `t`: an error ends its subscriptions.
  abbrev pub subscribed : Bytes → ℕ → List Event → Bool
  subscribed t c [] = false
  subscribed t c (request content conn ∷ older) =
      if conn == c then word content t (subscribed t c older) else subscribed t c older
  subscribed t c (error conn ∷ older) = if conn == c then false else subscribed t c older

  abbrev pub AreLive : List Event → Type 0
  AreLive = All (λ e. alive (sender e) ≡ true)

  subscriber-has_topic :
      (content : RequestContent) (conn : ℕ) (t : Bytes) (c : ℕ) (topics : Topics)
      → alive conn ≡ true
      → content.flag.type ≡ ClientType.sub_client
      → has_topic alive t c (subscriber_coming pb conns content.protocol content.body conn topics)
        ≡ (if conn == c
            then word content t (has_topic alive t c topics)
            else has_topic alive t c topics)
  unfolding subscriber_coming
  subscriber-has_topic content conn t c topics l s = ground (
    arith,
    has_topic-add_topic alive content.protocol t conn c topics l,
    has_topic-remove_topic alive content.protocol t conn c topics,
  )

  module _ (r : Router pb) where
    pub request-has_topic :
        (content : RequestContent) (conn : ℕ) (t : Bytes) (c : ℕ) (topics : Topics)
        → alive conn ≡ true
        → has_topic alive t c (router_thread pb conns content conn r topics).0 ≡ (
            if conn == c
            then word content t (has_topic alive t c topics)
            else has_topic alive t c topics)
    unfolding router_thread
    request-has_topic content conn t c topics l =
        ground (arith, subscriber-has_topic content conn t c topics l)

    pub after-has_topic :
        (t : Bytes) (c : ℕ) (events : List Event)
        → AreLive events
        → has_topic alive t c (after r events) ≡ subscribed t c events
    unfolding has_topic handle_error
    after-has_topic t c [] l = refl
    after-has_topic t c (request content conn ∷ older) l = ground (
      arith,
      request-has_topic content conn t c (after r older) l.0,
      after-has_topic t c older l.1,
    )
    after-has_topic t c (error conn ∷ older) l = ground (
      arith,
      has_topic-remove_all_topic alive t conn c (after r older),
      after-has_topic t c older l.1,
    )

    pub request-IsTopics :
        (content : RequestContent) (conn : ℕ) (topics : Topics)
        → alive conn ≡ true
        → IsTopics topics
        → IsTopics (router_thread pb conns content conn r topics).0
    unfolding router_thread subscriber_coming
    request-IsTopics content conn topics l h t c = ground (
      arith,
      h t c,
      add_topic-IsTopics alive content.protocol conn topics l h t c,
      remove_topic-IsTopics alive content.protocol conn topics h t c,
    )

    pub after-IsTopics : (events : List Event) → AreLive events → IsTopics (after r events)
    unfolding handle_error
    after-IsTopics [] l = λ t c. omega arith
    after-IsTopics (request content conn ∷ older) l =
        request-IsTopics content conn (after r older) l.0 (after-IsTopics older l.1)
    after-IsTopics (error conn ∷ older) l =
        remove_all_topic-IsTopics alive conn (after r older) (after-IsTopics older l.1)

    -- After any history of requests and errors of live connections, raw data that is published on a
    -- topic is pushed exactly once to each connection whose last word on the topic, since the last
    -- error of the connection, was to subscribe, and not at all to any other.
    pub publish_raw_exact :
        (topic message : Bytes) (c : ℕ) (events : List Event)
        → AreLive events
        → pushes c (publish_raw pb conns topic message (after r events))
          ≡ (if subscribed topic c events then 1 else 0)
    unfolding publish_raw
    publish_raw_exact topic message c events l =
        (publish_impl_exact (raw_content topic message) c (after r events)
          (after-IsTopics events l)).0
        ∙ ap (λ (b : Bool). if b then 1 else 0) (after-has_topic topic c events l)
