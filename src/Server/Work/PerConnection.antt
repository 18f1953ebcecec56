-- ===== src/Server/Work/PerConnection.antt =====
-- The requests of several connections, in two orders.
use czrpc.Prelude.{
  ℕ, Bytes, Bytes-discrete, true, List, [], ◌∷◌, ite, ◌==◌, if◌then◌else◌, All, Bool-cases, inl,
  inr, ◌≡◌, refl, ap, sym, ◌∙◌, arith,
}
use czrpc.Base.ClientType
use czrpc.Base.Protobuf.{Protobuf}
use czrpc.Base.Protocol.{RequestContent, subscribe_topic_flag, cancel_subscribe_topic_flag}
use czrpc.Server.Router.{Router}
use czrpc.Server.TopicManager.{Topics}
use czrpc.Server.TopicManager.Counts.{count_pair, count_pair-add_topic, count_pair_removed}
use czrpc.Server.TopicManager.Subscriptions.{subscriptions, subscriptions_same}
use czrpc.Server.Dispatch.{Connections, router_thread, subscriber_coming}
use czrpc.Server.Work.{Task, serve_all}

-- The requests of a connection, in their order.
abbrev pub of_connection : ℕ → List Task → List Task
of_connection c [] = []
of_connection c (t ∷ ts) = let rest = of_connection c ts in if t.1 == c then t ∷ rest else rest

module _ (pb : Protobuf) (conns : Connections) (r : Router pb) where
  -- How often the sender of a request stands under a topic behind the request.
  abbrev noted : RequestContent → Bytes → ℕ → ℕ
  noted content topic n =
      if content.flag.type == ClientType.sub_client
      then ite (Bytes-discrete content.protocol topic)
          (ite (Bytes-discrete content.body subscribe_topic_flag) (if n == 0 then 1 else n)
            (ite (Bytes-discrete content.body cancel_subscribe_topic_flag) 0 n))
          n
      else n

  subscriber-count_pair :
      (content : RequestContent) (conn : ℕ) (topic : Bytes) (c : ℕ) (topics : Topics)
      → conns.alive conn ≡ true
      → content.flag.type ≡ ClientType.sub_client
      → count_pair topic c (subscriber_coming pb conns content.protocol content.body conn topics)
        ≡ (if conn == c
            then noted content topic (count_pair topic c topics)
            else count_pair topic c topics)
  unfolding subscriber_coming
  subscriber-count_pair content conn topic c topics l s = ground (
    arith,
    count_pair-add_topic conns.alive content.protocol conn topics topic c l,
    count_pair_removed conns.alive content.protocol conn topics topic c l,
  )

  request-count_pair :
      (content : RequestContent) (conn : ℕ) (topic : Bytes) (c : ℕ) (topics : Topics)
      → conns.alive conn ≡ true
      → count_pair topic c (router_thread pb conns content conn r topics).0 ≡ (
          if conn == c
          then noted content topic (count_pair topic c topics)
          else count_pair topic c topics)
  unfolding router_thread
  request-count_pair content conn topic c topics l =
      ground (arith, subscriber-count_pair content conn topic c topics l)

  -- What requests of one connection come to, one after the other.
  all_noted : Bytes → List Task → ℕ → ℕ
  all_noted topic [] before = before
  all_noted topic (t ∷ ts) before = all_noted topic ts (noted t.0 topic before)

  serve_all-count_pair :
      (ts : List Task) (topic : Bytes) (c : ℕ) (topics : Topics)
      → All (λ t. conns.alive t.1 ≡ true) ts
      → count_pair topic c (serve_all pb conns r ts topics).0
        ≡ all_noted topic (of_connection c ts) (count_pair topic c topics)
  unfolding serve_all all_noted
  serve_all-count_pair [] topic c topics live = refl
  serve_all-count_pair (t ∷ ts) topic c topics live =
      let next = (router_thread pb conns t.0 t.1 r topics).0 in
      let said = request-count_pair t.0 t.1 topic c topics live.0 in
      serve_all-count_pair ts topic c next live.1 ∙ elim (Bool-cases (t.1 == c)) [
        | inl e ↦ ground (arith, e, said)
        | inr e ↦ ground (arith, e, said)
      ]

  -- The order of requests of different connections does not matter to the subscriptions. If each
  -- connection's requests stand in the same order in two lists of requests of live connections, then by
  -- either the server comes to a table in which each live connection stands under each topic equally
  -- often, that is, to the same table but for the order of its entries and the entries of connections
  -- that are no more.
  pub connection_order_decides :
      (ts us : List Task) (topics : Topics)
      → All (λ t. conns.alive t.1 ≡ true) ts
      → All (λ t. conns.alive t.1 ≡ true) us
      → ((c : ℕ) → of_connection c ts ≡ of_connection c us)
      → subscriptions conns.alive (serve_all pb conns r ts topics).0
        ≡ subscriptions conns.alive (serve_all pb conns r us topics).0
  connection_order_decides ts us topics l k same = subscriptions_same conns.alive _ _ (λ topic c.
      ap (λ n. if conns.alive c then n else 0)
        (serve_all-count_pair ts topic c topics l
          ∙ ap (λ vs. all_noted topic vs (count_pair topic c topics)) (same c)
          ∙ sym (serve_all-count_pair us topic c topics k)))
