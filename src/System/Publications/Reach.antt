-- ===== src/System/Publications/Reach.antt =====
-- Publications from the server's `publish_impl` through the send queue of a connection and the read
-- loop of a client to the functions that the client has subscribed with.
use czrpc.Prelude.{
  ℕ, suc, ◌+◌, Bytes, Bytes-discrete, true, List, [], ◌∷◌, ◌++◌, map, some, length, Bool-cases, inl,
  inr, take, take-map, concat, All-take, All, replicate, ◌==◌, if◌then◌else◌, ◌≡◌, refl, ap, ◌∙◌,
  arith,
}
use mathlib.Core.Path.{subst}
use czrpc.Base.Protocol.{PushContent, push_header_len}
use czrpc.Base.Protobuf.{Protobuf, IsDocumented}
use czrpc.Base.Map
use czrpc.Wire.Reads.{read_frame}
use czrpc.Wire.Push.{push_buffer, read_push}
use czrpc.Wire.Push.RoundTrip.{IsSendable, read_push-push_buffer}
use czrpc.Server.RpcMessage.{Output, push, send, disconnect}
use czrpc.Server.Router.{Router}
use czrpc.Server.Dispatch.{Connections, publish_impl}
use czrpc.Server.Dispatch.Publish.{
  pushes, IsPush, Event, after, AreLive, subscribed, publish_impl_exact, after-IsTopics,
  after-has_topic,
}
use czrpc.Server.SendQueue as SendQueue
use czrpc.Server.SendQueue.{no_writes}
use czrpc.Client.SubRouter.{SubRouter}
use czrpc.Client.SubClient as SubClient
use czrpc.Client.SubClient.Pushes.{push_size, push_made}
use czrpc.Client.ReadLoop.{ReadLoop, received, receive}
use czrpc.Client.ReadLoop.Frames.{rounds_of, IsReading}
use czrpc.System.Publications.{
  Publication, content_of, CanPublish, called, calls-contents_of, content_topic,
  publications-IsSendable, publish_all, one_published,
}
use czrpc.System.Delivery.{posted, NoFails, frames_delivered, sent_or_waiting}

-- What `async_write` of a connection is given: the frames of the pushes to it.
abbrev pub buffers : ℕ → List Output → List Bytes
buffers c [] = []
buffers c (push d content ∷ rest) =
    let later = buffers c rest in if d == c then push_buffer content ∷ later else later
buffers c (o ∷ rest) = buffers c rest

replicate_one_more : (n : ℕ) (b : Bytes) → replicate (1 + n) b ≡ b ∷ replicate n b
replicate_one_more n b = let e : 1 + n ≡ suc n = omega arith in ap (λ m. replicate m b) e

replicate_none_more : (n : ℕ) (b : Bytes) → replicate (0 + n) b ≡ replicate n b
replicate_none_more n b = ap (λ m. replicate m b) (omega arith)

buffers-pushes :
    (c : ℕ) (content : PushContent) (os : List Output)
    → All (IsPush content) os
    → buffers c os ≡ replicate (pushes c os) (push_buffer content)
buffers-pushes c content [] h = refl
buffers-pushes c content (push d sent ∷ os) h = elim (Bool-cases (d == c)) [
  | inl e ↦ ground (
    arith,
    e,
    buffers-pushes c content os h.1,
    h.0,
    replicate_one_more (pushes c os) (push_buffer content),
  )
  | inr e ↦ ground (
    arith,
    e,
    buffers-pushes c content os h.1,
    replicate_none_more (pushes c os) (push_buffer content),
  )
]
buffers-pushes c content (send d sent ∷ os) h = absurd h.0
buffers-pushes c content (disconnect d ∷ os) h = absurd h.0

buffers-append :
    (c : ℕ) (os later : List Output) → buffers c (os ++ later) ≡ buffers c os ++ buffers c later
buffers-append c [] later = refl
buffers-append c (push d content ∷ os) later = ground (arith, buffers-append c os later)
buffers-append c (o ∷ os) later = buffers-append c os later

push_read :
    (content : PushContent) (rest : Bytes)
    → IsSendable content
    → read_frame push_header_len push_size push_made (push_buffer content ++ rest)
      ≡ some (content, rest)
unfolding read_push
push_read content rest s = read_push-push_buffer content rest s

module _ (pb : Protobuf) (topic : Bytes) (conns : Connections) (r : Router pb) (conn : ℕ)
    (events : List (Event pb conns)) (live : AreLive pb conns events)
    (s : subscribed pb conns topic conn events ≡ true) where
  buffers-publish_impl :
      (content : PushContent)
      → content.protocol ≡ topic
      → buffers conn (publish_impl pb conns content (after pb conns r events))
        ≡ push_buffer content ∷ []
  buffers-publish_impl content e =
      let topics = after pb conns r events in
      let (count, all) =
        publish_impl_exact pb conns content conn topics (after-IsTopics pb conns r events live) in
      buffers-pushes conn content (publish_impl pb conns content topics) all
      ∙ ground (arith, count, after-has_topic pb conns r topic conn events live)

  buffers-publish_all :
      (ps : List (Publication pb))
      → All (CanPublish pb topic) ps
      → buffers conn (publish_all pb topic conns ps (after pb conns r events))
        ≡ map push_buffer (map (content_of pb topic) ps)
  buffers-publish_all [] h = refl
  buffers-publish_all (p ∷ ps) h =
      let topics = after pb conns r events in
      ap (buffers conn) (one_published pb topic conns p ps topics h.0)
      ∙ buffers-append conn (publish_impl pb conns (content_of pb topic p) topics)
          (publish_all pb topic conns ps topics)
      ∙ ap (λ bs. bs ++ buffers conn (publish_all pb topic conns ps topics))
          (buffers-publish_impl (content_of pb topic p) (content_topic pb topic p))
      ∙ ap (◌∷◌ (push_buffer (content_of pb topic p))) (buffers-publish_all ps h.1)

  -- After a history of requests and errors of live connections in which the last word of a connection
  -- on a topic was to subscribe, a program publishes messages, which are initialised, and raw data on
  -- the topic, with text lengths that are 32-bit words; the frames that go to the connection are posted
  -- to its send queue and no write fails, whatever else happens when. Then the frames written whole and
  -- those that wait are the frames of all that was published, in order; a client that waits for a push
  -- hands on exactly what has been written whole, each publication once and in order, and waits for the
  -- next; and where the client has functions under the topic, each is called with the very message or
  -- data that was published. Protobuf does as it documents.
  pub publications_reach :
      (ps : List (Publication pb)) (es : List SendQueue.Event) (rest : Bytes) (func raw_func : ℕ)
      (c : ReadLoop) (sub : SubRouter)
      → All (CanPublish pb topic) ps
      → posted es ≡ buffers conn (publish_all pb topic conns ps (after pb conns r events))
      → NoFails es
      → IsReading push_size push_made push_header_len c
      → IsDocumented pb
      → Map.find Bytes-discrete topic sub.route_map ≡ some func
      → Map.find Bytes-discrete topic sub.route_raw_map ≡ some raw_func
      → let q = SendQueue.run es no_writes in
        let whole = take (length q.sent) ps in
        ((end : ReadLoop) × (receive push_size push_made push_header_len
              (rounds_of push_size push_made push_header_len (map (content_of pb topic) whole))
              (concat q.sent ++ rest)
              c
            ≡ (rest, (end, map received (map (content_of pb topic) whole))))
          × IsReading push_size push_made push_header_len end)
        × (map (λ content. SubClient.router_thread pb content sub) (map (content_of pb topic) whole)
            ≡ map (called pb topic func raw_func) whole)
        × (q.sent ++ q.send_queue ≡ map push_buffer (map (content_of pb topic) ps))
  publications_reach ps es rest func raw_func c sub h p n l doc f g =
      let q = SendQueue.run es no_writes in
      let all_frames = p ∙ buffers-publish_all ps h in
      let (end, hands_on, reading) =
        frames_delivered push_size push_made push_header_len push_buffer IsSendable push_read
          (map (content_of pb topic) ps) es rest c (publications-IsSendable pb topic ps h) n
          all_frames l in
      let same = take-map (content_of pb topic) (length q.sent) ps in
      (
        subst
            (λ contents.
              (end : ReadLoop) × (receive push_size push_made push_header_len
                  (rounds_of push_size push_made push_header_len contents) (concat q.sent ++ rest) c
                ≡ (rest, (end, map received contents)))
              × IsReading push_size push_made push_header_len end)
            same (end, hands_on, reading),
        calls-contents_of pb topic func raw_func sub (take (length q.sent) ps) doc f g
            (All-take (CanPublish pb topic) (length q.sent) ps h),
        sent_or_waiting es n ∙ all_frames,
      )
