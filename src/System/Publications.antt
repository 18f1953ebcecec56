-- ===== src/System/Publications.antt =====
-- `publish` and `publish_raw` of czrpc/server/server.hpp as calls of a program, and what becomes of
-- what they send at a client, `router_thread` of czrpc/client/sub_client.hpp.
pub mod Reach
pub mod Effects
use czrpc.Prelude.{
  ℕ, zero, suc, ◌+◌, Bytes, Bytes-discrete, Bool, true, false, List, [], ◌∷◌, ◌++◌, append_assoc,
  map, Option, some, length, Bool-cases, inl, inr, take, cong_cons, All, replicate, ◌==◌,
  if◌then◌else◌, Result, ok, throw, ◌≡◌, refl, ap, sym, ◌∙◌, arith,
}
use mathlib.Core.Path.{subst}
use czrpc.Base.SerializeMode
use czrpc.Base.Protocol.{PushContent, push_header_len}
use czrpc.Base.Protobuf.{Protobuf, IsDocumented}
use czrpc.Base.Map
use czrpc.Base.SerializeUtil.{serialize, deserialize-serialize}
use czrpc.Wire.Reads.{read_frame}
use czrpc.Wire.Push.{push_buffer, read_push}
use czrpc.Wire.Push.RoundTrip.{IsSendable, read_push-push_buffer}
use czrpc.Server.RpcMessage.{Output, push, send, disconnect}
use czrpc.Server.Router.{Router}
use czrpc.Server.TopicManager.{Topics}
use czrpc.Server.Dispatch.{Connections, publish_impl, publish, publish_raw, raw_content}
use czrpc.Server.Dispatch.Publish.{
  pushes, IsPush, Event, after, AreLive, subscribed, publish_impl_exact, after-IsTopics,
  after-has_topic,
}
use czrpc.Server.SendQueue as SendQueue
use czrpc.Server.SendQueue.{no_writes}
use czrpc.Client.SubRouter as SubRouter
use czrpc.Client.SubRouter.{SubRouter, Call, raw_call, message_call}
use czrpc.Client.SubClient as SubClient
use czrpc.Client.SubClient.Pushes.{push_size, push_made}
use czrpc.Client.ReadLoop.{ReadLoop, received, receive}
use czrpc.Client.ReadLoop.Frames.{rounds_of, IsReading}
use czrpc.System.Delivery.{posted, NoFails, frames_delivered, sent_or_waiting}

module _ (pb : Protobuf) where
  -- A call of `publish` or of `publish_raw`.
  pub data Publication : Type 0 where
    message : pb.Message → Publication
    raw_data : Bytes → Publication

  module _ (topic : Bytes) where
    abbrev pub content_of : Publication → PushContent
    content_of (message m) = record {
      mode = SerializeMode.serialize;
      protocol = topic;
      message_name = pb.full_name m;
      body = pb.serialize_as_string m;
    }
    content_of (raw_data data') = raw_content topic data'

    -- The text lengths fit 32-bit words, and a message is initialised.
    abbrev pub CanPublish : Publication → Type 0
    CanPublish (message m) = (pb.is_initialized m ≡ true) × IsSendable (content_of (message m))
    CanPublish (raw_data data') = IsSendable (content_of (raw_data data'))

    -- The call that a publication comes to at a subscriber.
    abbrev pub called : ℕ → ℕ → Publication → Option (Call pb)
    called func raw_func (message m) = some (message_call func m)
    called func raw_func (raw_data data') = some (raw_call raw_func data')

    call-content_of :
        (func raw_func : ℕ) (sub : SubRouter) (p : Publication)
        → IsDocumented pb
        → Map.find Bytes-discrete topic sub.route_map ≡ some func
        → Map.find Bytes-discrete topic sub.route_raw_map ≡ some raw_func
        → CanPublish p
        → SubClient.router_thread pb (content_of p) sub ≡ called func raw_func p
    unfolding SubClient.router_thread SubRouter.route SubRouter.route_raw serialize
    call-content_of func raw_func sub (message m) doc f g h =
        ground (arith, deserialize-serialize pb doc m (pb.serialize_as_string m), h.0, f)
    call-content_of func raw_func sub (raw_data data') doc f g h = ground (arith, g)

    pub calls-contents_of :
        (func raw_func : ℕ) (sub : SubRouter) (ps : List Publication)
        → IsDocumented pb
        → Map.find Bytes-discrete topic sub.route_map ≡ some func
        → Map.find Bytes-discrete topic sub.route_raw_map ≡ some raw_func
        → All CanPublish ps
        → map (λ content. SubClient.router_thread pb content sub) (map content_of ps)
          ≡ map (called func raw_func) ps
    calls-contents_of func raw_func sub [] doc f g h = refl
    calls-contents_of func raw_func sub (p ∷ ps) doc f g h =
        cong_cons (call-content_of func raw_func sub p doc f g h.0)
          (calls-contents_of func raw_func sub ps doc f g h.1)

    pub content_topic : (p : Publication) → (content_of p).protocol ≡ topic
    content_topic (message m) = refl
    content_topic (raw_data data') = refl

    publication-IsSendable : (p : Publication) → CanPublish p → IsSendable (content_of p)
    publication-IsSendable (message m) h = h.1
    publication-IsSendable (raw_data data') h = h

    pub publications-IsSendable :
        (ps : List Publication) → All CanPublish ps → All IsSendable (map content_of ps)
    publications-IsSendable [] h = tt
    publications-IsSendable (p ∷ ps) h =
        (publication-IsSendable p h.0, publications-IsSendable ps h.1)

    module _ (conns : Connections) where
      abbrev or_nothing : Result (List Output) → List Output
      or_nothing (ok outputs) = outputs
      or_nothing (throw e) = []

      -- The calls of a program, one after the other; what one throws is caught by the program.
      abbrev pub publish_all : List Publication → Topics → List Output
      publish_all [] topics = []
      publish_all (message m ∷ ps) topics =
          or_nothing (publish pb conns topic (some m) topics) ++ publish_all ps topics
      publish_all (raw_data data' ∷ ps) topics =
          publish_raw pb conns topic data' topics ++ publish_all ps topics

      pub one_published :
          (p : Publication) (ps : List Publication) (topics : Topics)
          → CanPublish p
          → publish_all (p ∷ ps) topics
            ≡ publish_impl pb conns (content_of p) topics ++ publish_all ps topics
      unfolding publish publish_raw serialize
      one_published (message m) ps topics h = ground (arith, h.0)
      one_published (raw_data data') ps topics h = refl
