-- ===== src/System.antt =====
-- The client and the server together: the bytes that the one writes are the bytes that the other
-- reads. `served` is what a server writes to a connection for the first request of its stream.
pub mod RawCall
pub mod PubSub
pub mod AsyncCall
pub mod AsyncCalls
pub mod Delivery
pub mod Publications
use czrpc.Prelude.{ℕ, Bytes, List, [], ◌∷◌, ◌++◌, Option, none, some, if◌then◌else◌, ◌==◌}
use czrpc.Base.Protobuf.{Protobuf}
use czrpc.Wire.Request.{read_request}
use czrpc.Wire.Response.{response_buffer}
use czrpc.Wire.Push.{push_buffer}
use czrpc.Server.RpcMessage.{Output, send, push, disconnect}
use czrpc.Server.Router.{Router}
use czrpc.Server.TopicManager.{Topics}
use czrpc.Server.Dispatch.{Connections, router_thread}

-- What goes to one connection.
unfoldable pub written_to : ℕ → List Output → Bytes
written_to conn [] = []
written_to conn (send c content ∷ rest) =
    let later = written_to conn rest in
    if c == conn then response_buffer content ++ later else later
written_to conn (push c content ∷ rest) =
    let later = written_to conn rest in if c == conn then push_buffer content ++ later else later
written_to conn (disconnect c ∷ rest) = if c == conn then [] else written_to conn rest

module _ (pb : Protobuf) (conns : Connections) where
  unfoldable pub served : Router pb → Topics → ℕ → Bytes → Bytes
  unfolding written_to
  served r topics conn stream = elim (read_request stream) [
    | none ↦ []
    | some (content, rest) ↦ written_to conn (router_thread pb conns content conn r topics).1
  ]
