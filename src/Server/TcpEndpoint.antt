-- ===== src/Server/TcpEndpoint.antt =====
-- `tcp_endpoint` of czrpc/server/tcp_endpoint.hpp: an acceptor and the connection that it waits with.
-- What the operating system says to the calls of `listen` is an argument.
pub mod Accepts
use czrpc.Prelude.{
  ℕ, Bytes, Bool, true, false, List, [], ◌∷◌, Option, none, some, if◌then◌else◌, Result, ok, throw,
  Exception, ◌>>=◌, ◌>>◌,
}
use czrpc.Server.IoServicePool.{IoServicePool, get_io_service}

pub record TcpEndpoint : Type 0 where
  pub acceptor_service : ℕ
  -- the address that it listens at
  pub listening : Option (Bytes × ℕ)
  -- the service of the connection that an `async_accept` has been started for
  pub accepting : Option ℕ

-- The acceptor stands on a service of the pool too. `none` comes from an empty pool.
unfoldable pub new_tcp_endpoint : IoServicePool → Option (TcpEndpoint × IoServicePool)
new_tcp_endpoint p = elim (get_io_service p) [
  | none ↦ none
  | some (s, p') ↦ some (record { acceptor_service = s; listening = none; accepting = none }, p')
]

unfoldable pub listen : Option Exception → Bytes → ℕ → TcpEndpoint → Result TcpEndpoint
listen none ip port e = ok (record e { listening = some (ip, port) })
listen (some x) ip port e = throw x

-- A new connection, and an `async_accept` for it.
unfoldable pub accept : TcpEndpoint → IoServicePool → Option (TcpEndpoint × IoServicePool)
accept e p = elim (get_io_service p) [
  | none ↦ none
  | some (s, p') ↦ some (record e { accepting = some s }, p')
]

-- The end of an accept.
pub data AcceptEnd : Type 0 where
  fails : AcceptEnd
  -- the connection is started; its `start` may throw
  succeeds : Option Exception → AcceptEnd

-- The handler of `async_accept`: the accept that follows, unless an exception leaves the handler.
unfoldable pub on_accept :
    AcceptEnd → TcpEndpoint → IoServicePool → Result (Option (TcpEndpoint × IoServicePool))
unfolding accept
on_accept fails e p = ok (accept e p)
on_accept (succeeds none) e p = ok (accept e p)
on_accept (succeeds (some x)) e p = throw x

accepted : AcceptEnd → Option ℕ → List ℕ → List ℕ
accepted (succeeds none) (some s) later = s ∷ later
accepted end connection later = later

-- What happens at a server, as far as one endpoint can see: the end of its accept, or a call of
-- `get_io_service` from elsewhere, by another endpoint's accept or by its constructor.
pub data Turn : Type 0 where
  ends : AcceptEnd → Turn
  elsewhere : Turn

-- The accepts of one endpoint, one after the other, with the services of the connections that have
-- been started. `none`: an exception has left a handler, or the pool is empty.
unfoldable pub accepts :
    List Turn → TcpEndpoint → IoServicePool → Option (List ℕ × (TcpEndpoint × IoServicePool))
unfolding accepted
accepts [] e p = some ([], (e, p))
accepts (elsewhere ∷ turns) e p = elim (get_io_service p) [
  | none ↦ none
  | some (s, p') ↦ accepts turns e p'
]
accepts (ends end ∷ turns) e p = elim (on_accept end e p) [
  | throw x ↦ none
  | ok none ↦ none
  | ok (some (e', p')) ↦ elim (accepts turns e' p') [
    | none ↦ none
    | some (services, state) ↦ some (accepted end e.accepting services, state)
  ]
]
