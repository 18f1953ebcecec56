-- ===== src/Server/TcpEndpoint/Accepts.antt =====
-- The accept loop of czrpc/server/tcp_endpoint.hpp, beside others on the same pool.
use czrpc.Prelude.{ℕ, ◌+◌, ◌%◌, List, [], ◌∷◌, some, length, ◌≡◌, arith}
use czrpc.Server.IoServicePool.{IoServicePool}
use czrpc.Server.IoServicePool.RoundRobin.{IsReady, get_io_service-next}
use czrpc.Server.TcpEndpoint.{TcpEndpoint, accept, fails, succeeds, Turn, ends, elsewhere}

-- No start of a connection throws.
abbrev pub NoThrows : List Turn → Type 0
NoThrows [] = Unit {0}
NoThrows (ends (succeeds (some x)) ∷ turns) = ⊥
NoThrows (turn ∷ turns) = NoThrows turns

-- The services of the connections that are started, when the first accept waits with a connection on
-- the service `s`, and `n` counts the services that the pool has given out.
abbrev pub spread : List Turn → ℕ → ℕ → ℕ → List ℕ
spread [] s n size = []
spread (elsewhere ∷ turns) s n size = spread turns s (n + 1) size
spread (ends fails ∷ turns) s n size = spread turns (n % size) (n + 1) size
spread (ends (succeeds x) ∷ turns) s n size = s ∷ spread turns (n % size) (n + 1) size

-- The service that the endpoint waits on at the end.
abbrev pub last_service : List Turn → ℕ → ℕ → ℕ → ℕ
last_service [] s n size = s
last_service (elsewhere ∷ turns) s n size = last_service turns s (n + 1) size
last_service (ends end ∷ turns) s n size = last_service turns (n % size) (n + 1) size

pub accept-next :
    (e : TcpEndpoint) (p : IoServicePool)
    → IsReady p
    → accept e p
      ≡ some (
        record e { accepting = some p.next_io_service },
        record p { next_io_service = (p.next_io_service + 1) % length p.ios_vec },
      )
unfolding accept
accept-next e p r = ground (arith, get_io_service-next p r)

-- The pool behind one more call of `get_io_service`.
abbrev moved : IoServicePool → IoServicePool
moved p = record p { next_io_service = (p.next_io_service + 1) % length p.ios_vec }
