-- ===== src/Server/Setup.antt =====
-- The settings of czrpc/server/server.hpp and its `run`, which brings the endpoints up. A call to the
-- operating system that fails is an argument of `run`, as the exception of each `listen`.
pub mod Starts
use czrpc.Prelude.{
  ℕ, zero, suc, ◌+◌, ◌-◌, ◌*◌, ◌%◌, Bytes, Bool, true, false, ◌&&◌, ◌||◌, leb, List, [], ◌∷◌, ◌++◌,
  Option, none, some, ◌==◌, if◌then◌else◌, Result, ok, throw, Exception, ◌>>=◌, ◌>>◌,
}
use czrpc.Prelude.Decimal.{atoi}
use czrpc.Base.Util.{Endpoint, get_endpoint}
use czrpc.Base.ThreadPool as ThreadPool
use czrpc.Base.ThreadPool.{Pool}
use czrpc.Server.IoServicePool as IoServicePool
use czrpc.Server.IoServicePool.{IoServicePool}
use czrpc.Server.TcpEndpoint as TcpEndpoint
use czrpc.Server.TcpEndpoint.{TcpEndpoint, new_tcp_endpoint}

-- The server with its thread pool, and the pool of services, which is a singleton. A task of the
-- thread pool is known by a number.
pub record Server : Type 0 where
  pub timeout_milli : ℕ
  pub ios_thread_num : ℕ
  pub work_thread_num : ℕ
  pub endpoint_vec : List Endpoint
  pub tcp_endpoint_vec : List TcpEndpoint
  pub threadpool : Pool ℕ
  pub io_services : IoServicePool

-- The members as they are initialised.
abbrev pub new_server : Server
new_server = record {
  timeout_milli = 0;
  ios_thread_num = 1;
  work_thread_num = 1;
  endpoint_vec = [];
  tcp_endpoint_vec = [];
  threadpool = ThreadPool.init;
  io_services = IoServicePool.empty_pool;
}

unfoldable pub listen_address : Bytes → Server → Result Server
listen_address address s = do
  ep ← (get_endpoint address).0
  ok (record s { endpoint_vec = s.endpoint_vec ++ ep ∷ [] })

unfoldable pub listen_addresses : List Bytes → Server → Result Server
unfolding listen_address
listen_addresses [] s = ok s
listen_addresses (address ∷ rest) s = do s' ← listen_address address s; listen_addresses rest s'

unfoldable pub timeout : ℕ → Server → Server
timeout timeout_milli s = record s { timeout_milli = timeout_milli }

unfoldable pub ios_threads : ℕ → Server → Server
ios_threads num s = record s { ios_thread_num = num }

unfoldable pub work_threads : ℕ → Server → Server
work_threads num s = record s { work_thread_num = num }

is_blank : ℕ → Bool
is_blank c = c == 32 || (leb 9 c && leb c 13)

signed_port : Bytes → ℕ
signed_port [] = 0
signed_port (c ∷ cs) =
    let unsigned = atoi (c ∷ cs) in
    if c == 43
    then atoi cs % 65536
    else if c == 45
    then (65536 - atoi cs % 65536) % 65536
    else unsigned % 65536

-- `static_cast<unsigned short>(std::atoi(port))`: blanks and a sign may stand before the digits.
unfoldable pub to_port : Bytes → ℕ
unfolding signed_port is_blank
to_port [] = 0
to_port (c ∷ cs) = let behind = to_port cs in if is_blank c then behind else signed_port (c ∷ cs)

listened :
    Result TcpEndpoint
    → Option (Result (List TcpEndpoint × IoServicePool))
    → Option (Result (List TcpEndpoint × IoServicePool))
listened (throw x) rest = some (throw x)
listened (ok e) none = none
listened (ok e) (some (throw x)) = some (throw x)
listened (ok e) (some (ok (es, p))) = some (ok (e ∷ es, p))

-- The private `listen`: an endpoint for each address. `none`: the pool has no service.
unfoldable pub listen_all :
    (Endpoint → Option Exception)
    → List Endpoint
    → IoServicePool
    → Option (Result (List TcpEndpoint × IoServicePool))
unfolding listened
listen_all os [] p = some (ok ([], p))
listen_all os (ep ∷ eps) p = elim (new_tcp_endpoint p) [
  | none ↦ none
  | some (e, p') ↦
      listened (TcpEndpoint.listen (os ep) ep.ip (to_port ep.port) e) (listen_all os eps p')
]

first_accepts :
    TcpEndpoint
    → Option (List TcpEndpoint × IoServicePool)
    → Option (List TcpEndpoint × IoServicePool)
first_accepts e none = none
first_accepts e (some (es, p)) = some (e ∷ es, p)

-- The private `accept`.
unfoldable pub accept_all :
    List TcpEndpoint → IoServicePool → Option (List TcpEndpoint × IoServicePool)
unfolding first_accepts
accept_all [] p = some ([], p)
accept_all (e ∷ es) p = elim (TcpEndpoint.accept e p) [
  | none ↦ none
  | some (e', p') ↦ first_accepts e' (accept_all es p')
]

running : Server → List TcpEndpoint × IoServicePool → Server
running s (es, p) = record s { tcp_endpoint_vec = es; io_services = IoServicePool.run p }

accepting : Server → Option (List TcpEndpoint × IoServicePool) → Option (Result Server)
unfolding running
accepting s none = none
accepting s (some r) = some (ok (running s r))

listening : Server → Option (Result (List TcpEndpoint × IoServicePool)) → Option (Result Server)
unfolding accepting
listening s none = none
listening s (some (throw x)) = some (throw x)
listening s (some (ok (es, p))) = accepting s (accept_all (s.tcp_endpoint_vec ++ es) p)

multithreaded :
    (Endpoint → Option Exception) → Server → Result IoServicePool → Option (Result Server)
unfolding listening
multithreaded os s (throw x) = some (throw x)
multithreaded os s (ok p) =
    listening (record s { threadpool = ThreadPool.init_thread_num s.work_thread_num s.threadpool })
      (listen_all os s.endpoint_vec p)

unfoldable pub run : (Endpoint → Option Exception) → Server → Option (Result Server)
unfolding multithreaded
run os s = multithreaded os s (IoServicePool.multithreaded s.ios_thread_num s.io_services)

unfoldable pub stop : Server → Server
stop s = record s { io_services = IoServicePool.stop s.io_services }
