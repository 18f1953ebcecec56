-- ===== src/Tests/SetupTests.antt =====
-- Servers that come up, and the pool of services, at concrete inputs.
use czrpc.Prelude.{
  ℕ, codes, false, List, [], ◌∷◌, none, some, ok, length, All, map, ◌≡◌, refl, arith,
}
use czrpc.Prelude.Decimal.{atoi}
use czrpc.Server.IoServicePool.{IoServicePool, IoService, get_io_services, empty_pool}
use czrpc.Server.IoServicePool.RoundRobin.{get_io_services-turns}
use czrpc.Server.TcpEndpoint.{TcpEndpoint, Turn, ends, elsewhere, fails, succeeds}
use czrpc.Server.Setup.{Server, new_server, run, to_port}
use czrpc.Server.Setup.Starts.{IsAccepting, listening_at, run_starts}

abbrev three_services : List IoService
three_services =
    record { is_stopped = false }
    ∷ record { is_stopped = false }
    ∷ record { is_stopped = false }
    ∷ []

abbrev pool_at : ℕ → IoServicePool
pool_at next = record empty_pool { ios_vec = three_services; next_io_service = next }

get_io_services-turns_example : get_io_services 4 (pool_at 1) ≡ some (1 ∷ 2 ∷ 0 ∷ 1 ∷ [], pool_at 2)
get_io_services-turns_example = get_io_services-turns 4 (pool_at 1) (omega arith)

abbrev waiting_endpoint : ℕ → TcpEndpoint
waiting_endpoint s = record {
  acceptor_service = 0;
  listening = some (codes "1.2.3.4", 80);
  accepting = some s;
}

-- Between the accepts of this endpoint, another one takes a service.
abbrev some_turns : List Turn
some_turns = ends (succeeds none) ∷ elsewhere ∷ ends fails ∷ ends (succeeds none) ∷ []

abbrev two_addresses : Server
two_addresses = record new_server {
  endpoint_vec =
      record { ip = codes "1.2.3.4"; port = codes "80" }
      ∷ record { ip = codes "1.2.3.4"; port = codes "81" }
      ∷ [];
  ios_thread_num = 2;
}

run_starts_example :
    (s' : Server) × (run (λ ep. none) two_addresses ≡ some (ok s'))
    × (map listening_at s'.tcp_endpoint_vec
        ≡ some (codes "1.2.3.4", 80) ∷ some (codes "1.2.3.4", 81) ∷ [])
    × All (IsAccepting 2) s'.tcp_endpoint_vec
    × (s'.io_services.thread_vec ≡ 0 ∷ 1 ∷ [])
    × (length s'.threadpool.thread_vec ≡ 1)
unfolding to_port atoi
run_starts_example = run_starts two_addresses (λ e. cc) refl refl
