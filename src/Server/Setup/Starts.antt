-- ===== src/Server/Setup/Starts.antt =====
-- `run` of czrpc/server/server.hpp.
use czrpc.Prelude.{
  ℕ, ◌+◌, ◌<◌, ◌%◌, Bytes, false, List, [], ◌∷◌, ◌++◌, map, Option, none, some, length,
  length-append, length-replicate, replicate, All, ok, ◌≡◌, ◌≢◌, refl, ap, arith, ◌∙◌,
}
use mathlib.Core.Path.{subst}
use native.Mathlib.Nat.{mod-lt}
use czrpc.Base.Util.{Endpoint}
use czrpc.Base.ThreadPool as ThreadPool
use czrpc.Server.IoServicePool as IoServicePool
use czrpc.Server.IoServicePool.{IoService, IoServicePool, get_io_service, empty_pool, count_up}
use czrpc.Server.IoServicePool.RoundRobin.{IsReady, get_io_service-next}
use czrpc.Server.TcpEndpoint as TcpEndpoint
use czrpc.Server.TcpEndpoint.{TcpEndpoint, new_tcp_endpoint}
use czrpc.Server.TcpEndpoint.Accepts.{accept-next}
use czrpc.Server.Setup.{
  Server, to_port, listen_all, listened, accept_all, first_accepts, run, multithreaded, listening,
  accepting, running,
}

-- The pool that follows one call of `get_io_service`.
abbrev next_pool : IoServicePool → IoServicePool
next_pool p = record p { next_io_service = (p.next_io_service + 1) % length p.ios_vec }

next_pool-IsReady : (p : IoServicePool) → IsReady p → IsReady (next_pool p)
next_pool-IsReady p r = mod-lt (p.next_io_service + 1) {m = length p.ios_vec} (omega arith)

abbrev pub address : Endpoint → Option (Bytes × ℕ)
address ep = some (ep.ip, to_port ep.port)

abbrev pub listening_at : TcpEndpoint → Option (Bytes × ℕ)
listening_at e = e.listening

listen_all-opens :
    (eps : List Endpoint) (p : IoServicePool)
    → IsReady p
    → (es : List TcpEndpoint) × (p' : IoServicePool) × (listen_all (λ ep. none) eps p
        ≡ some (ok (es, p')))
      × (map listening_at es ≡ map address eps)
      × IsReady p'
      × (p'.ios_vec ≡ p.ios_vec)
      × (p'.thread_vec ≡ p.thread_vec)
unfolding listen_all listened new_tcp_endpoint TcpEndpoint.listen
listen_all-opens [] p r = ([], p, refl, refl, r, refl, refl)
listen_all-opens (ep ∷ eps) p r =
    let (es, p', e, same, r', ios, threads) =
      listen_all-opens eps (next_pool p) (next_pool-IsReady p r) in
    let opened : TcpEndpoint = record {
      acceptor_service = p.next_io_service;
      listening = address ep;
      accepting = none;
    } in
    (
      opened ∷ es,
      p',
      ground (arith, get_io_service-next p r, e),
      ap (λ l. address ep ∷ l) same,
      r',
      ios,
      threads,
    )

abbrev pub IsAccepting : ℕ → TcpEndpoint → Type 0
IsAccepting size e = (s : ℕ) × (e.accepting ≡ some s) × (s < size)

accept_all-accepts :
    (es : List TcpEndpoint) (p : IoServicePool)
    → IsReady p
    → (es' : List TcpEndpoint) × (p' : IoServicePool) × (accept_all es p ≡ some (es', p'))
      × (map listening_at es' ≡ map listening_at es)
      × All (IsAccepting (length p.ios_vec)) es'
      × (p'.ios_vec ≡ p.ios_vec)
      × (p'.thread_vec ≡ p.thread_vec)
unfolding accept_all first_accepts
accept_all-accepts [] p r = ([], p, refl, refl, tt, refl, refl)
accept_all-accepts (e ∷ es) p r =
    let (es', p', eq, same, all, ios, threads) =
      accept_all-accepts es (next_pool p) (next_pool-IsReady p r) in
    let e' : TcpEndpoint = record e { accepting = some p.next_io_service } in
    (
      e' ∷ es',
      p',
      ground (arith, accept-next e p r, eq),
      ap (λ l. e.listening ∷ l) same,
      ((p.next_io_service, refl, r), all),
      ios,
      threads,
    )

abbrev service : IoService
service = record { is_stopped = false }

abbrev first_pool : ℕ → IoServicePool
first_pool n = record empty_pool { ios_vec = replicate n service }

multithreaded_lem : (n : ℕ) → n ≢ 0 → IoServicePool.multithreaded n empty_pool ≡ ok (first_pool n)
unfolding IoServicePool.multithreaded
multithreaded_lem n h = ground arith

-- A server that is configured with one thread for connections or more, on a pool that has not been
-- used, starts if the operating system refuses no `listen`: it listens at its addresses in order, each
-- of its endpoints accepts on a service of the pool, every service of the pool has a thread, and the
-- thread pool has grown by the number of work threads.
pub run_starts :
    (s : Server)
    → s.ios_thread_num ≢ 0
    → s.io_services ≡ empty_pool
    → s.tcp_endpoint_vec ≡ []
    → (s' : Server) × (run (λ ep. none) s ≡ some (ok s'))
      × (map listening_at s'.tcp_endpoint_vec ≡ map address s.endpoint_vec)
      × All (IsAccepting s.ios_thread_num) s'.tcp_endpoint_vec
      × (s'.io_services.thread_vec ≡ count_up 0 s.ios_thread_num)
      × (length s'.threadpool.thread_vec ≡ length s.threadpool.thread_vec + s.work_thread_num)
unfolding run multithreaded listening accepting running IoServicePool.run ThreadPool.init_thread_num
run_starts s some_threads unused no_endpoints =
    let n = s.ios_thread_num in
    let size : length (first_pool n).ios_vec ≡ n = length-replicate n service in
    let s1 : Server = record s {
      threadpool = ThreadPool.init_thread_num s.work_thread_num s.threadpool;
    } in
    let (es, p, opens, at, ready, ios, threads) =
      listen_all-opens s.endpoint_vec (first_pool n) (omega (arith, size)) in
    let (es', p', accepts, at', all, ios', threads') = accept_all-accepts es p ready in
    (
      record s1 { tcp_endpoint_vec = es'; io_services = IoServicePool.run p' },
      ap (multithreaded (λ ep. none) s)
            (ap (IoServicePool.multithreaded n) unused ∙ multithreaded_lem n some_threads)
          ∙ ap (listening s1) opens
          ∙ ap (λ l. accepting s1 (accept_all (l ++ es) p)) no_endpoints
          ∙ ap (accepting s1) accepts,
      at' ∙ at,
      subst (λ k. All (IsAccepting k) es') (ap length ios ∙ size) all,
      ap (λ l. l ++ count_up 0 (length p'.ios_vec)) (threads' ∙ threads)
          ∙ ap (λ k. count_up 0 k) (ap length (ios' ∙ ios) ∙ size),
      length-append s.threadpool.thread_vec (replicate s.work_thread_num ThreadPool.ready)
          ∙ ap (λ k. length s.threadpool.thread_vec + k)
              (length-replicate s.work_thread_num ThreadPool.ready),
    )
