-- ===== src/Server/IoServicePool.antt =====
-- `io_service_pool` of czrpc/server/io_service_pool.hpp, which is a singleton. A service is known by
-- its place in `ios_vec_`.
pub mod RoundRobin
use czrpc.Prelude.{
  ℕ, zero, suc, ◌+◌, Bool, true, false, List, [], ◌∷◌, ◌++◌, map, Option, none, some, codes, length,
  get_elem?, replicate, ◌==◌, if◌then◌else◌, Result, ok, throw, runtime_error,
}

pub record IoService : Type 0 where
  pub is_stopped : Bool

abbrev stopped : IoService → IoService
stopped ios = record ios { is_stopped = true }

pub record IoServicePool : Type 0 where
  pub ios_vec : List IoService
  -- the services that a thread has been started for, in order
  pub thread_vec : List ℕ
  pub next_io_service : ℕ

abbrev pub empty_pool : IoServicePool
empty_pool = record { ios_vec = []; thread_vec = []; next_io_service = 0 }

unfoldable pub multithreaded : ℕ → IoServicePool → Result IoServicePool
multithreaded num p =
    if num == 0
    then throw (runtime_error (codes "io server pool size is 0"))
    else ok (record p { ios_vec = p.ios_vec ++ replicate num (record { is_stopped = false }) })

abbrev pub count_up : ℕ → ℕ → List ℕ
count_up from zero = []
count_up from (suc n) = from ∷ count_up (suc from) n

-- A thread for each service.
unfoldable pub run : IoServicePool → IoServicePool
run p = record p { thread_vec = p.thread_vec ++ count_up 0 (length p.ios_vec) }

-- `stop_io_services`; then each thread is joined.
unfoldable pub stop : IoServicePool → IoServicePool
stop p = record p { ios_vec = map stopped p.ios_vec }

next_after : ℕ → ℕ → ℕ
next_after next size = if next + 1 == size then 0 else next + 1

-- The service, and the pool behind the call. `none`: the pool has no service at that place, which the
-- code does not test.
unfoldable pub get_io_service : IoServicePool → Option (ℕ × IoServicePool)
unfolding next_after
get_io_service p = elim (get_elem? p.ios_vec p.next_io_service) [
  | none ↦ none
  | some ios ↦ some (
    p.next_io_service,
    record p { next_io_service = next_after p.next_io_service (length p.ios_vec) },
  )
]

-- `n` calls of `get_io_service`, one after the other.
again : ℕ → Option (List ℕ × IoServicePool) → Option (List ℕ × IoServicePool)
again s none = none
again s (some (services, p)) = some (s ∷ services, p)

unfoldable pub get_io_services : ℕ → IoServicePool → Option (List ℕ × IoServicePool)
unfolding again
get_io_services zero p = some ([], p)
get_io_services (suc n) p = elim (get_io_service p) [
  | none ↦ none
  | some (s, p') ↦ again s (get_io_services n p')
]
