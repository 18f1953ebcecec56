-- ===== src/Server/IoServicePool/RoundRobin.antt =====
-- `get_io_service` of czrpc/server/io_service_pool.hpp over many calls.
use czrpc.Prelude.{
  ℕ, zero, suc, ◌+◌, ◌<◌, ◌%◌, List, [], ◌∷◌, some, length, get_elem?, ◌≡◌, refl, ap, arith, ◌∙◌,
  sym, ℕ_discrete,
}
use native.Mathlib.Nat.{mod-eq_of_lt, mod_self, mod-add-mod, mod-mod, mod-lt}
use czrpc.Server.IoServicePool.{IoServicePool, get_io_service, get_io_services, next_after, again}

-- The place of the next service is in the pool.
abbrev pub IsReady : IoServicePool → Type 0
IsReady p = p.next_io_service < length p.ios_vec

module _ {ℓ} {A : Type ℓ} where
  get_elem?-some : (xs : List A) (i : ℕ) → i < length xs → (x : A) × (get_elem? xs i ≡ some x)
  get_elem?-some [] i h = absurd (omega arith)
  get_elem?-some (x ∷ xs) zero h = (x, refl)
  get_elem?-some (x ∷ xs) (suc i) h = get_elem?-some xs i (omega arith)

next_after-mod : (next size : ℕ) → next < size → next_after next size ≡ (next + 1) % size
unfolding next_after
next_after-mod next size h = elim (ℕ_discrete (next + 1) size) [
  | yes e ↦ ground (arith, mod_self size)
  | no n ↦ ground (arith, mod-eq_of_lt {n = next + 1} {m = size} (omega arith))
]

-- `n` places of a pool of that size, in turn, from the place `from` on.
abbrev pub turns : ℕ → ℕ → ℕ → List ℕ
turns zero from size = []
turns (suc n) from size = from % size ∷ turns n (from + 1) size

turns-mod : (n from size : ℕ) → turns n (from % size) size ≡ turns n from size
turns-mod zero from size = refl
turns-mod (suc n) from size =
    let rest =
      sym (turns-mod n (from % size + 1) size)
      ∙ ap (λ k. turns n k size) (mod-add-mod from size 1)
      ∙ turns-mod n (from + 1) size in
    rw (mod-mod from size, rest) refl

pub get_io_service-next :
    (p : IoServicePool)
    → IsReady p
    → get_io_service p
      ≡ some (
        p.next_io_service,
        record p { next_io_service = (p.next_io_service + 1) % length p.ios_vec },
      )
unfolding get_io_service
get_io_service-next p r =
    let (ios, found) = get_elem?-some p.ios_vec p.next_io_service r in
    ground (arith, found, next_after-mod p.next_io_service (length p.ios_vec) r)

pub get_io_services-turns :
    (n : ℕ) (p : IoServicePool)
    → IsReady p
    → get_io_services n p
      ≡ some (
        turns n p.next_io_service (length p.ios_vec),
        record p { next_io_service = (p.next_io_service + n) % length p.ios_vec },
      )
unfolding get_io_services again
get_io_services-turns zero p r = ground (arith, mod-eq_of_lt r)
get_io_services-turns (suc n) p r =
    let size = length p.ios_vec in
    let next = p.next_io_service in
    let p' : IoServicePool = record p { next_io_service = (next + 1) % size } in
    let moved : ((next + 1) % size + n) % size ≡ (next + suc n) % size =
      mod-add-mod (next + 1) size n ∙ ap (λ k. k % size) (omega arith) in
    ground (
      arith,
      get_io_service-next p r,
      get_io_services-turns n p' (mod-lt (next + 1) {m = size} (omega arith)),
      turns-mod n (next + 1) size,
      moved,
      mod-eq_of_lt r,
    )
