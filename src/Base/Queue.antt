-- ===== src/Base/Queue.antt =====
-- `threadsafe_list` of czrpc/base/table/threadsafe_list.hpp: its entries, the first in front. Every
-- method holds the mutex throughout, so each is one atomic step.
use czrpc.Prelude.{
  ℕ, ◌+◌, Bool, List, [], ◌∷◌, ◌++◌, Option, none, some, length, is_empty, ◌≡◌, refl, arith,
  length-append,
}

abbrev pub Queue {ℓ} : Type ℓ → Type ℓ
Queue A = List A

module _ {ℓ} {A : Type ℓ} where
  unfoldable pub emplace_back : A → Queue A → Queue A
  emplace_back a q = q ++ a ∷ []

  -- `none` is the undefined behaviour of `list_.front()` on an empty list.
  unfoldable pub front : Queue A → Option A
  front [] = none
  front (a ∷ q) = some a

  unfoldable pub pop_front : Queue A → Queue A
  pop_front [] = []
  pop_front (a ∷ q) = q

  unfoldable pub clear : Queue A → Queue A
  clear q = []

  unfoldable pub empty : Queue A → Bool
  empty q = is_empty q

  unfoldable pub size : Queue A → ℕ
  size q = length q

  -- What `emplace_back` adds comes to the front when what stood before it has been popped.
  pub pop_all-emplace_back :
      (a : A) (q : Queue A)
      → (size (emplace_back a q) ≡ size q + 1)
        × (front (emplace_back a q) ≡ elim q [ [] ↦ some a | b ∷ r ↦ some b ])
        × (pop_front (emplace_back a q) ≡ elim q [ [] ↦ [] | b ∷ r ↦ emplace_back a r ])
  unfolding emplace_back front pop_front size
  pop_all-emplace_back a [] = (refl, refl, refl)
  pop_all-emplace_back a (b ∷ r) = (omega (arith, length-append r (a ∷ [])), refl, refl)
