-- ===== src/Base/Map.antt =====
-- `threadsafe_unordered_map` of czrpc/base/table/threadsafe_unordered_map.hpp: its entries, in the
-- order in which a walk meets them. Every method holds the mutex from its first line to its last, so
-- each is one atomic step. `std::unordered_map` promises no order; a new entry stands in front here,
-- and no theorem but those on walks speaks of the order.
pub mod Laws
use czrpc.Prelude.{
  ℕ, Bool, true, false, not, ◌&&◌, List, [], ◌∷◌, ◌++◌, map, Option, none, some, ite, length, ◌≡◌,
  if◌then◌else◌,
}

abbrev pub Map {ℓ} : Type ℓ → Type ℓ → Type ℓ
Map K V = List (K × V)

module _ {ℓ} {K V : Type ℓ} (dec : Discrete K) where
  -- `find(key, out_value)`: `none` is the result false.
  unfoldable pub find : K → Map K V → Option V
  find k [] = none
  find k ((j, v) ∷ m) = ite (dec j k) (some v) (find k m)

  unfoldable pub exists : K → Map K V → Bool
  exists k m = elim (find k m) [ none ↦ false | some v ↦ true ]

  -- `map_.emplace` leaves an entry that is there as it is.
  unfoldable pub emplace : K → V → Map K V → Map K V
  emplace k v m = elim (find k m) [ none ↦ (k, v) ∷ m | some w ↦ m ]

  -- `iter->second = value`
  unfoldable pub assign : K → V → Map K V → Map K V
  assign k v [] = []
  assign k v ((j, w) ∷ m) = ite (dec j k) ((j, v) ∷ m) ((j, w) ∷ assign k v m)

  -- The new map, and what `replace` tells: the value that was there, if it is an update.
  unfoldable pub replace : K → V → Map K V → Map K V × Option V
  unfolding assign
  replace k v m = elim (find k m) [ none ↦ ((k, v) ∷ m, none) | some w ↦ (assign k v m, some w) ]

  unfoldable pub erase : K → Map K V → Map K V
  erase k [] = []
  erase k ((j, v) ∷ m) = let rest = erase k m in ite (dec j k) rest ((j, v) ∷ rest)

  -- `erase(key, value)`: only if the value is the one given, by its `==`.
  unfoldable pub erase_value : (V → V → Bool) → K → V → Map K V → Map K V × Bool
  erase_value eq k v m = elim (find k m) [
    | none ↦ (m, false)
    | some w ↦ if eq w v then (erase k m, true) else (m, false)
  ]

module _ {ℓ κ} {K V : Type ℓ} {E : Type κ} where
  -- The calls that a walk makes, in its order.
  unfoldable pub for_each : (K → V → E) → Map K V → List E
  for_each func [] = []
  for_each func ((k, v) ∷ m) = func k v ∷ for_each func m

  unfoldable pub for_each_key : (K → E) → Map K V → List E
  for_each_key func [] = []
  for_each_key func ((k, v) ∷ m) = func k ∷ for_each_key func m

  unfoldable pub for_each_value : (V → E) → Map K V → List E
  for_each_value func [] = []
  for_each_value func ((k, v) ∷ m) = func v ∷ for_each_value func m

  -- `func` answers whether the entry goes, and may act while it does.
  unfoldable pub for_each_erase : (K → V → Bool × List E) → Map K V → Map K V × List E
  for_each_erase func [] = ([], [])
  for_each_erase func ((k, v) ∷ m) =
      let (gone, acts) = func k v in
      let (rest, later) = for_each_erase func m in
      (if gone then rest else (k, v) ∷ rest, acts ++ later)

module _ {ℓ} {K V : Type ℓ} where
  unfoldable pub clone : Map K V → List (K × V)
  clone m = m

  unfoldable pub clear : Map K V → Map K V
  clear m = []

  unfoldable pub size : Map K V → ℕ
  size m = length m
