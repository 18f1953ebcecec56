-- ===== src/Base/Map/Laws.antt =====
-- The map of czrpc/base/table/threadsafe_unordered_map.hpp as a function from keys to values.
use czrpc.Prelude.{◌+◌, Bool, List, [], ◌∷◌, none, some, ite, ◌≡◌, refl, if◌then◌else◌, arith}
use czrpc.Base.Map.{Map, find, emplace, assign, replace, erase, for_each_erase, size}

module _ {ℓ} {K V : Type ℓ} (dec : Discrete K) where
  -- No key stands twice.
  abbrev pub IsMap : Map K V → Type ℓ
  IsMap [] = Unit {ℓ}
  IsMap ((k, v) ∷ m) = (find dec k m ≡ none) × IsMap m

  pub find-assign :
      (k j : K) (v : V) (m : Map K V)
      → find dec j (assign dec k v m)
        ≡ elim (find dec j m) [ none ↦ none | some w ↦ ite (dec k j) (some v) (some w) ]
  unfolding find assign
  find-assign k j v [] = refl
  find-assign k j v ((i, w) ∷ m) = ground (arith, find-assign k j v m)

  -- After `replace` the key has the new value, and the other keys what they had; the answer is what
  -- the key had before.
  pub find-replace :
      (k j : K) (v : V) (m : Map K V)
      → (find dec j (replace dec k v m).0 ≡ ite (dec k j) (some v) (find dec j m))
        × ((replace dec k v m).1 ≡ find dec k m)
  unfolding find replace
  find-replace k j v m = ground (arith, find-assign k j v m)

  -- `emplace` gives a value to a key that has none, and changes nothing else.
  pub find-emplace :
      (k j : K) (v : V) (m : Map K V)
      → find dec j (emplace dec k v m)
        ≡ elim (find dec j m) [ none ↦ ite (dec k j) (some v) none | some w ↦ some w ]
  unfolding find emplace
  find-emplace k j v m = ground arith

  pub find-erase :
      (k j : K) (m : Map K V) → find dec j (erase dec k m) ≡ ite (dec k j) none (find dec j m)
  unfolding find erase
  find-erase k j [] = ground arith
  find-erase k j ((i, w) ∷ m) = ground (arith, find-erase k j m)

  assign-IsMap : (k : K) (v : V) (m : Map K V) → IsMap m → IsMap (assign dec k v m)
  unfolding assign
  assign-IsMap k v [] h = tt
  assign-IsMap k v ((i, w) ∷ m) h = ground (arith, assign-IsMap k v m h.1, find-assign k i v m)

  pub replace-IsMap : (k : K) (v : V) (m : Map K V) → IsMap m → IsMap (replace dec k v m).0
  unfolding replace
  replace-IsMap k v m h = ground (arith, assign-IsMap k v m h)

  pub emplace-IsMap : (k : K) (v : V) (m : Map K V) → IsMap m → IsMap (emplace dec k v m)
  unfolding emplace
  emplace-IsMap k v m h = ground arith

  pub erase-IsMap : (k : K) (m : Map K V) → IsMap m → IsMap (erase dec k m)
  unfolding erase
  erase-IsMap k [] h = tt
  erase-IsMap k ((i, w) ∷ m) h = ground (arith, erase-IsMap k m h.1, find-erase k i m)

  size-erase :
      (k : K) (m : Map K V)
      → IsMap m
      → size m ≡ size (erase dec k m) + elim (find dec k m) [ none ↦ 0 | some v ↦ 1 ]
  unfolding size erase find
  size-erase k [] h = omega arith
  size-erase k ((i, w) ∷ m) h = ground (arith, size-erase k m h.1)

  module _ {κ} {E : Type κ} (func : K → V → Bool × List E) where
    find-for_each_erase-none :
        (j : K) (m : Map K V) → find dec j m ≡ none → find dec j (for_each_erase func m).0 ≡ none
    unfolding find for_each_erase
    find-for_each_erase-none j [] h = refl
    find-for_each_erase-none j ((i, w) ∷ m) h = ground (arith, find-for_each_erase-none j m)

    -- A walk that erases keeps exactly the entries that its function answers false for.
    pub find-for_each_erase :
        (j : K) (m : Map K V)
        → IsMap m
        → find dec j (for_each_erase func m).0
          ≡ elim (find dec j m) [ none ↦ none | some v ↦ if (func j v).0 then none else some v ]
    unfolding find for_each_erase
    find-for_each_erase j [] h = refl
    find-for_each_erase j ((i, w) ∷ m) h =
        ground (arith, find-for_each_erase j m h.1, find-for_each_erase-none i m)

    pub for_each_erase-IsMap : (m : Map K V) → IsMap m → IsMap (for_each_erase func m).0
    unfolding for_each_erase
    for_each_erase-IsMap [] h = tt
    for_each_erase-IsMap ((i, w) ∷ m) h =
        ground (arith, for_each_erase-IsMap m h.1, find-for_each_erase-none i m)
