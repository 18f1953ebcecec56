-- ===== src/Base/Singleton.antt =====
-- `singleton_helper_with_param` of czrpc/base/singleton.hpp under any schedule of the threads that use
-- it. An instance is known by the number that stands for its arguments. The reads and writes of `t_`
-- are taken as atomic, though the code does not say so. `destroy`, which does not take the mutex, is three
-- steps: the test, `delete`, and the assignment of the null pointer.
pub mod Instances
use czrpc.Prelude.{ℕ, zero, suc, Bool, true, false, List, [], ◌∷◌, ◌++◌, Option, none, some}

-- What the thread that holds the mutex is about to do: the second test, or the construction.
pub data Phase : Type 0 where
  testing : ℕ → Phase
  constructing : ℕ → Phase

-- What a thread in `destroy` is about to do.
pub data Destroying : Type 0 where
  deleting : Destroying
  nulling : Destroying

pub record Singleton : Type 0 where
  pub t : Option ℕ
  -- the calls of `create` that have passed the first test and wait for the mutex
  pub waiting : List ℕ
  -- the thread that holds the mutex
  pub holder : Option Phase
  -- the threads that have passed the test of `destroy`
  pub destroyers : List Destroying
  pub constructed : List ℕ
  pub deleted : List ℕ

abbrev pub no_instance : Singleton
no_instance = record {
  t = none;
  waiting = [];
  holder = none;
  destroyers = [];
  constructed = [];
  deleted = [];
}

pub data Step : Type 0 where
  -- the first test of `create`
  creates : ℕ → Step
  -- the call that has waited the longest but for `n` others gets the mutex
  locks : ℕ → Step
  -- the thread that holds the mutex goes on
  proceeds : Step
  -- the test of `destroy`
  destroys : Step
  -- the thread that stands at that place in `destroyers` goes on
  goes_on : ℕ → Step

abbrev take_at : {A : Type 0} → ℕ → List A → Option (A × List A)
take_at n [] = none
take_at zero (a ∷ as') = some (a, as')
take_at (suc n) (a ∷ as') = elim (take_at n as') [
  | none ↦ none
  | some (b, rest) ↦ some (b, a ∷ rest)
]

unfoldable pub create : ℕ → Singleton → Singleton
create args s = elim s.t [ none ↦ record s { waiting = s.waiting ++ args ∷ [] } | some a ↦ s ]

lock : Option (ℕ × List ℕ) → Singleton → Singleton
lock none s = s
lock (some (args, rest)) s = elim s.holder [
  | none ↦ record s { waiting = rest; holder = some (testing args) }
  | some h ↦ s
]

-- The second test, and `new`; the mutex is given back at the end.
unfoldable pub proceed : Option Phase → Singleton → Singleton
proceed none s = s
proceed (some (testing args)) s = elim s.t [
  | none ↦ record s { holder = some (constructing args) }
  | some a ↦ record s { holder = none }
]
proceed (some (constructing args)) s = record s {
  t = some args;
  holder = none;
  constructed = s.constructed ++ args ∷ [];
}

-- `delete t_`, which does nothing on a null pointer, and leaves `t_` as it is; and `t_ = nullptr`.
unfoldable pub destroy_next : Option (Destroying × List Destroying) → Singleton → Singleton
destroy_next none s = s
destroy_next (some (deleting, rest)) s = elim s.t [
  | none ↦ record s { destroyers = rest ++ nulling ∷ [] }
  | some a ↦ record s { destroyers = rest ++ nulling ∷ []; deleted = s.deleted ++ a ∷ [] }
]
destroy_next (some (nulling, rest)) s = record s { t = none; destroyers = rest }

-- The test of `destroy`.
unfoldable pub destroy : Singleton → Singleton
destroy s = elim s.t [ none ↦ s | some a ↦ record s { destroyers = s.destroyers ++ deleting ∷ [] } ]

unfoldable pub get : Singleton → Option ℕ
get s = s.t

unfoldable pub step : Step → Singleton → Singleton
unfolding create lock proceed destroy destroy_next
step (creates args) s = create args s
step (locks n) s = lock (take_at n s.waiting) s
step proceeds s = proceed s.holder s
step destroys s = destroy s
step (goes_on n) s = destroy_next (take_at n s.destroyers) s

unfoldable pub run : List Step → Singleton → Singleton
run [] s = s
run (x ∷ xs) s = run xs (step x s)
