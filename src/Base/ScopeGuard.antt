-- ===== src/Base/ScopeGuard.antt =====
-- `scope_guard` of czrpc/base/scope_guard.hpp. The function is known by a number: what a destructor
-- calls is a list.
pub mod Moves
use czrpc.Prelude.{ℕ, zero, suc, Bool, true, false, List, [], ◌∷◌, ◌++◌, if◌then◌else◌}

pub record ScopeGuard : Type 0 where
  pub func : ℕ
  pub is_dismissed : Bool

unfoldable pub make_guard : ℕ → ScopeGuard
make_guard func = record { func = func; is_dismissed = false }

unfoldable pub dismiss : ScopeGuard → ScopeGuard
dismiss g = record g { is_dismissed = true }

-- The move constructor: the new guard, and what the other one becomes.
unfoldable pub move : ScopeGuard → ScopeGuard × ScopeGuard
unfolding dismiss
move other = (record { func = other.func; is_dismissed = false }, dismiss other)

-- The destructor.
unfoldable pub destroy : ScopeGuard → List ℕ
destroy g = if g.is_dismissed then [] else g.func ∷ []

-- What is called in all when a guard is moved `n` times and each of the guards is destroyed.
unfoldable pub calls_after : ℕ → ScopeGuard → List ℕ
unfolding move destroy
calls_after zero g = destroy g
calls_after (suc n) g = let (g', other) = move g in calls_after n g' ++ destroy other
