-- ===== src/Base/ScopeGuard/Moves.antt =====
-- The moves of the guard of czrpc/base/scope_guard.hpp.
use czrpc.Prelude.{ℕ, zero, suc, false, [], ◌∷◌, append-nil, ◌≡◌, refl, ◌∙◌}
use czrpc.Base.ScopeGuard.{make_guard, dismiss, move, destroy, calls_after}

moved_calls :
    (n func : ℕ) → calls_after n (record { func = func; is_dismissed = false }) ≡ func ∷ []
unfolding calls_after destroy move dismiss
moved_calls zero func = refl
moved_calls (suc n) func = append-nil _ ∙ moved_calls n func

-- However often a guard is moved, its function is called once in all. A guard that has been dismissed
-- calls nothing, but once it is moved it calls its function all the same.
pub guard_calls :
    (n func : ℕ)
    → (calls_after n (make_guard func) ≡ func ∷ [])
      × (calls_after 0 (dismiss (make_guard func)) ≡ [])
      × (calls_after (suc n) (dismiss (make_guard func)) ≡ func ∷ [])
unfolding make_guard calls_after destroy move dismiss
guard_calls n func = (moved_calls n func, refl, append-nil _ ∙ moved_calls n func)
