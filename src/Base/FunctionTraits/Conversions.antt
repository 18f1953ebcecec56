-- ===== src/Base/FunctionTraits/Conversions.antt =====
-- The types that czrpc/base/function_traits.hpp converts a callable to.
use czrpc.Prelude.{
  length-map, ℕ, zero, suc, ◌<◌, List, [], ◌∷◌, none, some, length, get_elem?, ◌≡◌, ◌≢◌, ◌↔◌, refl,
  arith,
}
use czrpc.Base.FunctionTraits.{
  CppType, FunctionTraits, function_traits, arity, function_type, stl_function_type, pointer_type,
  args_type, tuple_type, lvalue, const_lvalue, rvalue, to_function, to_function_pointer, to_list,
}

get_elem?-some {ℓ} : {A : Type ℓ} (xs : List A) (i : ℕ) → (i < length xs) ↔ (get_elem? xs i ≢ none)
get_elem?-some [] i = ground arith
get_elem?-some (x ∷ xs) zero = ground arith
get_elem?-some (x ∷ xs) (suc i) = ground (arith, get_elem?-some xs i)

-- A callable that has traits has those of its function type, of its `std::function` and of its function
-- pointer, and the last two are the declared types of `to_function` of a value of it and of
-- `to_function_pointer`; it has an argument type exactly
-- under each index below its arity, and as many types in its tuple. `to_function` of a variable has
-- no type, whether or not the variable is constant.
pub conversions_keep :
    (t : CppType) (f : FunctionTraits) (i : ℕ)
    → function_traits t ≡ some f
    → (function_traits (function_type f) ≡ some f)
      × (function_traits (stl_function_type f) ≡ some f)
      × (function_traits (pointer_type f) ≡ some f)
      × (to_function rvalue t ≡ some (stl_function_type f))
      × (to_function_pointer t ≡ some (pointer_type f))
      × ((i < arity f) ↔ (args_type i f ≢ none))
      × (length (tuple_type f) ≡ arity f)
      × (to_function lvalue t ≡ none)
      × (to_function const_lvalue t ≡ none)
unfolding function_traits function_type stl_function_type pointer_type to_function
    to_function_pointer arity args_type tuple_type
conversions_keep t f i e = (
  refl,
  refl,
  refl,
  rw e refl,
  rw (to_function_pointer, e) refl,
  get_elem?-some (to_list f.args) i,
  length-map _ (to_list f.args),
  rw e refl,
  rw e refl,
)
