-- ===== src/Base/FunctionTraits.antt =====
-- `function_traits` of czrpc/base/function_traits.hpp: what the compiler computes of the type of a
-- callable. A C++ type is a code; `none` is a program that does not compile.
pub mod Conversions
use czrpc.Prelude.{
  ℕ, Bool, true, false, not, ◌&&◌, List, [], ◌∷◌, Option, none, some, length, get_elem?, map,
  if◌then◌else◌,
}

-- What may stand behind the parameters of a member function.
pub record Qualifiers : Type 0 where
  pub is_const : Bool
  pub is_volatile : Bool
  pub has_ref : Bool

mutual
  pub data CppType : Type 0 where
    -- a fundamental type, or a class without one call operator, by its name
    plain : ℕ → CppType
    -- a class with one call operator, as that of a lambda: its name, and the operator's type
    callable : ℕ → CppType → CppTypes → Qualifiers → CppType
    lvalue_ref : CppType → CppType
    rvalue_ref : CppType → CppType
    -- `const`, `volatile` or both
    cv : Bool → Bool → CppType → CppType
    pointer : CppType → CppType
    function : CppType → CppTypes → CppType
    std_function : CppType → CppTypes → CppType
    member_function : CppType → CppType → CppTypes → Qualifiers → CppType

  pub data CppTypes : Type 0 where
    nil : CppTypes
    cons : CppType → CppTypes → CppTypes

abbrev pub to_list : CppTypes → List CppType
to_list nil = []
to_list (cons t ts) = t ∷ to_list ts

-- `function_traits<Ret(Args...)>`
pub record FunctionTraits : Type 0 where
  pub return_type : CppType
  pub args : CppTypes

-- The four uses of the macro: no specialization has a reference qualifier.
unfoldable pub member_traits : CppType → CppTypes → Qualifiers → Option FunctionTraits
member_traits ret ts q = if q.has_ref then none else some (record { return_type = ret; args = ts })

-- The specialization that the compiler takes.
unfoldable pub function_traits : CppType → Option FunctionTraits
unfolding member_traits
function_traits (function ret ts) = some (record { return_type = ret; args = ts })
function_traits (pointer (function ret ts)) = some (record { return_type = ret; args = ts })
function_traits (std_function ret ts) = some (record { return_type = ret; args = ts })
function_traits (member_function ret class ts q) = member_traits ret ts q
function_traits (callable name ret ts q) = member_traits ret ts q
function_traits _ = none

unfoldable pub arity : FunctionTraits → ℕ
arity f = length (to_list f.args)

unfoldable pub function_type : FunctionTraits → CppType
function_type f = function f.return_type f.args

unfoldable pub stl_function_type : FunctionTraits → CppType
stl_function_type f = std_function f.return_type f.args

unfoldable pub pointer_type : FunctionTraits → CppType
unfolding function_type
pointer_type f = pointer (function_type f)

-- `args<I>::type`: an index out of range is a failed assertion.
unfoldable pub args_type : ℕ → FunctionTraits → Option CppType
args_type i f = get_elem? (to_list f.args) i

abbrev pub remove_reference : CppType → CppType
remove_reference (lvalue_ref t) = t
remove_reference (rvalue_ref t) = t
remove_reference t = t

abbrev pub remove_cv : CppType → CppType
remove_cv (cv c v t) = t
remove_cv t = t

unfoldable pub tuple_type : FunctionTraits → List CppType
tuple_type f = map (λ t. remove_cv (remove_reference t)) (to_list f.args)

-- How an argument of the type is deduced for `Function&&`.
pub data Category : Type 0 where
  lvalue : Category
  const_lvalue : Category
  rvalue : Category

abbrev pub forwarded : Category → CppType → CppType
forwarded lvalue t = lvalue_ref t
forwarded const_lvalue t = lvalue_ref (cv true false t)
forwarded rvalue t = t

abbrev both : Option CppType → Option CppType → Option CppType
both none o = none
both (some t) o = o

-- The declared type of `to_function(argument)`; what its body casts is not asked. The compiler puts the deduced types into both overloads, also in
-- that which it does not call then; the second one is called, which has the type of the first.
unfoldable pub to_function : Category → CppType → Option CppType
to_function category t =
    both (elim (function_traits t) [ none ↦ none | some f ↦ some (stl_function_type f) ])
      (elim (function_traits (forwarded category t)) [
        | none ↦ none
        | some f ↦ some (stl_function_type f)
      ])

unfoldable pub to_function_pointer : CppType → Option CppType
to_function_pointer t = elim (function_traits t) [ none ↦ none | some f ↦ some (pointer_type f) ]
