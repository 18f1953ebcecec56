-- ===== src/Tests/LogTests.antt =====
-- The log and the traits of callables at concrete inputs.
use czrpc.Prelude.{
  codes, true, false, [], ◌∷◌, ◌++◌, some, none, ◌≡◌, ◌≢◌, ◌↔◌, ◌+◌, ◌<◌, ◌≤◌, refl, arith, length,
}
use czrpc.Base.Log.{
  LocalTime, current_time, time_text, time_str_size, log, write_all, print_log, padded,
  get_level_str,
}
use czrpc.Prelude.Decimal.{to_string, digits_of}
use czrpc.Base.Log.Time.{IsCalendar, current_time_fits}
use czrpc.Base.Log.Lines.{HasNo, log_line}
use czrpc.Base.FunctionTraits.{
  CppType, plain, callable, lvalue_ref, cv, nil, cons, FunctionTraits, function_traits,
  function_type, stl_function_type, pointer_type, to_function, to_function_pointer, args_type,
  arity, tuple_type, rvalue, lvalue, const_lvalue,
}
use czrpc.Base.FunctionTraits.Conversions.{conversions_keep}

abbrev noon : LocalTime
noon = record {
  year = 2017;
  month = 3;
  day = 9;
  hour = 12;
  minute = 5;
  second = 0;
  microsecond = 42;
}

noon-IsCalendar : IsCalendar noon
noon-IsCalendar = record {
  year = omega arith;
  month = omega arith;
  day = omega arith;
  hour = omega arith;
  minute = omega arith;
  second = omega arith;
  microsecond = omega arith;
}

current_time_fits_example :
    (length (current_time (record noon { year = 12017 })) + 1 ≤ time_str_size)
    × (current_time noon ≡ time_text noon)
    × (length (current_time noon) + 1 ≡ time_str_size)
current_time_fits_example = current_time_fits (record noon { year = 12017 }) noon noon-IsCalendar

base_named : HasNo 47 (codes "a.hpp")
base_named = ground arith

base_clean : HasNo 0 (codes "a.hpp")
base_clean = ground arith

log_line_example :
    (print_log noon (write_all (codes "x = " ∷ []) (log (codes "src/a.hpp") (codes "run") 7 4))
      ≡ codes "2017-03-09 12:05:00.000042 [WARN] a.hpp run(7) x = \n")
    × (print_log noon (
          write_all
            (codes "x = " ∷ (codes "y" ++ 0 ∷ codes "z") ∷ [])
            (log (codes "src/a.hpp") (codes "run") 7 4))
        ≡ codes "2017-03-09 12:05:00.000042 [WARN] a.hpp run(7) x = y\n")
unfolding current_time time_text padded to_string digits_of get_level_str
log_line_example =
    log_line noon (codes "src") (codes "a.hpp") (codes "run") 7 4 (codes "x = " ∷ []) base_named
      base_clean (ground arith) (codes "y") (codes "z") [] (ground arith) (ground arith)

abbrev lambda_type : CppType
lambda_type =
    callable 0 (plain 1) (cons (lvalue_ref (cv true false (plain 2))) nil)
      (record { is_const = true; is_volatile = false; has_ref = false })

abbrev lambda_traits : FunctionTraits
lambda_traits = record {
  return_type = plain 1;
  args = cons (lvalue_ref (cv true false (plain 2))) nil;
}

lambda_conversions :
    (function_traits (function_type lambda_traits) ≡ some lambda_traits)
    × (function_traits (stl_function_type lambda_traits) ≡ some lambda_traits)
    × (function_traits (pointer_type lambda_traits) ≡ some lambda_traits)
    × (to_function rvalue lambda_type ≡ some (stl_function_type lambda_traits))
    × (to_function_pointer lambda_type ≡ some (pointer_type lambda_traits))
    × ((0 < arity lambda_traits) ↔ (args_type 0 lambda_traits ≢ none))
    × (length (tuple_type lambda_traits) ≡ arity lambda_traits)
    × (to_function lvalue lambda_type ≡ none)
    × (to_function const_lvalue lambda_type ≡ none)
unfolding function_traits
lambda_conversions = conversions_keep lambda_type lambda_traits 0 refl

parameters_plain : tuple_type lambda_traits ≡ plain 2 ∷ []
unfolding tuple_type
parameters_plain = refl
