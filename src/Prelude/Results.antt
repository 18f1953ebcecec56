-- ===== src/Prelude/Results.antt =====
-- C++ calls that return a value or throw. What the sources throw is a `std::runtime_error`.
use mathlib.Core.Bool.{Bool, true, false}
use czrpc.Prelude.Lists.{Bytes}

pub data Exception : Type 0 where
  runtime_error : Bytes → Exception

pub data Result {ℓ} (A : Type ℓ) : Type ℓ where
  ok : A → Result A
  throw : Exception → Result A

-- An exception leaves the rest of the block undone.
infixl 5 ◌>>=◌ ◌>>◌
abbrev pub ◌>>=◌ {ℓ κ} : {A : Type ℓ} {B : Type κ} → Result A → (A → Result B) → Result B
throw thrown >>= rest = throw thrown
ok value >>= rest = rest value

abbrev pub ◌>>◌ {ℓ} : {B : Type ℓ} → Result (Unit {0}) → Result B → Result B
throw thrown >> rest = throw thrown
ok done >> rest = rest

-- `if (!b) throw e;`
abbrev pub require : Bool → Exception → Result (Unit {0})
require true e = ok tt
require false e = throw e
