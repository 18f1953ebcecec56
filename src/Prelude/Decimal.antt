-- ===== src/Prelude/Decimal.antt =====
-- `std::to_string` and `std::atoi` of unsigned numbers: decimal digits.
use Prim.Native.Nat.{ℕ, zero, suc, ◌+◌, ◌*◌, ◌-◌, ◌/◌, ◌%◌}
use mathlib.Core.Bool.{◌&&◌}
use mathlib.Core.List.{[], ◌∷◌, ◌++◌}
use czrpc.Prelude.Tests.{ltb, leb, if◌then◌else◌}
use czrpc.Prelude.Lists.{Bytes}

-- The fuel is the greatest number of digits.
unfoldable pub digits_of : ℕ → ℕ → Bytes
digits_of zero n = []
digits_of (suc f) n =
    let high = digits_of f (n / 10) in
    if ltb n 10 then (48 + n) ∷ [] else high ++ (48 + n % 10) ∷ []

-- Twenty digits are enough for 64 bits.
unfoldable pub to_string : ℕ → Bytes
unfolding digits_of
to_string n = digits_of 20 n

atoi_from : ℕ → Bytes → ℕ
atoi_from n [] = n
atoi_from n (c ∷ rest) =
    let more = atoi_from (n * 10 + (c - 48)) rest in if leb 48 c && leb c 57 then more else n

-- `std::atoi` of a text without a sign or leading blanks, up to the first byte that is no digit.
unfoldable pub atoi : Bytes → ℕ
unfolding atoi_from
atoi text = atoi_from 0 text
