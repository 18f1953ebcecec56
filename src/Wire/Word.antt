-- ===== src/Wire/Word.antt =====
-- A 32-bit word as the four bytes that `memcpy` and `append(reinterpret_cast<const char*>(&x), 4)`
-- move on a little-endian machine.
use czrpc.Prelude.{ℕ, ◌+◌, ◌*◌, ◌/◌, ◌%◌, ◌^◌, ◌<◌, Bytes, [], ◌∷◌, ◌++◌, ◌≡◌, arith}

abbrev pub u32_mod : ℕ
u32_mod = 2 ^ 32

abbrev pub IsWord : ℕ → Type 0
IsWord x = x < u32_mod

unfoldable pub put_u32 : ℕ → Bytes
put_u32 x = (x % 256) ∷ (x / 256 % 256) ∷ (x / 65536 % 256) ∷ (x / 16777216 % 256) ∷ []

-- The word at the front of a buffer; a read past its end gives 0 here, and no caller makes one.
unfoldable pub get_u32 : Bytes → ℕ
get_u32 (a ∷ b ∷ c ∷ d ∷ rest) = a + b * 256 + c * 65536 + d * 16777216
get_u32 _ = 0

pub get_u32-put_u32 : (x : ℕ) (rest : Bytes) → IsWord x → get_u32 (put_u32 x ++ rest) ≡ x
unfolding get_u32 put_u32
get_u32-put_u32 x rest h = omega arith

-- `static_cast<unsigned int>(size)`
abbrev pub to_u32 : ℕ → ℕ
to_u32 n = n % u32_mod

pub get_u32-put_u32_wraps : (x : ℕ) (rest : Bytes) → get_u32 (put_u32 x ++ rest) ≡ to_u32 x
unfolding get_u32 put_u32
get_u32-put_u32_wraps x rest = omega arith

pub to_u32_word : (x : ℕ) → IsWord x → to_u32 x ≡ x
to_u32_word x h = omega arith
