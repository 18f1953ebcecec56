-- ===== src/Base/Log/Time.antt =====
-- The time stamps of czrpc/base/czlog.hpp.
use czrpc.Prelude.{
  ℕ, zero, suc, ◌+◌, ◌-◌, ◌*◌, ◌/◌, ◌%◌, ◌<◌, ◌≤◌, [], ◌∷◌, length, length-append, length-replicate,
  take, replicate, ◌≡◌, ap, sym, ◌∙◌, arith,
}
use czrpc.Prelude.Slices.{take-length, length-take}
use czrpc.Prelude.Decimal.{to_string, digits_of}
use czrpc.Base.Log.{LocalTime, padded, time_text, time_str_size, current_time}

-- Ten to the power of `k`.
abbrev pub pow10 : ℕ → ℕ
pow10 zero = 1
pow10 (suc k) = 10 * pow10 k

digits-length : (f k n : ℕ) → n < 10 * pow10 k → length (digits_of f n) ≤ suc k
unfolding digits_of
digits-length zero k n h = omega arith
digits-length (suc f) zero n h = ground arith
digits-length (suc f) (suc k) n h =
    ground
      (arith, digits-length f k (n / 10), length-append (digits_of f (n / 10)) ((48 + n % 10) ∷ []))

padded-length : (k n : ℕ) → n < 10 * pow10 k → length (padded (suc k) n) ≡ suc k
unfolding padded to_string
padded-length k n h = omega (
  arith,
  digits-length 20 k n h,
  length-append (replicate (suc k - length (digits_of 20 n)) 48) (digits_of 20 n),
  length-replicate {A = ℕ} (suc k - length (digits_of 20 n)) 48,
)

-- The fields have as many digits as the format says.
pub record IsCalendar (t : LocalTime) : Type 0 where
  pub year : t.year < 10000
  pub month : t.month < 100
  pub day : t.day < 100
  pub hour : t.hour < 100
  pub minute : t.minute < 100
  pub second : t.second < 100
  pub microsecond : t.microsecond < 1000000

time_text-length : (t : LocalTime) → IsCalendar t → length (time_text t) ≡ 26
unfolding time_text
time_text-length t c = omega (
  arith,
  length-append {0} {A = ℕ},
  padded-length 3 t.year c.year,
  padded-length 1 t.month c.month,
  padded-length 1 t.day c.day,
  padded-length 1 t.hour c.hour,
  padded-length 1 t.minute c.minute,
  padded-length 1 t.second c.second,
  padded-length 5 t.microsecond c.microsecond,
)

-- What `snprintf` writes fits the buffer with the zero byte behind it, whatever the clock says. When
-- the fields have as many digits as the format says, the text fills the buffer and nothing of it is
-- cut off.
pub current_time_fits :
    (t u : LocalTime)
    → IsCalendar u
    → (length (current_time t) + 1 ≤ time_str_size)
      × (current_time u ≡ time_text u)
      × (length (current_time u) + 1 ≡ time_str_size)
unfolding current_time
current_time_fits t u c =
    let size = time_text-length u c in
    let whole = ap (λ k. take k (time_text u)) (sym size) ∙ take-length (time_text u) in
    (omega (arith, length-take 26 (time_text t)), whole, omega (arith, ap length whole, size))
