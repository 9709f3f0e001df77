-- ===== src/Common/Duration.antt =====
-- Durations, src/common/eebus_date_time/eebus_duration.c. A text is a list of character codes without
-- the terminating NUL. `strtol` and `isdigit` are those of the C library in its default locale, and
-- `long` has 64 bits. C leaves the negation of the least `int32_t` undefined: here the inversion of
-- the sign keeps it, and its text has its digits. The length of the buffer is not computed.
pub mod Print
pub mod Parse
pub mod Digits
pub mod Ends
pub mod Reading
pub mod RoundTrip
pub mod Tests
use openeebus.Prelude.{
  ℕ, zero, suc, ◌+◌, ◌-◌, ◌*◌, ◌/◌, ◌%◌, ◌^◌, ◌==◌, ltb, leb, if◌then◌else◌, Bool, true, false,
  ◌&&◌, ◌||◌, not, Option, none, some, List, [], ◌∷◌, ◌++◌, length,
}
use openeebus.Common.Error.{EebusError, is_ok}

pub data ℤ : Type 0 where
  pos negsuc : ℕ → ℤ

abbrev pub negate : ℤ → ℤ
negate (pos zero) = pos zero
negate (pos (suc n)) = negsuc n
negate (negsuc n) = pos (suc n)

abbrev pub magnitude : ℤ → ℕ
magnitude (pos n) = n
magnitude (negsuc n) = suc n

-- The conversion to `int32_t`.
abbrev pub from_bits : ℕ → ℤ
from_bits m = if ltb m (2 ^ 31) then pos m else negsuc (2 ^ 32 - 1 - m)

abbrev pub to_int32 : ℤ → ℤ
to_int32 (pos n) = from_bits (n % 2 ^ 32)
to_int32 (negsuc n) = from_bits (2 ^ 32 - 1 - n % 2 ^ 32)

-- `EebusDuration`.
pub record Duration : Type 0 where
  pub years : ℤ
  pub months : ℤ
  pub days : ℤ
  pub hours : ℤ
  pub minutes : ℤ
  pub seconds : ℤ
  pub milliseconds : ℤ

abbrev pub zeros : Duration
zeros = record {
  years = pos 0;
  months = pos 0;
  days = pos 0;
  hours = pos 0;
  minutes = pos 0;
  seconds = pos 0;
  milliseconds = pos 0;
}

abbrev pub every : (ℤ → Bool) → Duration → Bool
every p d =
    p d.years
    && (p d.months
        && (p d.days && (p d.hours && (p d.minutes && (p d.seconds && p d.milliseconds)))))

-- `EebusDurationInvertSign`.
unfoldable pub invert_sign : Duration → Duration
invert_sign d = record {
  years = to_int32 (negate d.years);
  months = to_int32 (negate d.months);
  days = to_int32 (negate d.days);
  hours = to_int32 (negate d.hours);
  minutes = to_int32 (negate d.minutes);
  seconds = to_int32 (negate d.seconds);
  milliseconds = to_int32 (negate d.milliseconds);
}

abbrev pub is_zero_number : ℤ → Bool
is_zero_number (pos n) = n == 0
is_zero_number (negsuc n) = false

abbrev pub is_at_most_zero : ℤ → Bool
is_at_most_zero (pos n) = n == 0
is_at_most_zero (negsuc n) = true

abbrev pub is_at_least_zero : ℤ → Bool
is_at_least_zero (pos n) = true
is_at_least_zero (negsuc n) = false

-- `EebusDurationIsZero`, `EebusDurationIsNegative`, `EebusDurationIsPositive` and
-- `EebusDurationIsValid`.
unfoldable pub is_zero : Duration → Bool
is_zero d = every is_zero_number d

unfoldable pub is_negative : Duration → Bool
is_negative d = if is_zero d then false else every is_at_most_zero d

unfoldable pub is_positive : Duration → Bool
is_positive d = if is_zero d then false else every is_at_least_zero d

unfoldable pub is_valid : Duration → Bool
is_valid d = is_zero d || (is_negative d || is_positive d)
