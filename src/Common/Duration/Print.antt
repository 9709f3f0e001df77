-- ===== src/Common/Duration/Print.antt =====
-- `EebusDurationToString` and `print_non_zero` of src/common/eebus_date_time/eebus_duration.c.
use openeebus.Prelude.{
  ℕ, zero, suc, ◌+◌, ◌/◌, ◌%◌, ◌==◌, ltb, leb, if◌then◌else◌, Bool, ◌&&◌, not, Option, none, some,
  List, [], ◌∷◌, ◌++◌,
}
use openeebus.Common.Duration.{
  Duration, is_negative, is_valid, is_zero, is_zero_number, magnitude, ℤ,
}

abbrev pub is_digit : ℕ → Bool
is_digit c = leb b'0' c && leb c b'9'

-- The decimal digits of a number of at most so many digits, before a text.
unfoldable pub decimal : ℕ → ℕ → List ℕ → List ℕ
decimal zero n out = out
decimal (suc k) n out =
    let rest = decimal k (n / 10) ((b'0' + n % 10) ∷ out) in
    if n / 10 == 0 then (b'0' + n % 10) ∷ out else rest

-- `%d` and `%03d` of a number that is not negative; an `int32_t` has at most ten digits.
abbrev pub formatted : ℕ → List ℕ → List ℕ
formatted n out = decimal 10 n out

abbrev pub three_digits : ℕ → List ℕ → List ℕ
three_digits n out =
    if ltb n 1000
    then (b'0' + n / 100) ∷ (b'0' + n / 10 % 10) ∷ (b'0' + n % 10) ∷ out
    else formatted n out

-- `print_non_zero` with a format by which a number is followed by a text.
unfoldable pub print_non_zero : (ℕ → List ℕ → List ℕ) → ℤ → List ℕ → List ℕ
print_non_zero format number after =
    if is_zero_number number then [] else format (magnitude number) after

abbrev pub has_time : Duration → Bool
has_time d = not (
    is_zero_number d.hours
    && (is_zero_number d.minutes && (is_zero_number d.seconds && is_zero_number d.milliseconds)))

-- The seconds, with their fraction if there are milliseconds.
abbrev pub seconds_text : Duration → List ℕ
seconds_text d =
    if is_zero_number d.milliseconds
    then print_non_zero formatted d.seconds (b'S' ∷ [])
    else print_non_zero formatted d.seconds []
      ++ print_non_zero (λ n out. b'.' ∷ three_digits n out) d.milliseconds (b'S' ∷ [])

abbrev pub time_text : Duration → List ℕ
time_text d =
    if has_time d
    then b'T' ∷ print_non_zero formatted d.hours (b'H' ∷ [])
      ++ (print_non_zero formatted d.minutes (b'M' ∷ []) ++ seconds_text d)
    else []

abbrev pub parts_text : Duration → List ℕ
parts_text d =
    b'P' ∷ print_non_zero formatted d.years (b'Y' ∷ [])
    ++ (print_non_zero formatted d.months (b'M' ∷ [])
        ++ (print_non_zero formatted d.days (b'D' ∷ []) ++ time_text d))

-- `EebusDurationToString`, once the memory is there.
unfoldable pub to_string : Duration → Option (List ℕ)
to_string d =
    if is_valid d
    then some (
        if is_zero d
        then b'P' ∷ b'T' ∷ b'0' ∷ b'S' ∷ []
        else if is_negative d
        then b'-' ∷ parts_text d
        else parts_text d)
    else none
