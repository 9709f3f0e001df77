-- ===== src/Common/Duration/Tests.antt =====
-- The text of a duration of minus one year, two hours and 3.045 seconds.
use openeebus.Prelude.{◌≡◌, refl, inr, true, some, [], ◌∷◌, arith}
use openeebus.Common.Error.{EebusError, is_ok}
use openeebus.Common.Duration.{invert_sign, is_zero, is_valid, is_negative, is_positive, zeros}
use openeebus.Common.Duration.Print.{decimal, print_non_zero, to_string}
use openeebus.Common.Duration.Parse.{
  scan_digits, strtol, set_value, parse_ms, step, parse_loop, parse,
}
use openeebus.Common.Duration.RoundTrip.{reparsed, with_minus, parse-to_string}
use openeebus.Common.Duration.Reading.{whole}

parse-to_string_example :
    reparsed (to_string (with_minus true (whole 1 0 0 2 0 3 45)))
    ≡ some (EebusError.ok, with_minus true (whole 1 0 0 2 0 3 45))
parse-to_string_example =
    parse-to_string 1 0 0 2 0 3 45 (omega arith) (omega arith) (omega arith) (omega arith)
      (omega arith) (omega arith) (omega arith) (inr (omega arith)) true

-- The text "-P1YT2H3.045S".
to_string_minus :
    to_string (with_minus true (whole 1 0 0 2 0 3 45))
    ≡ some (
        b'-' ∷ b'P' ∷ b'1' ∷ b'Y' ∷ b'T' ∷ b'2' ∷ b'H' ∷ b'3' ∷ b'.' ∷ b'0' ∷ b'4' ∷ b'5' ∷ b'S'
        ∷ [])
unfolding to_string invert_sign is_zero is_valid is_negative print_non_zero decimal
to_string_minus = refl

-- The text of a duration below a second is refused.
sub_second_refused : reparsed (to_string (whole 0 0 0 0 0 0 500)) ≡ some (EebusError.parse, zeros)
unfolding to_string is_zero is_valid is_negative is_positive print_non_zero decimal scan_digits
    strtol set_value parse_ms step parse_loop parse is_ok
sub_second_refused = refl
