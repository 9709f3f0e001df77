-- ===== src/Common/Duration/Parse.antt =====
-- `EebusDurationParse` and what it calls, src/common/eebus_date_time/eebus_duration.c.
use openeebus.Prelude.{
  ℕ, zero, suc, ◌+◌, ◌-◌, ◌*◌, ◌^◌, ◌==◌, leb, if◌then◌else◌, Bool, true, false, ◌&&◌, ◌||◌, Option,
  none, some, List, [], ◌∷◌, length,
}
use openeebus.Common.Error.{EebusError, is_ok}
use openeebus.Common.Duration.{Duration, invert_sign, negate, negsuc, pos, to_int32, zeros, ℤ}
use openeebus.Common.Duration.Print.{is_digit}

abbrev pub is_space : ℕ → Bool
is_space c = c == b' ' || (leb 9 c && leb c 13)

abbrev pub skip_space : List ℕ → List ℕ
skip_space [] = []
skip_space (c ∷ s) = let rest = skip_space s in if is_space c then rest else c ∷ s

-- The number that the digits at the start of a text continue, and the text behind them.
unfoldable pub scan_digits : ℕ → List ℕ → ℕ × List ℕ
scan_digits n [] = (n, [])
scan_digits n (c ∷ s) =
    let further = scan_digits (n * 10 + (c - b'0')) s in if is_digit c then further else (n, c ∷ s)

abbrev pub starts_with_digit : List ℕ → Bool
starts_with_digit [] = false
starts_with_digit (c ∷ s) = is_digit c

-- A `long` stops at its bounds.
abbrev pub to_long : Bool → ℕ → ℤ
to_long true n = if leb n (2 ^ 63 - 1) then negate (pos n) else negsuc (2 ^ 63 - 1)
to_long false n = if leb n (2 ^ 63 - 1) then pos n else pos (2 ^ 63 - 1)

abbrev pub unsigned : Bool → List ℕ → Option (ℤ × List ℕ)
unsigned is_minus s =
    let (n, rest) = scan_digits 0 s in
    if starts_with_digit s then some (to_long is_minus n, rest) else none

abbrev pub signed : List ℕ → Option (ℤ × List ℕ)
signed [] = none
signed (c ∷ s) =
    if c == b'-'
    then unsigned true s
    else if c == b'+'
    then unsigned false s
    else unsigned false (c ∷ s)

-- `strtol` with base 10: the number and the text behind it, `none` if there is no number.
unfoldable pub strtol : List ℕ → Option (ℤ × List ℕ)
strtol s = signed (skip_space s)

-- `EebusDurationSetValue`.
unfoldable pub set_value : Duration → ℕ → Bool → ℤ → Duration × EebusError
set_value d key true v =
    if key == b'H'
    then (record d { hours = v }, EebusError.ok)
    else if key == b'M'
    then (record d { minutes = v }, EebusError.ok)
    else if key == b'S'
    then (record d { seconds = v }, EebusError.ok)
    else (d, EebusError.input_argument)
set_value d key false v =
    if key == b'Y'
    then (record d { years = v }, EebusError.ok)
    else if key == b'M'
    then (record d { months = v }, EebusError.ok)
    else if key == b'D'
    then (record d { days = v }, EebusError.ok)
    else (d, EebusError.input_argument)

-- The digits of a fraction, each with its factor.
abbrev pub fraction : List ℕ → ℕ → List ℕ → ℕ × List ℕ
fraction [] n s = (n, s)
fraction (f ∷ fs) n [] = (n, [])
fraction (f ∷ fs) n (c ∷ s) =
    let further = fraction fs (n + (c - b'0') * f) s in if is_digit c then further else (n, c ∷ s)

-- What one round of the loop of `EebusDurationParse` comes to: the next round, or the end.
pub data Step : Type 0 where
  more : Bool → Duration → List ℕ → Step
  stop : EebusError → Duration → Step

abbrev pub ms_behind : Bool → Duration → ℤ → ℕ × List ℕ → Step
ms_behind is_time d value (n, []) = stop EebusError.parse d
ms_behind is_time d value (n, c ∷ s) =
    if c == b'S'
    then more is_time (record d { seconds = value; milliseconds = pos n }) s
    else stop EebusError.parse d

-- `EebusDurationParseMs` behind the decimal point.
unfoldable pub parse_ms : Bool → Duration → ℤ → List ℕ → Step
parse_ms is_time d value s = ms_behind is_time d value (fraction (100 ∷ 10 ∷ 1 ∷ []) 0 s)

abbrev pub after_set : Bool → List ℕ → Duration × EebusError → Step
after_set is_time s (d, err) = if is_ok err then more is_time d s else stop err d

-- The character behind a number; at the end of the text it is the NUL, which is no key.
abbrev pub key_step : Bool → Duration → ℤ → List ℕ → Step
key_step is_time d value [] = after_set is_time [] (set_value d 0 is_time value)
key_step is_time d value (c ∷ s) =
    if c == b'.'
    then parse_ms is_time d value s
    else after_set is_time s (set_value d c is_time value)

abbrev pub number_step : Bool → Duration → Option (ℤ × List ℕ) → Step
number_step is_time d none = stop EebusError.parse d
number_step is_time d (some (value, s)) = key_step is_time d (to_int32 value) s

-- One round on a text that is not empty.
unfoldable pub step : Bool → Duration → ℕ → List ℕ → Step
step is_time d c s =
    if c == b'T'
    then (if is_time then stop EebusError.parse d else more true d s)
    else number_step is_time d (strtol (c ∷ s))

abbrev pub then_rounds :
    Step
    → (Bool → Duration → List ℕ → Option (EebusError × Duration))
    → Option (EebusError × Duration)
then_rounds (more is_time d s) f = f is_time d s
then_rounds (stop err d) f = some (err, d)

-- The loop of `EebusDurationParse` for a number of rounds; `none` is that it still runs.
unfoldable pub parse_loop : ℕ → Bool → Duration → List ℕ → Option (EebusError × Duration)
parse_loop rounds is_time d [] = some (EebusError.ok, d)
parse_loop zero is_time d (c ∷ s) = none
parse_loop (suc rounds) is_time d (c ∷ s) = then_rounds (step is_time d c s) (parse_loop rounds)

abbrev pub with_sign : Bool → Option (EebusError × Duration) → Option (EebusError × Duration)
with_sign is_minus none = none
with_sign is_minus (some (err, d)) = some (err, if is_ok err && is_minus then invert_sign d else d)

abbrev pub behind_sign : Bool → List ℕ → Option (EebusError × Duration)
behind_sign is_minus [] = some (EebusError.parse, zeros)
behind_sign is_minus (c ∷ s) =
    let parsed = with_sign is_minus (parse_loop (length s) false zeros s) in
    if c == b'P' then parsed else some (EebusError.parse, zeros)

-- `EebusDurationParse`. Each round takes a character at least, so that the length of the text is
-- enough rounds.
unfoldable pub parse : List ℕ → Option (EebusError × Duration)
parse [] = some (EebusError.parse, zeros)
parse (c ∷ s) =
    if c == b'-'
    then behind_sign true s
    else if c == b'+'
    then behind_sign false s
    else behind_sign false (c ∷ s)
