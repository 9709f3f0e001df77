-- ===== src/Common/Duration/RoundTrip.antt =====
-- Durations printed and parsed, src/common/eebus_date_time/eebus_duration.c.
use openeebus.Prelude.{
  ℕ, zero, suc, ◌^◌, ◌<◌, ◌==◌, ◌≡◌, refl, sym, ap, ◌∙◌, subst, ◌⊎◌, Bool, true, false, Bool-cases,
  inl, inr, Option, none, some, List, [], ◌∷◌, arith,
}
use openeebus.Common.Error.{EebusError, is_ok}
use openeebus.Common.Duration.{
  pos, negate, to_int32, Duration, zeros, invert_sign, every, is_zero_number, is_at_most_zero,
  is_zero, is_negative, is_positive, is_valid,
}
use openeebus.Common.Duration.Print.{print_non_zero, parts_text, to_string, formatted, three_digits}
use openeebus.Common.Duration.Parse.{
  step, strtol, scan_digits, set_value, parse_loop, behind_sign, with_sign, parse,
}
use openeebus.Common.Duration.Ends.{parse_loop-length}
use openeebus.Common.Duration.Reading.{whole, parts-Parses}

abbrev Result : Type 0
Result = Option (EebusError × Duration)

-- The text that was printed is parsed.
abbrev pub reparsed : Option (List ℕ) → Result
reparsed none = none
reparsed (some text) = parse text

abbrev pub with_minus : Bool → Duration → Duration
with_minus true d = invert_sign d
with_minus false d = d

to_int32-negate : (n : ℕ) → n < 2 ^ 31 → to_int32 (negate (pos n)) ≡ negate (pos n)
to_int32-negate zero h = refl
to_int32-negate (suc n) h = ground arith

zero-negate : (n : ℕ) → is_zero_number (negate (pos n)) ≡ (n == 0)
zero-negate zero = refl
zero-negate (suc n) = ground arith

at_most-negate : (n : ℕ) → is_at_most_zero (negate (pos n)) ≡ true
at_most-negate zero = refl
at_most-negate (suc n) = refl

print-negate :
    (f : ℕ → List ℕ → List ℕ) (n : ℕ) (out : List ℕ)
    → print_non_zero f (negate (pos n)) out ≡ print_non_zero f (pos n) out
unfolding print_non_zero
print-negate f zero out = refl
print-negate f (suc n) out = ground arith

zeros-parse :
    (is_minus : Bool)
    → reparsed (to_string (with_minus is_minus zeros))
      ≡ some (EebusError.ok, with_minus is_minus zeros)
unfolding parse parse_loop step strtol scan_digits set_value is_ok to_string invert_sign is_zero
    is_valid
zeros-parse true = refl
zeros-parse false = refl

with_sign-ok :
    (is_minus : Bool) (d : Duration)
    → with_sign is_minus (some (EebusError.ok, d)) ≡ some (EebusError.ok, with_minus is_minus d)
unfolding is_ok
with_sign-ok true d = refl
with_sign-ok false d = refl

module _ (y mo da ho mi s ms : ℕ) where
  abbrev all : Duration
  all = whole y mo da ho mi s ms

  abbrev negated : Duration
  negated = record {
    years = negate (pos y);
    months = negate (pos mo);
    days = negate (pos da);
    hours = negate (pos ho);
    minutes = negate (pos mi);
    seconds = negate (pos s);
    milliseconds = negate (pos ms);
  }

  is_zero-zeros : is_zero all ≡ true → all ≡ zeros
  unfolding is_zero
  is_zero-zeros h =
      let y0 : y ≡ 0 = ground (arith, h) in
      let mo0 : mo ≡ 0 = ground (arith, h) in
      let da0 : da ≡ 0 = ground (arith, h) in
      let ho0 : ho ≡ 0 = ground (arith, h) in
      let mi0 : mi ≡ 0 = ground (arith, h) in
      let s0 : s ≡ 0 = ground (arith, h) in
      let ms0 : ms ≡ 0 = ground (arith, h) in rw (y0, mo0, da0, ho0, mi0, s0, ms0) refl

  is_zero-negated : is_zero negated ≡ is_zero all
  unfolding is_zero
  is_zero-negated =
      rw
        (
          zero-negate y,
          zero-negate mo,
          zero-negate da,
          zero-negate ho,
          zero-negate mi,
          zero-negate s,
          zero-negate ms,
        )
        refl

  at_most-negated : every is_at_most_zero negated ≡ true
  at_most-negated =
      rw
        (
          at_most-negate y,
          at_most-negate mo,
          at_most-negate da,
          at_most-negate ho,
          at_most-negate mi,
          at_most-negate s,
          at_most-negate ms,
        )
        refl

  parts-negated : parts_text negated ≡ parts_text all
  parts-negated =
      rw
        (
          zero-negate ho,
          zero-negate mi,
          zero-negate s,
          zero-negate ms,
          print-negate formatted y (b'Y' ∷ []),
          print-negate formatted mo (b'M' ∷ []),
          print-negate formatted da (b'D' ∷ []),
          print-negate formatted ho (b'H' ∷ []),
          print-negate formatted mi (b'M' ∷ []),
          print-negate formatted s (b'S' ∷ []),
          print-negate formatted s [],
          print-negate (λ n out. b'.' ∷ three_digits n out) ms (b'S' ∷ []),
        )
        refl

  module _ (yb : y < 2 ^ 31) (mob : mo < 2 ^ 31) (dab : da < 2 ^ 31) (hob : ho < 2 ^ 31)
      (mib : mi < 2 ^ 31) (sb : s < 2 ^ 31) (msb : ms < 1000) (c : (ms ≡ 0) ⊎ (0 < s)) where
    invert_sign-negated : invert_sign all ≡ negated
    unfolding invert_sign
    invert_sign-negated =
        rw
          (
            to_int32-negate y yb,
            to_int32-negate mo mob,
            to_int32-negate da dab,
            to_int32-negate ho hob,
            to_int32-negate mi mib,
            to_int32-negate s sb,
            to_int32-negate ms (omega (arith, msb)),
          )
          refl

    -- The text behind the sign.
    behind_sign-parts :
        (is_minus : Bool)
        → behind_sign is_minus (parts_text all) ≡ some (EebusError.ok, with_minus is_minus all)
    behind_sign-parts is_minus =
        let (rounds, e) = parts-Parses y mo da ho mi s ms yb mob dab hob mib sb msb c in
        ap (with_sign is_minus) (parse_loop-length (EebusError.ok, all) rounds false zeros _ e)
        ∙ with_sign-ok is_minus all

    to_string-all : is_zero all ≡ false → to_string all ≡ some (parts_text all)
    unfolding to_string is_valid is_negative is_positive is_zero
    to_string-all z = rw z refl

    to_string-negated : is_zero all ≡ false → to_string negated ≡ some (b'-' ∷ parts_text negated)
    unfolding to_string is_valid is_negative
    to_string-negated z = rw (is_zero-negated ∙ z, at_most-negated) refl

    plus-parsed : is_zero all ≡ false → reparsed (to_string all) ≡ some (EebusError.ok, all)
    unfolding parse
    plus-parsed z = ap reparsed (to_string-all z) ∙ behind_sign-parts false

    minus-parsed :
        is_zero all ≡ false
        → reparsed (to_string (invert_sign all)) ≡ some (EebusError.ok, invert_sign all)
    unfolding parse
    minus-parsed z =
        ap (λ d. reparsed (to_string d)) invert_sign-negated
        ∙ ap reparsed (to_string-negated z)
        ∙ ap (λ text. reparsed (some (b'-' ∷ text))) parts-negated
        ∙ behind_sign-parts true

    -- The text of a duration is parsed as that duration. Its numbers are below 2³¹ and its
    -- milliseconds below 1000, all of one sign, and there are no milliseconds without seconds.
    pub parse-to_string :
        (is_minus : Bool)
        → reparsed (to_string (with_minus is_minus all))
          ≡ some (EebusError.ok, with_minus is_minus all)
    parse-to_string is_minus = elim (Bool-cases (is_zero all)) [
      | inl t ↦
          subst
            (λ d.
              reparsed (to_string (with_minus is_minus d))
              ≡ some (EebusError.ok, with_minus is_minus d))
            (sym (is_zero-zeros t)) (zeros-parse is_minus)
      | inr z ↦ by_sign is_minus z
    ]
      where
        by_sign :
            (b : Bool)
            → is_zero all ≡ false
            → reparsed (to_string (with_minus b all)) ≡ some (EebusError.ok, with_minus b all)
        by_sign true z = minus-parsed z
        by_sign false z = plus-parsed z
