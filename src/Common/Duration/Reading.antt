-- ===== src/Common/Duration/Reading.antt =====
-- The text of a duration read back by the loop of the parser, src/common/eebus_date_time/eebus_duration.c.
use openeebus.Prelude.{
  ℕ, suc, ◌^◌, ◌<◌, ◌==◌, ◌≡◌, refl, sym, ap, ◌∙◌, subst, ◌⊎◌, Bool, true, false, Bool-cases, inl,
  inr, some, List, [], ◌∷◌, ◌++◌, arith,
}
use openeebus.Common.Error.{EebusError, is_ok}
use openeebus.Common.Duration.{pos, Duration, zeros}
use openeebus.Common.Duration.Print.{
  is_digit, decimal, formatted, three_digits, print_non_zero, time_text, seconds_text, has_time,
}
use openeebus.Common.Duration.Parse.{
  starts_with_digit, strtol, fraction, set_value, parse_ms, after_set, key_step, step, more,
  parse_loop,
}
use openeebus.Common.Duration.Digits.{
  decimal-append, decimal-Digits, strtol-decimal, to_int32-small,
}

abbrev Result : Type 0
Result = EebusError × Duration

-- Some number of rounds of the loop gives a result.
abbrev Parses : Result → Bool → Duration → List ℕ → Type 0
Parses r is_time d s = (rounds : ℕ) × (parse_loop rounds is_time d s ≡ some r)

-- A key that is set for a number: the duration before and after it.
abbrev Sets : Duration → ℕ → Bool → ℕ → Duration → Type 0
Sets d key is_time n d' =
    (set_value d key is_time (pos n) ≡ (d', EebusError.ok))
    × (is_digit key ≡ false)
    × ((key == b'.') ≡ false)

module _ (r : Result) where
  end-Parses : (is_time : Bool) (d : Duration) → r ≡ (EebusError.ok, d) → Parses r is_time d []
  unfolding parse_loop
  end-Parses is_time d h = (0, ap some (sym h))

  round-Parses :
      (is_time : Bool) (d : Duration) (c : ℕ) (s : List ℕ) (is_time' : Bool) (d' : Duration)
      (s' : List ℕ)
      → step is_time d c s ≡ more is_time' d' s'
      → Parses r is_time' d' s'
      → Parses r is_time d (c ∷ s)
  unfolding parse_loop
  round-Parses is_time d c s is_time' d' s' h (rounds, e) = (suc rounds, rw h e)

  number-Parses :
      (is_time : Bool) (d : Duration) (n : ℕ) (out : List ℕ) (d' : Duration) (s' : List ℕ)
      → n < 2 ^ 31
      → starts_with_digit out ≡ false
      → key_step is_time d (pos n) out ≡ more is_time d' s'
      → Parses r is_time d' s'
      → Parses r is_time d (decimal 10 n out)
  unfolding step
  number-Parses is_time d n out d' s' h o k p =
      let (c, s, e, digit) = decimal-Digits 9 n out in
      let no_time : (c == b'T') ≡ false = ground (arith, digit) in
      let value = sym (ap strtol e) ∙ strtol-decimal n out h o in
      subst (λ text. Parses r is_time d text) (sym e)
        (round-Parses is_time d c s is_time d' s' (rw (no_time, value, to_int32-small n h) k) p)

  key-Parses :
      (is_time : Bool) (d : Duration) (n key : ℕ) (rest : List ℕ) (d' : Duration)
      → n < 2 ^ 31
      → Sets d key is_time n d'
      → Parses r is_time d' rest
      → Parses r is_time d (decimal 10 n (key ∷ rest))
  unfolding is_ok
  key-Parses is_time d n key rest d' h (set, no_digit, no_point) p =
      number-Parses is_time d n (key ∷ rest) d' rest h no_digit
        (rw (no_point, ap (after_set is_time rest) set) refl) p

  item-Parses :
      (is_time : Bool) (d : Duration) (n key : ℕ) (rest : List ℕ) (d' : Duration)
      → n < 2 ^ 31
      → Sets d key is_time n d'
      → (n ≡ 0 → d' ≡ d)
      → Parses r is_time d' rest
      → Parses r is_time d (print_non_zero formatted (pos n) (key ∷ []) ++ rest)
  unfolding print_non_zero
  item-Parses is_time d n key rest d' h sets zero_set p = elim (Bool-cases (n == 0)) [
    | inl t ↦ rw t (subst (λ x. Parses r is_time x rest) (zero_set (ground (arith, t))) p)
    | inr f ↦ rw f (
        subst (λ text. Parses r is_time d text) (decimal-append 10 n (key ∷ []) rest)
          (key-Parses is_time d n key rest d' h sets p))
  ]

-- Three digits are read back.
fraction-three_digits :
    (ms : ℕ) (s : List ℕ)
    → ms < 1000
    → fraction (100 ∷ 10 ∷ 1 ∷ []) 0 (three_digits ms (b'S' ∷ s)) ≡ (ms, b'S' ∷ s)
fraction-three_digits ms s h = ground arith

-- A duration of natural numbers.
abbrev pub whole : ℕ → ℕ → ℕ → ℕ → ℕ → ℕ → ℕ → Duration
whole y mo da ho mi s ms = record {
  years = pos y;
  months = pos mo;
  days = pos da;
  hours = pos ho;
  minutes = pos mi;
  seconds = pos s;
  milliseconds = pos ms;
}

module _ (y mo da ho mi s ms : ℕ) where
  abbrev all : Duration
  all = whole y mo da ho mi s ms

  fraction-Parses :
      s < 2 ^ 31
      → ms < 1000
      → 0 < s
      → Parses
          (EebusError.ok, all)
          true
          (whole y mo da ho mi 0 0)
          (decimal 10 s (b'.' ∷ three_digits ms (b'S' ∷ [])))
  unfolding parse_ms
  fraction-Parses sb mb h =
      number-Parses (EebusError.ok, all) true (whole y mo da ho mi 0 0) s
        (b'.' ∷ three_digits ms (b'S' ∷ [])) all [] sb refl
        (rw (fraction-three_digits ms [] mb) refl) (end-Parses (EebusError.ok, all) true all refl)

  plain-Parses :
      s < 2 ^ 31
      → ms ≡ 0
      → Parses
          (EebusError.ok, all)
          true
          (whole y mo da ho mi 0 0)
          (print_non_zero formatted (pos s) (b'S' ∷ []))
  unfolding print_non_zero set_value
  plain-Parses sb z = elim (Bool-cases (s == 0)) [
    | inl t ↦
        let s0 : s ≡ 0 = ground (arith, t) in
        rw t (
          end-Parses (EebusError.ok, all) true (whole y mo da ho mi 0 0)
            (ap (λ n. (EebusError.ok, whole y mo da ho mi n ms)) s0
              ∙ ap (λ n. (EebusError.ok, whole y mo da ho mi 0 n)) z))
    | inr f ↦ rw f (
        key-Parses (EebusError.ok, all) true (whole y mo da ho mi 0 0) s b'S' []
          (whole y mo da ho mi s 0) sb (refl, refl, refl)
          (end-Parses (EebusError.ok, all) true (whole y mo da ho mi s 0)
            (ap (λ n. (EebusError.ok, whole y mo da ho mi s n)) z)))
  ]

  seconds-Parses :
      s < 2 ^ 31
      → ms < 1000
      → (ms ≡ 0) ⊎ (0 < s)
      → Parses (EebusError.ok, all) true (whole y mo da ho mi 0 0) (seconds_text all)
  unfolding print_non_zero
  seconds-Parses sb mb c = elim (Bool-cases (ms == 0)) [
    | inl t ↦ rw t (plain-Parses sb (ground (arith, t)))
    | inr f ↦
        let positive : 0 < s = ground (arith, f, c) in
        let some_seconds : (s == 0) ≡ false = ground (arith, positive) in
        rw (f, some_seconds)
          (subst (λ text. Parses (EebusError.ok, all) true (whole y mo da ho mi 0 0) text)
            (decimal-append 10 s [] (b'.' ∷ three_digits ms (b'S' ∷ [])))
            (fraction-Parses sb mb positive))
  ]

  module _ (yb : y < 2 ^ 31) (mob : mo < 2 ^ 31) (dab : da < 2 ^ 31) (hob : ho < 2 ^ 31)
      (mib : mi < 2 ^ 31) (sb : s < 2 ^ 31) (msb : ms < 1000) (c : (ms ≡ 0) ⊎ (0 < s)) where
    time-Parses : Parses (EebusError.ok, all) false (whole y mo da 0 0 0 0) (time_text all)
    unfolding step set_value
    time-Parses = elim (Bool-cases (has_time all)) [
      | inl t ↦ rw t (
          round-Parses (EebusError.ok, all) false (whole y mo da 0 0 0 0) b'T' _ true
            (whole y mo da 0 0 0 0) _ refl
            (item-Parses (EebusError.ok, all) true (whole y mo da 0 0 0 0) ho b'H' _
              (whole y mo da ho 0 0 0) hob (refl, refl, refl)
              (λ z. ap (λ n. whole y mo da n 0 0 0) z)
              (item-Parses (EebusError.ok, all) true (whole y mo da ho 0 0 0) mi b'M' _
                (whole y mo da ho mi 0 0) mib (refl, refl, refl)
                (λ z. ap (λ n. whole y mo da ho n 0 0) z) (seconds-Parses sb msb c))))
      | inr f ↦
          let h0 : ho ≡ 0 = ground (arith, f) in
          let m0 : mi ≡ 0 = ground (arith, f) in
          let s0 : s ≡ 0 = ground (arith, f) in
          let z0 : ms ≡ 0 = ground (arith, f) in
          rw f (
            end-Parses (EebusError.ok, all) false (whole y mo da 0 0 0 0)
              (ap (λ n. (EebusError.ok, whole y mo da n mi s ms)) h0
                ∙ ap (λ n. (EebusError.ok, whole y mo da 0 n s ms)) m0
                ∙ ap (λ n. (EebusError.ok, whole y mo da 0 0 n ms)) s0
                ∙ ap (λ n. (EebusError.ok, whole y mo da 0 0 0 n)) z0))
    ]

    -- What stands behind the `P`.
    pub parts-Parses :
        Parses
          (EebusError.ok, all)
          false
          zeros
          (print_non_zero formatted (pos y) (b'Y' ∷ [])
            ++ (print_non_zero formatted (pos mo) (b'M' ∷ [])
                ++ (print_non_zero formatted (pos da) (b'D' ∷ []) ++ time_text all)))
    unfolding set_value
    parts-Parses =
        item-Parses (EebusError.ok, all) false zeros y b'Y' _ (whole y 0 0 0 0 0 0) yb
          (refl, refl, refl) (λ z. ap (λ n. whole n 0 0 0 0 0 0) z)
          (item-Parses (EebusError.ok, all) false (whole y 0 0 0 0 0 0) mo b'M' _
            (whole y mo 0 0 0 0 0) mob (refl, refl, refl) (λ z. ap (λ n. whole y n 0 0 0 0 0) z)
            (item-Parses (EebusError.ok, all) false (whole y mo 0 0 0 0 0) da b'D' _
              (whole y mo da 0 0 0 0) dab (refl, refl, refl) (λ z. ap (λ n. whole y mo n 0 0 0 0) z)
              time-Parses))
