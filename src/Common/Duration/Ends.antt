-- ===== src/Common/Duration/Ends.antt =====
-- The loop of `EebusDurationParse`, src/common/eebus_date_time/eebus_duration.c, ends.
use openeebus.Prelude.{
  ℕ, zero, suc, ◌+◌, ◌-◌, ◌*◌, ◌≤◌, ◌==◌, ◌≡◌, refl, sym, ap, ◌∙◌, Bool, true, false, Bool-cases,
  inl, inr, Option, Option-cases, none, some, is_some, List, [], ◌∷◌, length, arith,
}
use openeebus.Common.Error.{EebusError}
use openeebus.Common.Duration.{ℤ, Duration}
use openeebus.Common.Duration.Print.{is_digit}
use openeebus.Common.Duration.Parse.{
  scan_digits, skip_space, unsigned, signed, strtol, fraction, set_value, parse_ms, ms_behind,
  after_set, key_step, number_step, step, Step, more, stop, then_rounds, parse_loop,
}

scan_digits-length : (n : ℕ) (s : List ℕ) → length (scan_digits n s).1 ≤ length s
unfolding scan_digits
scan_digits-length n [] = omega arith
scan_digits-length n (c ∷ s) = ground (arith, scan_digits-length (n * 10 + (c - b'0')) s)

scan_digits-shorter :
    (n c : ℕ) (s : List ℕ) → is_digit c ≡ true → length (scan_digits n (c ∷ s)).1 ≤ length s
unfolding scan_digits
scan_digits-shorter n c s h = rw h (scan_digits-length (n * 10 + (c - b'0')) s)

skip_space-length : (s : List ℕ) → length (skip_space s) ≤ length s
skip_space-length [] = omega arith
skip_space-length (c ∷ s) = ground (arith, skip_space-length s)

-- How much of the text is left behind a number.
abbrev left_behind : Option (ℤ × List ℕ) → ℕ
left_behind none = 0
left_behind (some (v, s)) = suc (length s)

unsigned-left : (is_minus : Bool) (s : List ℕ) → left_behind (unsigned is_minus s) ≤ length s
unsigned-left is_minus [] = omega arith
unsigned-left is_minus (c ∷ s) = elim (Bool-cases (is_digit c)) [
  | inl t ↦ ground (arith, t, scan_digits-shorter 0 c s t)
  | inr f ↦ rw f (omega arith)
]

signed-left : (s : List ℕ) → left_behind (signed s) ≤ length s
signed-left [] = omega arith
signed-left (c ∷ s) =
    ground (arith, unsigned-left true s, unsigned-left false s, unsigned-left false (c ∷ s))

strtol-left : (s : List ℕ) → left_behind (strtol s) ≤ length s
unfolding strtol
strtol-left s = omega (arith, signed-left (skip_space s), skip_space-length s)

fraction-length : (fs : List ℕ) (n : ℕ) (s : List ℕ) → length (fraction fs n s).1 ≤ length s
fraction-length [] n s = omega arith
fraction-length (f ∷ fs) n [] = omega arith
fraction-length (f ∷ fs) n (c ∷ s) = ground (arith, fraction-length fs (n + (c - b'0') * f) s)

-- How much of the text is left for the next round.
abbrev left_over : Step → ℕ
left_over (more is_time d s) = length s
left_over (stop err d) = 0

ms_behind-left :
    (is_time : Bool) (d : Duration) (v : ℤ) (p : ℕ × List ℕ)
    → left_over (ms_behind is_time d v p) ≤ length p.1
ms_behind-left is_time d v (n, []) = omega arith
ms_behind-left is_time d v (n, c ∷ s) = ground arith

parse_ms-left :
    (is_time : Bool) (d : Duration) (v : ℤ) (s : List ℕ)
    → left_over (parse_ms is_time d v s) ≤ length s
unfolding parse_ms
parse_ms-left is_time d v s =
    let fs : List ℕ = 100 ∷ 10 ∷ 1 ∷ [] in
    omega (arith, ms_behind-left is_time d v (fraction fs 0 s), fraction-length fs 0 s)

after_set-left :
    (is_time : Bool) (s : List ℕ) (p : Duration × EebusError)
    → left_over (after_set is_time s p) ≤ length s
after_set-left is_time s (d, err) = ground arith

key_step-left :
    (is_time : Bool) (d : Duration) (v : ℤ) (s : List ℕ)
    → left_over (key_step is_time d v s) ≤ length s
key_step-left is_time d v [] = after_set-left is_time [] (set_value d 0 is_time v)
key_step-left is_time d v (c ∷ s) =
    ground (arith, parse_ms-left is_time d v s, after_set-left is_time s (set_value d c is_time v))

number_step-left :
    (is_time : Bool) (d : Duration) (o : Option (ℤ × List ℕ)) (n : ℕ)
    → left_behind o ≤ suc n
    → left_over (number_step is_time d o) ≤ n
number_step-left is_time d none n h = omega arith
number_step-left is_time d (some (v, s)) n h = omega (arith, h, key_step-left is_time d _ s)

step-left :
    (is_time : Bool) (d : Duration) (c : ℕ) (s : List ℕ) → left_over (step is_time d c s) ≤ length s
unfolding step
step-left is_time d c s =
    let number = number_step-left is_time d (strtol (c ∷ s)) (length s) (strtol-left (c ∷ s)) in
    elim (Bool-cases (c == b'T')) [ inl t ↦ rw t (ground arith) | inr f ↦ rw f number ]

rounds-end :
    (rounds : ℕ) (st : Step)
    → ((is_time : Bool) (d : Duration) (s : List ℕ)
        → length s ≤ rounds
        → is_some (parse_loop rounds is_time d s) ≡ true)
    → left_over st ≤ rounds
    → is_some (then_rounds st (parse_loop rounds)) ≡ true
rounds-end rounds (more is_time d s) hyp h = hyp is_time d s h
rounds-end rounds (stop err d) hyp h = refl

-- With a round for each character the loop ends.
pub parse_loop-ends :
    (rounds : ℕ) (is_time : Bool) (d : Duration) (s : List ℕ)
    → length s ≤ rounds
    → is_some (parse_loop rounds is_time d s) ≡ true
unfolding parse_loop
parse_loop-ends zero is_time d [] h = refl
parse_loop-ends zero is_time d (c ∷ s) h = absurd (omega (arith, h))
parse_loop-ends (suc rounds) is_time d [] h = refl
parse_loop-ends (suc rounds) is_time d (c ∷ s) h =
    rounds-end rounds (step is_time d c s) (parse_loop-ends rounds)
      (omega (arith, h, step-left is_time d c s))

rounds-more :
    (rounds : ℕ) (st : Step) (r : EebusError × Duration)
    → ((is_time : Bool) (d : Duration) (s : List ℕ)
        → parse_loop rounds is_time d s ≡ some r
        → parse_loop (suc rounds) is_time d s ≡ some r)
    → then_rounds st (parse_loop rounds) ≡ some r
    → then_rounds st (parse_loop (suc rounds)) ≡ some r
rounds-more rounds (more is_time d s) r hyp h = hyp is_time d s h
rounds-more rounds (stop err d) r hyp h = h

parse_loop-suc :
    (r : EebusError × Duration) (rounds : ℕ) (is_time : Bool) (d : Duration) (s : List ℕ)
    → parse_loop rounds is_time d s ≡ some r
    → parse_loop (suc rounds) is_time d s ≡ some r
unfolding parse_loop
parse_loop-suc r rounds is_time d [] h = h
parse_loop-suc r zero is_time d (c ∷ s) h = absurd (cc h)
parse_loop-suc r (suc rounds) is_time d (c ∷ s) h =
    rounds-more rounds (step is_time d c s) r (parse_loop-suc r rounds) h

parse_loop-more :
    (r : EebusError × Duration) (k rounds : ℕ) (is_time : Bool) (d : Duration) (s : List ℕ)
    → parse_loop rounds is_time d s ≡ some r
    → parse_loop (k + rounds) is_time d s ≡ some r
parse_loop-more r zero rounds is_time d s h =
    let same : 0 + rounds ≡ rounds = omega arith in ap (λ n. parse_loop n is_time d s) same ∙ h
parse_loop-more r (suc k) rounds is_time d s h =
    let same : suc k + rounds ≡ suc (k + rounds) = omega arith in
    ap (λ n. parse_loop n is_time d s) same
    ∙ parse_loop-suc r (k + rounds) is_time d s (parse_loop-more r k rounds is_time d s h)

-- The result of some number of rounds is that of a round for each character.
pub parse_loop-length :
    (r : EebusError × Duration) (rounds : ℕ) (is_time : Bool) (d : Duration) (s : List ℕ)
    → parse_loop rounds is_time d s ≡ some r
    → parse_loop (length s) is_time d s ≡ some r
parse_loop-length r rounds is_time d s h = elim (Option-cases (parse_loop (length s) is_time d s)) [
  | inl n ↦ absurd (ground (arith, n, parse_loop-ends (length s) is_time d s (omega arith)))
  | inr (q, e) ↦
      let by_length = parse_loop-more q rounds (length s) is_time d s e in
      let by_rounds = parse_loop-more r (length s) rounds is_time d s h in
      let same : length s + rounds ≡ rounds + length s = omega arith in
      e ∙ sym by_length ∙ sym (ap (λ n. parse_loop n is_time d s) same) ∙ by_rounds
]
