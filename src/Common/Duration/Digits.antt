-- ===== src/Common/Duration/Digits.antt =====
-- Numbers in a text, printed and read back: src/common/eebus_date_time/eebus_duration.c.
use openeebus.Prelude.{
  ℕ, zero, suc, ◌+◌, ◌-◌, ◌*◌, ◌/◌, ◌%◌, ◌^◌, ◌<◌, ◌==◌, leb, ◌≡◌, refl, sym, ap, ◌∙◌, true, false,
  Bool-cases, inl, inr, some, List, [], ◌∷◌, ◌++◌, arith,
}
use openeebus.Common.Duration.{pos, to_int32}
use openeebus.Common.Duration.Print.{is_digit, decimal}
use openeebus.Common.Duration.Parse.{scan_digits, starts_with_digit, unsigned, strtol, is_space}

scan-digit :
    (n d : ℕ) (s : List ℕ) → d < 10 → scan_digits n ((b'0' + d) ∷ s) ≡ scan_digits (n * 10 + d) s
unfolding scan_digits
scan-digit n d s h = ground arith

-- Ten to the power of the number of digits.
abbrev bound : ℕ → ℕ
bound zero = 1
bound (suc k) = 10 * bound k

last-digit :
    (n : ℕ) (out : List ℕ) → n < 10 → scan_digits 0 ((b'0' + n % 10) ∷ out) ≡ scan_digits n out
last-digit n out h =
    scan-digit 0 (n % 10) out (omega arith) ∙ ap (λ m. scan_digits m out) (omega (arith, h))

decimal-scan :
    (k n : ℕ) (out : List ℕ)
    → n < bound (suc k)
    → scan_digits 0 (decimal (suc k) n out) ≡ scan_digits n out
unfolding decimal
decimal-scan zero n out h = elim (Bool-cases (n / 10 == 0)) [
  | inl t ↦ rw t (last-digit n out (omega arith))
  | inr f ↦ absurd (ground (arith, f))
]
decimal-scan (suc k) n out h = elim (Bool-cases (n / 10 == 0)) [
  | inl t ↦ rw t (last-digit n out (ground (arith, t)))
  | inr f ↦ rw f (
      decimal-scan k (n / 10) ((b'0' + n % 10) ∷ out) (omega (arith, h))
      ∙ scan-digit (n / 10) (n % 10) out (omega arith)
      ∙ ap (λ m. scan_digits m out) (omega arith))
]

-- The text starts with a digit.
abbrev Digits : List ℕ → Type 0
Digits text = (c : ℕ) × (s : List ℕ) × (text ≡ c ∷ s) × (is_digit c ≡ true)

digit-is_digit : (n : ℕ) → is_digit (b'0' + n % 10) ≡ true
digit-is_digit n = ground arith

before-Digits : (k n c : ℕ) (s : List ℕ) → is_digit c ≡ true → Digits (decimal k n (c ∷ s))
unfolding decimal
before-Digits zero n c s h = (c, s, refl, h)
before-Digits (suc k) n c s h = elim (Bool-cases (n / 10 == 0)) [
  | inl t ↦ rw t (b'0' + n % 10, c ∷ s, refl, digit-is_digit n)
  | inr f ↦ rw f (before-Digits k (n / 10) (b'0' + n % 10) (c ∷ s) (digit-is_digit n))
]

pub decimal-Digits : (k n : ℕ) (out : List ℕ) → Digits (decimal (suc k) n out)
unfolding decimal
decimal-Digits k n out = elim (Bool-cases (n / 10 == 0)) [
  | inl t ↦ rw t (b'0' + n % 10, out, refl, digit-is_digit n)
  | inr f ↦ rw f (before-Digits k (n / 10) (b'0' + n % 10) out (digit-is_digit n))
]

pub decimal-append : (k n : ℕ) (a b : List ℕ) → decimal k n (a ++ b) ≡ decimal k n a ++ b
unfolding decimal
decimal-append zero n a b = refl
decimal-append (suc k) n a b = elim (Bool-cases (n / 10 == 0)) [
  | inl t ↦ rw t refl
  | inr f ↦ rw f (decimal-append k (n / 10) ((b'0' + n % 10) ∷ a) b)
]

scan_digits-stop :
    (n : ℕ) (out : List ℕ) → starts_with_digit out ≡ false → scan_digits n out ≡ (n, out)
unfolding scan_digits
scan_digits-stop n [] h = refl
scan_digits-stop n (c ∷ s) h = rw h refl

pub to_int32-small : (n : ℕ) → n < 2 ^ 31 → to_int32 (pos n) ≡ pos n
to_int32-small n h = ground arith

digit-others :
    (c : ℕ)
    → is_digit c ≡ true
    → (is_space c ≡ false) × ((c == b'-') ≡ false) × ((c == b'+') ≡ false)
digit-others c h = ground arith

unsigned-digit :
    (c n : ℕ) (s out : List ℕ)
    → is_digit c ≡ true
    → n < 2 ^ 31
    → scan_digits 0 (c ∷ s) ≡ (n, out)
    → unsigned false (c ∷ s) ≡ some (pos n, out)
unsigned-digit c n s out d h e =
    let small : leb n (2 ^ 63 - 1) ≡ true = ground arith in rw (d, e, small) refl

strtol-digit :
    (c n : ℕ) (s out : List ℕ)
    → is_digit c ≡ true
    → n < 2 ^ 31
    → scan_digits 0 (c ∷ s) ≡ (n, out)
    → strtol (c ∷ s) ≡ some (pos n, out)
unfolding strtol
strtol-digit c n s out d h e =
    let (space, minus, plus) = digit-others c d in
    rw (space, minus, plus) (unsigned-digit c n s out d h e)

-- A printed number that no digit follows is read back.
pub strtol-decimal :
    (n : ℕ) (out : List ℕ)
    → n < 2 ^ 31
    → starts_with_digit out ≡ false
    → strtol (decimal 10 n out) ≡ some (pos n, out)
strtol-decimal n out h o =
    let (c, s, e, d) = decimal-Digits 9 n out in
    let scanned = ap (scan_digits 0) (sym e) ∙ decimal-scan 9 n out (omega (arith, h)) in
    ap strtol e ∙ strtol-digit c n s out d h (scanned ∙ scan_digits-stop n out o)
