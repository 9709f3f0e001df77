-- ===== src/Common/Text.antt =====
-- C strings, src/common/string_util.c: a list of character codes, none of them 0, whose end is the
-- terminating NUL.
use openeebus.Prelude.{
  ℕ, zero, suc, ◌==◌, if◌then◌else◌, Bool, true, false, ◌&&◌, ◌≡◌, ◌↔◌, List, [], ◌∷◌, length,
  arith,
}

abbrev pub is_empty : List ℕ → Bool
is_empty [] = true
is_empty (_ ∷ _) = false

-- `StringNCompare`.
unfoldable pub n_compare : List ℕ → List ℕ → ℕ → Bool
n_compare a b zero = is_empty a && is_empty b
n_compare [] [] (suc n) = true
n_compare [] (_ ∷ _) (suc n) = false
n_compare (_ ∷ _) [] (suc n) = false
n_compare (x ∷ a) (y ∷ b) (suc n) = if x == y then n_compare a b n else false

-- Over the length of the first string the comparison is true exactly of equal strings.
pub n_compare-length : (a b : List ℕ) → (n_compare a b (length a) ≡ true) ↔ (a ≡ b)
unfolding n_compare
n_compare-length [] [] = ground arith
n_compare-length [] (y ∷ b) = ground arith
n_compare-length (x ∷ a) [] = ground arith
n_compare-length (x ∷ a) (y ∷ b) = ground (arith, n_compare-length a b)
