-- ===== src/Common/Queue/Window.antt =====
-- A stretch of the cyclic buffer read as a list, oldest message first, and what well-formed means.
use openeebus.Prelude.{
  ℕ, zero, suc, ◌+◌, ◌-◌, ◌≤◌, ◌<◌, ◌≡◌, ◌≢◌, refl, ap, ◌∙◌, leb, if◌then◌else◌, true, false, List,
  [], ◌∷◌, ◌++◌, arith,
}
use openeebus.Common.Queue.{Queue, write, advance}

-- The place `k` messages after place `i`, for `k ≤ max_msg`.
abbrev pub place : ℕ → ℕ → ℕ → ℕ
place max_msg i k = if leb max_msg (i + k) then i + k - max_msg else i + k

pub place-advance :
    (max_msg i k : ℕ)
    → i < max_msg
    → k < max_msg
    → place max_msg (advance max_msg i) k ≡ place max_msg i (suc k)
place-advance max_msg i k h l = ground arith

pub advance_bound : (max_msg i : ℕ) → i < max_msg → advance max_msg i < max_msg
advance_bound max_msg i h = ground arith

pub place_apart : (max_msg i d : ℕ) → i < max_msg → suc d < max_msg → i ≢ place max_msg i (suc d)
place_apart max_msg i d h k = ground arith

module _ {ℓ} {A : Type ℓ} where
  abbrev pub window : (ℕ → A) → ℕ → ℕ → ℕ → List A
  window memory max_msg i zero = []
  window memory max_msg i (suc n) = memory i ∷ window memory max_msg (advance max_msg i) n

  abbrev pub count : Queue A → ℕ
  count q =
      if q.is_full
      then q.max_msg
      else if leb q.tail q.head
      then q.head - q.tail
      else q.head + q.max_msg - q.tail

  -- The abstract view of a queue: its messages, oldest first.
  abbrev pub contents : Queue A → List A
  contents q = window q.msg_buf q.max_msg q.tail (count q)

  pub record IsValid (q : Queue A) : Type 0 where
    pub head_bound : q.head < q.max_msg
    pub tail_bound : q.tail < q.max_msg
    pub full_meets : q.is_full ≡ true → q.head ≡ q.tail
    pub empty_meets : q.is_empty ≡ true → q.head ≡ q.tail
    pub not_both : q.is_full ≡ true → q.is_empty ≡ false
    pub meets : q.head ≡ q.tail → q.is_full ≡ false → q.is_empty ≡ true

  pub window-snoc :
      (memory : ℕ → A) (max_msg i n : ℕ)
      → i < max_msg
      → n < max_msg
      → window memory max_msg i (suc n)
        ≡ window memory max_msg i n ++ memory (place max_msg i n) ∷ []
  window-snoc memory max_msg i zero h k = ap (λ j. memory j ∷ []) (ground arith)
  window-snoc memory max_msg i (suc n) h k = ap (◌∷◌ (memory i)) (
      window-snoc memory max_msg (advance max_msg i) n (advance_bound max_msg i h) (omega arith)
      ∙ ap (λ j. window memory max_msg (advance max_msg i) n ++ memory j ∷ [])
          (place-advance max_msg i n h (omega arith)))

  pub window-write :
      (memory : ℕ → A) (max_msg i n d : ℕ) (a : A)
      → i < max_msg
      → n ≤ d
      → d < max_msg
      → window (write memory (place max_msg i d) a) max_msg i n ≡ window memory max_msg i n
  window-write memory max_msg i zero d a h k l = refl
  window-write memory max_msg i (suc n) zero a h k l = absurd (omega arith)
  window-write memory max_msg i (suc n) (suc d) a h k l = ground (
    arith,
    place_apart max_msg i d h l,
    place-advance max_msg i d h,
    window-write memory max_msg (advance max_msg i) n d a (advance_bound max_msg i h) (omega arith)
        (omega arith),
  )
