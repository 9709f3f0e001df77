-- ===== src/Spine/Pending/Timeout.antt =====
-- When requests that nothing answers time out; their callbacks add nothing.
use openeebus.Prelude.{
  ℕ, zero, suc, ◌+◌, ◌-◌, ◌≤◌, Bool, false, ◌≡◌, refl, ◌∙◌, Bool-cases, inl, inr, List, [], ◌∷◌,
  ◌++◌, arith,
}
use openeebus.Common.Countdown.{Countdown, tick, life, life-tick, life-expired, expired-life}
use openeebus.Spine.Pending.{tick_round, tick_loop, joined, count}
use openeebus.Spine.Pending.Laws.{tick-count, count-append, added}
use openeebus.Spine.Manager.Removal.{append-nil}

abbrev pub silent {ℓ κ} : {A : Type ℓ} {E : Type κ} → E → List A
silent _ = []

module _ {ℓ} {A : Type ℓ} (countdown : A → Countdown) where
  -- Each request has at most `n` ticks left until the tick that calls its callback.
  abbrev pub Due : ℕ → List A → Type 0
  Due n [] = Unit {0}
  Due n (x ∷ xs) = (life (countdown x) ≤ n) × Due n xs

  -- Each request has at least `n` of them left.
  abbrev pub Early : ℕ → List A → Type 0
  Early n [] = Unit {0}
  Early n (x ∷ xs) = (n ≤ life (countdown x)) × Early n xs

-- A number of ticks, with the calls that they make.
unfoldable pub ticks {ℓ κ} :
    {A : Type ℓ} {E : Type κ} → (List A → List A × List E) → ℕ → List A → List A × List E
ticks step zero xs = (xs, [])
ticks step (suc n) xs =
    let (xs', calls) = step xs in let (rest, later) = ticks step n xs' in (rest, calls ++ later)

module _ {ℓ κ} {A : Type ℓ} {E : Type κ} (countdown : A → Countdown) where
  abbrev DueThen : ℕ → List A × List A × List E → Type ℓ
  DueThen n (kept, more, calls) = (more ≡ []) × Due countdown n kept

  abbrev EarlyThen : ℕ → List A × List A × List E → Type (ℓ ⊔ κ)
  EarlyThen n (kept, more, calls) = (calls ≡ []) × (more ≡ []) × Early countdown n kept

  module _ (fire : A → E) (age : A → A)
      (ticked : (x : A) → countdown (age x) ≡ tick (countdown x)) where
    abbrev step : List A → List A × List E
    step xs = joined fire silent (tick_loop fire silent countdown age xs)

    aged :
        (x : A) → (countdown x).expired ≡ false → life (countdown (age x)) ≡ life (countdown x) - 1
    aged x h = rw (ticked x) (life-tick (countdown x) h)

    round-Due :
        (n : ℕ) (x : A) (t : List A × List A × List E)
        → life (countdown x) ≤ suc n
        → DueThen n t
        → DueThen n (tick_round fire silent countdown age x t)
    unfolding tick_round
    round-Due n x (kept, more, calls) h (e, d) = elim (Bool-cases (countdown x).expired) [
      | inl y ↦ rw y (append-nil more ∙ e, d)
      | inr z ↦ rw z (e, (omega (arith, aged x z), d))
    ]

    loop-Due :
        (n : ℕ) (xs : List A)
        → Due countdown (suc n) xs
        → DueThen n (tick_loop fire silent countdown age xs)
    unfolding tick_loop
    loop-Due n [] d = (refl, tt)
    loop-Due n (x ∷ xs) (h, d) =
        round-Due n x (tick_loop fire silent countdown age xs) h (loop-Due n xs d)

    round-Early :
        (n : ℕ) (x : A) (t : List A × List A × List E)
        → suc n ≤ life (countdown x)
        → EarlyThen n t
        → EarlyThen n (tick_round fire silent countdown age x t)
    unfolding tick_round
    round-Early n x (kept, more, calls) h (c, e, d) = elim (Bool-cases (countdown x).expired) [
      | inl y ↦ absurd (omega (arith, life-expired (countdown x) y))
      | inr z ↦ rw z (c, e, (omega (arith, aged x z), d))
    ]

    loop-Early :
        (n : ℕ) (xs : List A)
        → Early countdown (suc n) xs
        → EarlyThen n (tick_loop fire silent countdown age xs)
    unfolding tick_loop
    loop-Early n [] d = (refl, refl, tt)
    loop-Early n (x ∷ xs) (h, d) =
        round-Early n x (tick_loop fire silent countdown age xs) h (loop-Early n xs d)

    -- What is due at once is called.
    loop-none :
        (xs : List A)
        → Due countdown 0 xs
        → ((tick_loop fire silent countdown age xs).0 ≡ [])
          × ((tick_loop fire silent countdown age xs).1 ≡ [])
    unfolding tick_loop tick_round
    loop-none [] d = (refl, refl)
    loop-none (x ∷ xs) (h, d) =
        let (none_kept, none_more) = loop-none xs d in
        rw (expired-life (countdown x) (omega arith)) (none_kept, append-nil _ ∙ none_more)

    step-Due : (n : ℕ) (xs : List A) → Due countdown (suc n) xs → Due countdown n (step xs).0
    step-Due n xs d = go (tick_loop fire silent countdown age xs) (loop-Due n xs d)
      where
        go : (t : List A × List A × List E) → DueThen n t → Due countdown n (joined fire silent t).0
        go (kept, more, calls) (e, d) = rw e (rw (append-nil kept) d)

    step-Early :
        (n : ℕ) (xs : List A)
        → Early countdown (suc n) xs
        → ((step xs).1 ≡ []) × Early countdown n (step xs).0
    step-Early n xs d = go (tick_loop fire silent countdown age xs) (loop-Early n xs d)
      where
        go :
            (t : List A × List A × List E)
            → EarlyThen n t
            → ((joined fire silent t).1 ≡ []) × Early countdown n (joined fire silent t).0
        go (kept, more, calls) (c, e, d) = (c, rw e (rw (append-nil kept) d))

    step-none : (xs : List A) → Due countdown 0 xs → (step xs).0 ≡ []
    step-none xs d = let (e, f) = loop-none xs d in rw (e, f) refl

    pub ticks-none : (n : ℕ) (xs : List A) → Due countdown n xs → (ticks step (suc n) xs).0 ≡ []
    unfolding ticks
    ticks-none zero xs d = step-none xs d
    ticks-none (suc n) xs d = ticks-none n (step xs).0 (step-Due n xs d)

    pub ticks-Early : (n : ℕ) (xs : List A) → Early countdown n xs → (ticks step n xs).1 ≡ []
    unfolding ticks
    ticks-Early zero xs d = refl
    ticks-Early (suc n) xs d =
        let (e, d') = step-Early n xs d in rw (e, ticks-Early n (step xs).0 d') refl

    module _ (p : A → Bool) (q : E → Bool) (same : (x : A) → q (fire x) ≡ p x)
        (kept_same : (x : A) → p (age x) ≡ p x) where
      count-silent : (es : List E) → count p (added silent es) ≡ 0
      unfolding count added
      count-silent [] = refl
      count-silent (e ∷ es) = count-silent es

      pub ticks-count :
          (n : ℕ) (xs : List A)
          → count p (ticks step n xs).0 + count q (ticks step n xs).1 ≡ count p xs
      unfolding count ticks
      ticks-count zero xs = omega arith
      ticks-count (suc n) xs = omega (
        arith,
        count-append q (step xs).1 (ticks step n (step xs).0).1,
        ticks-count n (step xs).0,
        tick-count silent fire p q same countdown age kept_same xs,
        count-silent (step xs).1,
      )

      pub ticks-all :
          (n : ℕ) (xs : List A)
          → Due countdown n xs
          → count q (ticks step (suc n) xs).1 ≡ count p xs
      unfolding count
      ticks-all n xs d =
          let e : count p (ticks step (suc n) xs).0 ≡ 0 = rw (ticks-none n xs d) refl in
          omega (arith, e, ticks-count (suc n) xs)
