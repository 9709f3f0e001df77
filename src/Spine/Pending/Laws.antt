-- ===== src/Spine/Pending/Laws.antt =====
-- The laws of the walks over a container that replies and results share.
use openeebus.Prelude.{
  ℕ, ◌+◌, ◌≤◌, ◌==◌, if◌then◌else◌, Bool, ◌≡◌, refl, Bool-cases, inl, inr, List, [], ◌∷◌, ◌++◌,
  arith,
}
use openeebus.Common.Countdown.{Countdown}
use openeebus.Spine.Pending.{tick_round, tick_loop, process_loop, keep, count, joined}

module _ {ℓ} {A : Type ℓ} where
  pub count-append : (p : A → Bool) (xs ys : List A) → count p (xs ++ ys) ≡ count p xs + count p ys
  unfolding count
  count-append p [] ys = omega arith
  count-append p (x ∷ xs) ys = omega (arith, count-append p xs ys)

  -- A walk that removes splits the container.
  pub count-keep : (p drop : A → Bool) (xs : List A) → count p (keep drop xs) ≤ count p xs
  unfolding count keep
  count-keep p drop [] = omega arith
  count-keep p drop (x ∷ xs) = ground (arith, count-keep p drop xs)

-- What the callbacks that were called have added.
unfoldable pub added {ℓ κ} : {A : Type ℓ} {E : Type κ} → (E → List A) → List E → List A
added again [] = []
added again (e ∷ es) = again e ++ added again es

-- The requests of a container that satisfy `p`, `n` of them, stay or are called, and what is added
-- comes from the calls.
abbrev Counted {ℓ κ} :
    {A : Type ℓ} {E : Type κ}
    → (E → List A)
    → (A → Bool)
    → (E → Bool)
    → ℕ
    → List A × List A × List E
    → Type 0
Counted again p q n (kept, more, calls) =
    (count p kept + count q calls ≡ n) × (count p more ≡ count p (added again calls))

module _ {ℓ κ} {A : Type ℓ} {E : Type κ} (again : E → List A) where
  count-added :
      (p : A → Bool) (es : List E) (e : E)
      → count p (added again (es ++ e ∷ [])) ≡ count p (added again es) + count p (again e)
  unfolding added count
  count-added p [] e = omega (arith, count-append p (again e) [])
  count-added p (d ∷ es) e = omega (
    arith,
    count-append p (again d) (added again es),
    count-append p (again d) (added again (es ++ e ∷ [])),
    count-added p es e,
  )

  module _ (fire : A → E) (p : A → Bool) (q : E → Bool) (same : (x : A) → q (fire x) ≡ p x) where
    module _ (countdown : A → Countdown) (age : A → A) (kept_same : (x : A) → p (age x) ≡ p x) where
      tick_round-Counted :
          (x : A) (n : ℕ) (t : List A × List A × List E)
          → Counted again p q n t
          → Counted again p q ((if p x then 1 else 0) + n) (tick_round fire again countdown age x t)
      unfolding tick_round count
      tick_round-Counted x n (kept, more, calls) (h, k) = elim (Bool-cases (countdown x).expired) [
        | inl y ↦ rw y (
          rw (count-append q calls (fire x ∷ [])) (rw (same x) (omega arith)),
          omega (arith, count-append p more (again (fire x)), count-added p calls (fire x)),
        )
        | inr z ↦ rw z (rw (kept_same x) (omega arith), k)
      ]

      tick_loop-Counted :
          (xs : List A) → Counted again p q (count p xs) (tick_loop fire again countdown age xs)
      unfolding tick_loop count added
      tick_loop-Counted [] = (omega arith, refl)
      tick_loop-Counted (x ∷ xs) =
          tick_round-Counted x (count p xs) (tick_loop fire again countdown age xs)
            (tick_loop-Counted xs)

      -- `Tick`: every request and every addition is pending or has been called.
      pub tick-count :
          (xs : List A)
          → count p (joined fire again (tick_loop fire again countdown age xs)).0
              + count q (joined fire again (tick_loop fire again countdown age xs)).1
            ≡ count p xs
              + count p (added again (joined fire again (tick_loop fire again countdown age xs)).1)
      tick-count xs = total (tick_loop fire again countdown age xs) (tick_loop-Counted xs)
        where
          total :
              (t : List A × List A × List E)
              → Counted again p q (count p xs) t
              → count p (joined fire again t).0 + count q (joined fire again t).1
                ≡ count p xs + count p (added again (joined fire again t).1)
          total (kept, more, calls) (h, k) = omega (arith, count-append p kept more)

    -- `Process`: likewise.
    pub process-count :
        (ref : A → ℕ) (n : ℕ) (xs : List A)
        → count p (process_loop fire again ref n xs).0
            + count q (process_loop fire again ref n xs).1
          ≡ count p xs + count p (added again (process_loop fire again ref n xs).1)
    unfolding process_loop count added
    process-count ref n [] = omega arith
    process-count ref n (x ∷ xs) = elim (Bool-cases (ref x == n)) [
      | inl y ↦ rw y (
          rw (count-append p xs (again (fire x)))
            (rw (count-append p (again (fire x)) []) (rw (same x) (omega arith))))
      | inr z ↦ rw z (omega (arith, process-count ref n xs))
    ]
