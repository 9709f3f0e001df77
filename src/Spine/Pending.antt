-- ===== src/Spine/Pending.antt =====
-- What the containers of pending replies, results and writes of src/spine/feature have in common: a
-- vector of requests, each with a countdown, which is walked from its end at each tick, and from its
-- start for an answer. `fire` is what the callback of a request is told, and `again` the requests
-- that the callback adds while it runs; they go to the end of the vector, which the walk has passed.
pub mod Reply
pub mod Result
pub mod Write
pub mod Laws
pub mod Timeout
pub mod Once
pub mod Tests
use openeebus.Prelude.{ℕ, ◌+◌, ◌==◌, if◌then◌else◌, Bool, true, false, List, [], ◌∷◌, ◌++◌, length}
use openeebus.Common.Countdown.{Countdown}

module _ {ℓ κ} {A : Type ℓ} {E : Type κ} (fire : A → E) (again : E → List A) where
  -- One step of the walk, which has already seen to the requests behind this one: those that stay,
  -- those that were added, and the calls that were made.
  unfoldable pub tick_round :
      (A → Countdown) → (A → A) → A → List A × List A × List E → List A × List A × List E
  tick_round countdown age x (kept, added, calls) =
      if (countdown x).expired
      then (kept, added ++ again (fire x), calls ++ fire x ∷ [])
      else (age x ∷ kept, added, calls)

  -- The loop of `Tick`.
  unfoldable pub tick_loop : (A → Countdown) → (A → A) → List A → List A × List A × List E
  tick_loop countdown age [] = ([], [], [])
  tick_loop countdown age (x ∷ xs) = tick_round countdown age x (tick_loop countdown age xs)

  abbrev pub joined : List A × List A × List E → List A × List E
  joined (kept, added, calls) = (kept ++ added, calls)

  abbrev pub behind : A → List A × List E → List A × List E
  behind x (xs, calls) = (x ∷ xs, calls)

  -- The loop of `Process`: the first request with the reference is answered and removed.
  unfoldable pub process_loop : (A → ℕ) → ℕ → List A → List A × List E
  process_loop ref n [] = ([], [])
  process_loop ref n (x ∷ xs) =
      let rest = process_loop ref n xs in
      if ref x == n then (xs ++ again (fire x), fire x ∷ []) else behind x rest

-- The loop of `RemoveForDevice` and of `RemoveForSki`.
unfoldable pub keep {ℓ} : {A : Type ℓ} → (A → Bool) → List A → List A
keep drop [] = []
keep drop (x ∷ xs) = if drop x then keep drop xs else x ∷ keep drop xs

unfoldable pub count {ℓ} : {A : Type ℓ} → (A → Bool) → List A → ℕ
count p [] = 0
count p (x ∷ xs) = (if p x then 1 else 0) + count p xs
